-- ===== src/Profile/Trade/Tests.antt =====
-- Runs of the trade manager of services/profile/internal/trade.go over the in-memory repository.
use pokecatch.Prelude.{
  String, ◌≡◌, ◌≢◌, refl, true, false, none, some, List, [], ◌∷◌, contains, All, eq_iff,
}
use pokecatch.Prelude.Dict
use pokecatch.Creatures.Samples.{young_sprout}
use pokecatch.Profile.Repo.{OwnedCreature, not_owner, trade_closed, owner_of}
use pokecatch.Profile.MemRepo
use pokecatch.Profile.MemRepo.{MemRepo, mem_repo}
use pokecatch.Profile.MemRepo.Laws.{mem_repo-IsRepo}
use pokecatch.Profile.Trade.{
  Trade, Manager, committed, staged, is_locked, new_trade, offer, transfers, commit, lock, get_open,
  Call, stages, locks, cancels, step, run,
}
use pokecatch.Profile.Trade.Swap.{swapped, commit_swaps}
use pokecatch.Profile.Trade.Locks.{IsNotLock, commit_as_locked}
use pokecatch.Profile.Trade.Closed.{commit_once}
use pokecatch.Profile.Trade.Edits.{IsFresh, Edited, step-Edit}

abbrev pub owned : String → String → OwnedCreature
owned id owner = record { inst = record young_sprout { instance_id = id }; owner_id = owner }

abbrev pub two_creatures : MemRepo
two_creatures = record {
  creatures = Dict.put (Dict.put Dict.empty "c1" (owned "c1" "ann")) "c2" (owned "c2" "bob");
  teams = Dict.empty;
}

-- Both offers staged, nothing locked.
abbrev offered : Trade
offered = staged (staged (new_trade "t1" "ann" "bob") "ann" ("c1" ∷ [])) "bob" ("c2" ∷ [])

abbrev pub agreed : Trade
agreed = record offered { locked = Dict.put (Dict.put offered.locked "ann" true) "bob" true }

abbrev pub manager_of : Trade → Manager mem_repo
manager_of t = record { repo = two_creatures; trades = Dict.put Dict.empty "t1" t }

abbrev swapped_repo : MemRepo
swapped_repo = record {
  creatures = Dict.put (Dict.put Dict.empty "c1" (owned "c1" "bob")) "c2" (owned "c2" "ann");
  teams = Dict.empty;
}

abbrev after_commit : Manager mem_repo
after_commit = record {
  repo = swapped_repo;
  trades = Dict.put Dict.empty "t1" (record agreed { state = committed });
}

ann_is_not_bob : agreed.initiator_id ≢ agreed.partner_id
ann_is_not_bob e = let f : false ≡ true = (eq_iff "ann" "bob").1 e in cc f

commits_ok : commit mem_repo (manager_of agreed) "t1" ≡ (none, after_commit)
unfolding commit MemRepo.transfer_batch MemRepo.check_batch MemRepo.apply_batch
    MemRepo.apply_transfer Dict.get Dict.put Dict.empty
commits_ok = refl

agreed_is_there : Dict.get (manager_of agreed).trades "t1" ≡ some agreed
unfolding Dict.get Dict.put Dict.empty
agreed_is_there = refl

commit_swaps_example :
    (mem_repo.get_creature after_commit.repo "c1"
      ≡ swapped agreed "c1" (mem_repo.get_creature two_creatures "c1"))
    × (contains (offer agreed "ann") "c1" ≡ true
        → owner_of (mem_repo.get_creature two_creatures "c1") ≡ some "ann")
    × (contains (offer agreed "bob") "c1" ≡ true
        → owner_of (mem_repo.get_creature two_creatures "c1") ≡ some "bob")
commit_swaps_example =
    commit_swaps mem_repo (manager_of agreed) after_commit "t1" agreed mem_repo-IsRepo
      agreed_is_there ann_is_not_bob commits_ok "c1"

-- An offer of a creature that is the other's.
abbrev overreaching : Trade
overreaching = record agreed { offers = Dict.put agreed.offers "ann" ("c1" ∷ "c2" ∷ []) }

commit_fails :
    commit mem_repo (manager_of overreaching) "t1" ≡ (some not_owner, manager_of overreaching)
unfolding commit MemRepo.transfer_batch MemRepo.check_batch Dict.get Dict.put Dict.empty
commit_fails = refl

-- Ann has locked; then Bob does.
abbrev half_agreed : Trade
half_agreed = record offered { locked = Dict.put offered.locked "ann" true }

abbrev bob_locks : List Call
bob_locks = locks "t1" "bob" ∷ []

half_agreed_is_there : Dict.get (manager_of half_agreed).trades "t1" ≡ some half_agreed
unfolding Dict.get Dict.put Dict.empty
half_agreed_is_there = refl

bob_locks_quiet : All (λ c. IsFresh "t1" c × IsNotLock "t1" "ann" c) bob_locks
bob_locks_quiet = ((tt, refl), tt)

commits_after_lock :
    commit mem_repo (run mem_repo (manager_of half_agreed) bob_locks) "t1" ≡ (none, after_commit)
unfolding run step lock get_open commit MemRepo.transfer_batch MemRepo.check_batch
    MemRepo.apply_batch MemRepo.apply_transfer Dict.get Dict.put Dict.empty
commits_after_lock = refl

commit_as_locked_example :
    (is_locked half_agreed "ann" ≡ true)
    × (mem_repo.transfer_batch
          (run mem_repo (manager_of half_agreed) bob_locks).repo
          (transfers half_agreed)
        ≡ (none, after_commit.repo))
commit_as_locked_example =
    commit_as_locked mem_repo "t1" "ann" (manager_of half_agreed) after_commit half_agreed bob_locks
      half_agreed_is_there refl bob_locks_quiet commits_after_lock

abbrev late_calls : List Call
late_calls = cancels "t1" "ann" ∷ stages "t1" "bob" ("c1" ∷ []) ∷ []

commit_once_example :
    commit mem_repo (run mem_repo after_commit late_calls) "t1"
    ≡ (some trade_closed, run mem_repo after_commit late_calls)
commit_once_example =
    commit_once mem_repo "t1" (manager_of agreed) after_commit agreed late_calls agreed_is_there
      commits_ok (tt, (tt, tt))

-- Bob changes his offer after Ann has locked.
abbrev bob_stages : Call
bob_stages = stages "t1" "bob" []

step-Edit_example :
    Edited mem_repo
      (manager_of half_agreed)
      "t1"
      half_agreed
      half_agreed_is_there
      bob_stages
      (step mem_repo (manager_of half_agreed) bob_stages)
step-Edit_example =
    step-Edit mem_repo (manager_of half_agreed) "t1" half_agreed half_agreed_is_there bob_stages tt

-- Staging again takes both locks back.
restaged_unlocks : is_locked (staged agreed "ann" ("c1" ∷ [])) "bob" ≡ false
unfolding Dict.get Dict.put Dict.empty
restaged_unlocks = refl
