-- ===== src/Profile/Handlers/Tests.antt =====
-- Requests to services/profile/internal/handlers.go over the in-memory repository.
use pokecatch.Prelude.{String, ◌≡◌, refl, some, List, [], ◌∷◌, arith, eq_iff}
use pokecatch.Prelude.Int.{ℤ}
use pokecatch.Prelude.Outcome.{Result, err}
use pokecatch.Prelude.Dict
use pokecatch.Prelude.Dict.{get-put, get-empty}
use pokecatch.Creatures.Samples.{two_species}
use pokecatch.Profile.Repo.{OwnedCreature, Error, driver}
use pokecatch.Profile.MemRepo
use pokecatch.Profile.MemRepo.{MemRepo, mem_repo}
use pokecatch.Profile.MemRepo.Laws.{mem_repo-IsRepo}
use pokecatch.Profile.Collection.Tests.{one_creature, sprout_of_ann}
use pokecatch.Profile.Trade.{Manager, lock, get_open}
use pokecatch.Profile.Trade.Tests.{agreed, manager_of}
use pokecatch.Profile.Handlers.{
  Decoder, evolves, sets_team, opens_trade, locks_trade, write_err, handle,
}
use pokecatch.Profile.Handlers.Refused.{refused_unchanged}
use pokecatch.Profile.Handlers.Owners.{IsKeyed, KeepsOwners, Request, handle_all, owners_kept}

-- A database that is down
abbrev no_list : MemRepo → String → String → ℤ → Result Error (List OwnedCreature × String)
no_list s owner_id cursor limit = err driver

-- Bodies as texts: one id, or one partner
abbrev json : Decoder String
json = record { creatures = λ body. some (body ∷ []); partner_id = some }

-- Eve is no participant of the trade.
refused_unchanged_example :
    (handle mem_repo no_list two_species json "t2" "eve" (manager_of agreed) (locks_trade "t1")).1
    ≡ manager_of agreed
unfolding handle lock get_open write_err Dict.get Dict.put Dict.empty
refused_unchanged_example =
    refused_unchanged mem_repo no_list two_species json "t2" "eve" (manager_of agreed)
      (locks_trade "t1") mem_repo-IsRepo (omega arith)

abbrev anns : Manager mem_repo
anns = record { repo = one_creature; trades = Dict.empty }

one_creature-IsKeyed : IsKeyed mem_repo one_creature
unfolding MemRepo.get_creature
one_creature-IsKeyed id oc h = ground (
  arith,
  get-put Dict.empty "c1" id sprout_of_ann,
  get-empty {V = OwnedCreature} id,
  eq_iff "c1" id,
)

-- Eve asks for Ann's creature to evolve, Ann forms a team and evolves it, and opens a trade.
abbrev afternoon : List (Request String)
afternoon =
    ("", "eve", evolves "c1")
    ∷ ("", "ann", sets_team "c1")
    ∷ ("", "ann", evolves "c1")
    ∷ ("t2", "ann", opens_trade "ben")
    ∷ []

owners_kept_example :
    IsKeyed mem_repo (handle_all mem_repo no_list two_species json anns afternoon).repo
    × KeepsOwners mem_repo one_creature
        (handle_all mem_repo no_list two_species json anns afternoon).repo
owners_kept_example =
    owners_kept mem_repo no_list two_species json anns afternoon mem_repo-IsRepo
      one_creature-IsKeyed (refl, (refl, (refl, (refl, tt))))
