-- ===== src/Profile/Trade/Locks.antt =====
-- What a lock stands for: the offers that it was placed on.
use pokecatch.Prelude.{
  String, subst, ◌≡◌, refl, true, false, none, some, List, [], ◌∷◌, arith, str_eq, eq_iff, All, ◌∙◌,
}
use pokecatch.Prelude.Dict
use pokecatch.Prelude.Dict.{Dict, get-put}
use pokecatch.Profile.Repo.{Repo}
use pokecatch.Profile.Trade.{
  Trade, is_locked, is_participant, Manager, commit, transfers, Call, locks, step, run,
}
use pokecatch.Profile.Trade.Swap.{commit-eq-none}
use pokecatch.Profile.Trade.Edits.{
  Edit, kept, staged_, locked_, committed_, cancelled_, IsFresh, step-Edit,
}

-- The trade `u` comes after `t`: a lock that `a` has in `u` is one that it had in `t`, on the same
-- offers.
pub record Keeps (a : String) (t u : Trade) : Type 0 where
  pub initiator : u.initiator_id ≡ t.initiator_id
  pub partner : u.partner_id ≡ t.partner_id
  pub same : is_locked u a ≡ true → (is_locked t a ≡ true) × (u.offers ≡ t.offers)

-- Not a lock by `a` on the trade `k`.
abbrev pub IsNotLock : String → String → Call → Type 0
IsNotLock k a (locks j b) = str_eq b a ≡ false
IsNotLock k a _ = Unit

Edit-Keeps :
    (k a : String) (t u : Trade) (c : Call)
    → is_participant t a ≡ true
    → IsNotLock k a c
    → Edit k t c u
    → Keeps a t u
Edit-Keeps k a t u c h n (kept e) = record {
  initiator = ground arith;
  partner = ground arith;
  same = λ l. ground arith;
}
Edit-Keeps k a t u c h n (staged_ b ids e p o q) = record {
  initiator = q.initiator;
  partner = q.partner;
  same = λ l. absurd (cc (l, q.unlocked a h));
}
Edit-Keeps k a t u (locks i x) h n (locked_ b e p o q) = record {
  initiator = ground arith;
  partner = ground arith;
  same = λ l. ground (arith, get-put t.locked b a true);
}
Edit-Keeps k a t u c h n (locked_ b e p o q) = ground arith
Edit-Keeps k a t u c h n (committed_ e o l m q) = record {
  initiator = ground arith;
  partner = ground arith;
  same = λ l. ground arith;
}
Edit-Keeps k a t u c h n (cancelled_ b e p o q) = record {
  initiator = ground arith;
  partner = ground arith;
  same = λ l. ground arith;
}

transfers-eq :
    (t u : Trade)
    → u.initiator_id ≡ t.initiator_id
    → u.partner_id ≡ t.partner_id
    → u.offers ≡ t.offers
    → transfers u ≡ transfers t
transfers-eq t u p q o = rw (p, q, o)

module _ (R : Repo) (k a : String) where
  run-Keeps :
      (m : Manager R) (t : Trade) (cs : List Call)
      → Dict.get m.trades k ≡ some t
      → is_participant t a ≡ true
      → All (λ c. IsFresh k c × IsNotLock k a c) cs
      → (u : Trade) × (Dict.get (run R m cs).trades k ≡ some u) × Keeps a t u
  unfolding run
  run-Keeps m t [] e h n =
      (t, e, record { initiator = refl; partner = refl; same = λ l. (l, refl) })
  run-Keeps m t (c ∷ cs) e h n =
      let (u, e', edit) = step-Edit R m k t e c n.0.0 in
      let first = Edit-Keeps k a t u c h n.0.1 edit in
      let (v, e'', rest) = run-Keeps (step R m c) u cs e' (ground (arith, first)) n.1 in
      (
        v,
        e'',
        record {
          initiator = rest.initiator ∙ first.initiator;
          partner = rest.partner ∙ first.partner;
          same = λ l. let (l', s) = rest.same l in let (l'', s') = first.same l' in (l'', s ∙ s');
        },
      )

  -- A commit that succeeds after any calls of which none opens the trade's id again and none is a
  -- lock by the participant `a` finds `a`'s earlier lock, and hands the repository exactly the
  -- transfers of the offers that stood when those calls began: no party can be swapped out of an
  -- offer it locked.
  pub commit_as_locked :
      (m m' : Manager R) (t : Trade) (cs : List Call)
      → Dict.get m.trades k ≡ some t
      → is_participant t a ≡ true
      → All (λ c. IsFresh k c × IsNotLock k a c) cs
      → commit R (run R m cs) k ≡ (none, m')
      → (is_locked t a ≡ true)
        × (R.transfer_batch (run R m cs).repo (transfers t) ≡ (none, m'.repo))
  commit_as_locked m m' t cs e h n done =
      let (u, there, keeps) = run-Keeps m t cs e h n in
      let (fresh, by_initiator, by_partner, batch, after) =
        commit-eq-none R (run R m cs) m' k u there done in
      let (locked_before, same_offers) =
        keeps.same (ground (arith, keeps, eq_iff a t.initiator_id, eq_iff a t.partner_id)) in
      (
        locked_before,
        subst (λ ts. R.transfer_batch (run R m cs).repo ts ≡ (none, m'.repo))
            (transfers-eq t u keeps.initiator keeps.partner same_offers) batch,
      )
