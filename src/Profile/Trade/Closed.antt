-- ===== src/Profile/Trade/Closed.antt =====
-- Committed and cancelled trades stay as they are.
use pokecatch.Prelude.{String, ◌≡◌, refl, false, none, some, List, [], ◌∷◌, arith, All, ap, ◌∙◌}
use pokecatch.Prelude.Dict
use pokecatch.Prelude.Dict.{Dict, get-put}
use pokecatch.Prelude.{str_eq_refl}
use pokecatch.Profile.Repo.{Repo, trade_closed}
use pokecatch.Profile.Trade.{Trade, committed, is_open, Manager, commit, step, run, Call}
use pokecatch.Profile.Trade.Swap.{commit-eq-none}
use pokecatch.Profile.Trade.Edits.{
  Edit, kept, staged_, locked_, committed_, cancelled_, IsFresh, step-Edit,
}

Edit-closed :
    (k : String) (t u : Trade) (c : Call)
    → is_open t.state ≡ false
    → Edit k t c u
    → u.state ≡ t.state
Edit-closed k t u c h (kept e) = ground arith
Edit-closed k t u c h (staged_ b ids e p o q) = q.state
Edit-closed k t u c h (locked_ b e p o q) = ground arith
Edit-closed k t u c h (committed_ e o l m q) = ground arith
Edit-closed k t u c h (cancelled_ b e p o q) = ground arith

module _ (R : Repo) (k : String) where
  run-closed :
      (m : Manager R) (t : Trade) (cs : List Call)
      → Dict.get m.trades k ≡ some t
      → is_open t.state ≡ false
      → All (IsFresh k) cs
      → (u : Trade) × (Dict.get (run R m cs).trades k ≡ some u) × (u.state ≡ t.state)
  unfolding run
  run-closed m t [] e h n = (t, e, refl)
  run-closed m t (c ∷ cs) e h n =
      let (u, e', edit) = step-Edit R m k t e c n.0 in
      let same = Edit-closed k t u c h edit in
      let (v, e'', same') = run-closed (step R m c) u cs e' (ap is_open same ∙ h) n.1 in
      (v, e'', same' ∙ same)

  -- After a commit that succeeded, whatever calls follow that do not open the id again, a second
  -- commit fails as closed and changes nothing.
  pub commit_once :
      (m m' : Manager R) (t : Trade) (cs : List Call)
      → Dict.get m.trades k ≡ some t
      → commit R m k ≡ (none, m')
      → All (IsFresh k) cs
      → commit R (run R m' cs) k ≡ (some trade_closed, run R m' cs)
  unfolding commit
  commit_once m m' t cs e done n =
      let (_, _, _, _, after) = commit-eq-none R m m' k t e done in
      let closed : Trade = record t { state = committed } in
      let (u, there, same) =
        run-closed m' closed cs (rw (after, get-put m.trades k k closed, str_eq_refl k)) refl n in
      ground (arith, there, same)
