-- ===== src/Profile/Handlers/Owners.antt =====
-- Which requests to services/profile/internal/handlers.go give a creature to another account.
use pokecatch.Prelude.{
  ◌≡◌, refl, ap, sym, subst, ◌∙◌, String, true, false, inl, inr, Bool, Option, none, some, List, [],
  ◌∷◌, All, arith, Option-cases,
}
use pokecatch.Prelude.Int.{ℤ}
use pokecatch.Prelude.Outcome.{Result, ok, err, Result-cases}
use pokecatch.Creatures.Model.{Dex}
use pokecatch.Profile.Repo.{OwnedCreature, Error, Repo, IsRepo, owner_of}
use pokecatch.Profile.Collection.{set_team, evolve}
use pokecatch.Profile.Collection.Evolution.{evolve_owners, evolve_keyed}
use pokecatch.Profile.Trade.{Manager, open_trade, stage, lock, get_open, check_owned}
use pokecatch.Profile.Handlers.{
  status, write_json, Reply, Route, list_creatures, evolves, sets_team, opens_trade, stages_trade,
  locks_trade, commits_trade, Decoder, answered, with_repo, evolve_reply, set_team_handler,
  open_trade_handler, stage_trade_handler, handle,
}
use pokecatch.Profile.Handlers.Refused.{set_team_state}

abbrev pub is_commit : {Bytes : Type 0} → Route Bytes → Bool
is_commit (commits_trade id) = true
is_commit _ = false

-- Every creature is found under its own id.
abbrev pub IsKeyed : (R : Repo) → R.State → Type 0
IsKeyed R s =
    (id : String) (oc : OwnedCreature) → R.get_creature s id ≡ ok oc → oc.inst.instance_id ≡ id

abbrev pub KeepsOwners : (R : Repo) → R.State → R.State → Type 0
KeepsOwners R s s' = (j : String) → owner_of (R.get_creature s' j) ≡ owner_of (R.get_creature s j)

abbrev KeepsReads : (R : Repo) → R.State → R.State → Type 0
KeepsReads R s s' = (j : String) → R.get_creature s' j ≡ R.get_creature s j

abbrev Keeps : (R : Repo) → R.State → R.State → Type 0
Keeps R s s' = IsKeyed R s' × KeepsOwners R s s'

reads_kept : (R : Repo) (s s' : R.State) → IsKeyed R s → KeepsReads R s s' → Keeps R s s'
reads_kept R s s' keyed reads =
    (λ id oc h. keyed id oc (sym (reads id) ∙ h), λ j. ap owner_of (reads j))

-- A request as the server meets it: what the manager's idFn would return, the caller, the route
abbrev pub Request : Type 0 → Type 0
Request Bytes = String × String × Route Bytes

module _ (R : Repo)
    (list : R.State → String → String → ℤ → Result Error (List OwnedCreature × String)) {F : Type 0}
    (dex : Dex F) {Bytes : Type 0} (json : Decoder Bytes) where
  answered_repo :
      (reply : Reply) (r : Option Error × Manager R) → (answered R list dex json reply r).1 ≡ r.1
  answered_repo reply (none, m) = refl
  answered_repo reply (some e, m) = refl

  evolve_reply_repo :
      (m : Manager R) (r : Result Error OwnedCreature × R.State)
      → (evolve_reply R list dex json m r).1.repo ≡ r.1
  evolve_reply_repo m (err e, s) = refl
  evolve_reply_repo m (ok oc, s) = refl

  set_team_reads :
      (m : Manager R) (caller : String) (parsed : Option (List String))
      → IsRepo R
      → KeepsReads R m.repo (set_team_handler R list dex json m caller parsed).1.repo
  set_team_reads m caller none law j = refl
  set_team_reads m caller (some ids) law j =
      let r = set_team R m.repo caller ids in
      ap (λ (n : Manager R). R.get_creature n.repo j)
        (answered_repo (write_json 200 (status "saved")) (with_repo R list dex json m r))
      ∙ elim (set_team_state R m.repo caller ids) [
        | inl same ↦
            ap (λ (x : Option Error × R.State). R.get_creature x.1 j) same
            ∙ law.team_apart m.repo caller ids j
        | inr kept ↦ ap (λ (s : R.State). R.get_creature s j) kept
      ]

  stage_repo :
      (m : Manager R) (id caller : String) (parsed : Option (List String))
      → (stage_trade_handler R list dex json m id caller parsed).1.repo ≡ m.repo
  unfolding stage get_open
  stage_repo m id caller none = refl
  stage_repo m id caller (some ids) =
      ap (λ (n : Manager R). n.repo)
        (answered_repo (write_json 200 (status "staged")) (stage R m id caller ids))
      ∙ elim (Result-cases (get_open R m id caller)) [
        | inr (x, p) ↦ ground (arith, p)
        | inl (t, p) ↦ elim (Option-cases (check_owned R m.repo caller ids)) [
          | inr (x, q) ↦ ground (arith, p, q)
          | inl q ↦ ground (arith, p, q)
        ]
      ]

  lock_repo : (m : Manager R) (id caller : String) → (lock R m id caller).1.repo ≡ m.repo
  unfolding lock get_open
  lock_repo m id caller = elim (Result-cases (get_open R m id caller)) [
    | inr (x, p) ↦ ground (arith, p)
    | inl (t, p) ↦ ground (arith, p)
  ]

  open_repo :
      (m : Manager R) (new_id caller : String) (parsed : Option String)
      → (open_trade_handler R list dex json m new_id caller parsed).1.repo ≡ m.repo
  unfolding open_trade
  open_repo m new_id caller none = refl
  open_repo m new_id caller (some partner) = refl

  same_reads : (s s' : R.State) → s' ≡ s → KeepsReads R s s'
  same_reads s s' e j = ap (λ (t : R.State). R.get_creature t j) e

  evolve_kept :
      (m : Manager R) (caller id : String)
      → IsRepo R
      → IsKeyed R m.repo
      → Keeps R m.repo (evolve_reply R list dex json m (evolve R dex m.repo caller id)).1.repo
  evolve_kept m caller id law keyed =
      let r = evolve R dex m.repo caller id in
      subst (Keeps R m.repo) (sym (evolve_reply_repo m r)) (
        evolve_keyed R dex m.repo caller id law keyed,
        λ j. evolve_owners R dex m.repo caller id j law keyed,
      )

  request_kept :
      (new_id caller : String) (m : Manager R) (route : Route Bytes)
      → IsRepo R
      → IsKeyed R m.repo
      → is_commit route ≡ false
      → Keeps R m.repo (handle R list dex json new_id caller m route).1.repo
  unfolding handle
  request_kept new_id caller m (list_creatures cursor) law keyed h =
      reads_kept R _ _ keyed (λ j. refl)
  request_kept new_id caller m (evolves id) law keyed h = evolve_kept m caller id law keyed
  request_kept new_id caller m (sets_team body) law keyed h =
      reads_kept R _ _ keyed (set_team_reads m caller (json.creatures body) law)
  request_kept new_id caller m (opens_trade body) law keyed h =
      reads_kept R _ _ keyed (same_reads _ _ (open_repo m new_id caller (json.partner_id body)))
  request_kept new_id caller m (stages_trade id body) law keyed h =
      reads_kept R _ _ keyed (same_reads _ _ (stage_repo m id caller (json.creatures body)))
  request_kept new_id caller m (locks_trade id) law keyed h = reads_kept R _ _ keyed (
      same_reads _ _ (
        ap (λ (n : Manager R). n.repo)
          (answered_repo (write_json 200 (status "locked")) (lock R m id caller))
        ∙ lock_repo m id caller))
  request_kept new_id caller m (commits_trade id) law keyed h = absurd (cc h)

  -- The requests of a list are served one after another.
  unfoldable pub handle_all : Manager R → List (Request Bytes) → Manager R
  handle_all m [] = m
  handle_all m ((new_id, caller, route) ∷ rest) =
      handle_all (handle R list dex json new_id caller m route).1 rest

  -- Over a repository with the laws of IsRepo that finds every creature under its own id, any
  -- sequence of requests to the profile handlers without a commit of a trade, whoever the callers
  -- are, leaves every creature with its owner, and every creature found under its own id.
  pub owners_kept :
      (m : Manager R) (requests : List (Request Bytes))
      → IsRepo R
      → IsKeyed R m.repo
      → All (λ (q : Request Bytes). is_commit q.2 ≡ false) requests
      → IsKeyed R (handle_all m requests).repo × KeepsOwners R m.repo (handle_all m requests).repo
  unfolding handle_all
  owners_kept m [] law keyed h = (keyed, λ j. refl)
  owners_kept m ((new_id, caller, route) ∷ rest) law keyed (h, hs) =
      let (keyed', first) = request_kept new_id caller m route law keyed h in
      let m' = (handle R list dex json new_id caller m route).1 in
      let (keyed'', after) = owners_kept m' rest law keyed' hs in (keyed'', λ j. after j ∙ first j)
