-- ===== src/Profile/Handlers/Refused.antt =====
-- What requests to services/profile/internal/handlers.go leave as it was.
use pokecatch.Prelude.{
  ◌≤◌, ◌≡◌, refl, ap, String, ◌⊎◌, inl, inr, Option, none, some, List, [], ◌∷◌, arith, Bool-cases,
  Option-cases, length, ltb,
}
use pokecatch.Prelude.Int.{ℤ}
use pokecatch.Prelude.Dict
use pokecatch.Prelude.Outcome.{Result, ok, err, Result-cases}
use pokecatch.Creatures.Model.{Dex}
use pokecatch.Profile.Repo.{OwnedCreature, Error, Repo, IsRepo}
use pokecatch.Profile.Collection.{set_team, evolve, check_members}
use pokecatch.Profile.Collection.Evolution.{evolve_err}
use pokecatch.Profile.Trade.{Manager, stage, lock, commit, get_open, check_owned}
use pokecatch.Profile.Trade.Swap.{commit_atomic}
use pokecatch.Profile.Handlers.{
  status, write_json, set_team_handler, stage_trade_handler, open_trade_handler, Reply, Route,
  list_creatures, evolves, sets_team, opens_trade, stages_trade, locks_trade, commits_trade,
  Decoder, answered, with_repo, evolve_reply, handle,
}

-- The team is handed to the repository, or nothing is written.
pub set_team_state :
    (R : Repo) (s : R.State) (owner_id : String) (ids : List String)
    → (set_team R s owner_id ids ≡ R.set_team s owner_id ids) ⊎ ((set_team R s owner_id ids).1 ≡ s)
unfolding set_team
set_team_state R s owner_id [] = inr refl
set_team_state R s owner_id (id ∷ ids) = elim (Bool-cases (ltb 6 (length (id ∷ ids)))) [
  | inl big ↦ inr (rw big refl)
  | inr fits ↦ elim (Option-cases (check_members R s owner_id Dict.empty (id ∷ ids))) [
    | inl e ↦ inl (rw (fits, e) refl)
    | inr (x, e) ↦ inr (rw (fits, e) refl)
  ]
]

set_team_err :
    (R : Repo) (s : R.State) (owner_id : String) (ids : List String) (e : Error)
    → IsRepo R
    → (set_team R s owner_id ids).0 ≡ some e
    → (set_team R s owner_id ids).1 ≡ s
set_team_err R s owner_id ids e law h = elim (set_team_state R s owner_id ids) [
  | inl same ↦ rw same (law.team_err s owner_id ids e (rw same at h))
  | inr kept ↦ kept
]

stage_err :
    (R : Repo) (m : Manager R) (k a : String) (ids : List String) (e : Error)
    → (stage R m k a ids).0 ≡ some e
    → (stage R m k a ids).1 ≡ m
unfolding stage get_open
stage_err R m k a ids e h = elim (Result-cases (get_open R m k a)) [
  | inr (x, p) ↦ ground (arith, p)
  | inl (t, p) ↦ elim (Option-cases (check_owned R m.repo a ids)) [
    | inr (x, q) ↦ ground (arith, p, q)
    | inl q ↦ absurd (ground (arith, h, p, q))
  ]
]

lock_err :
    (R : Repo) (m : Manager R) (k a : String) (e : Error)
    → (lock R m k a).0 ≡ some e
    → (lock R m k a).1 ≡ m
unfolding lock get_open
lock_err R m k a e h = elim (Result-cases (get_open R m k a)) [
  | inr (x, p) ↦ ground (arith, p)
  | inl (t, p) ↦ absurd (ground (arith, h, p))
]

module _ (R : Repo)
    (list : R.State → String → String → ℤ → Result Error (List OwnedCreature × String)) {F : Type 0}
    (dex : Dex F) {Bytes : Type 0} (json : Decoder Bytes) where
  -- A reply of at least 400 to an operation that changes nothing when it fails.
  answered_unchanged :
      (reply : Reply) (m : Manager R) (r : Option Error × Manager R)
      → reply.status_code ≤ 399
      → ((e : Error) → r.0 ≡ some e → r.1 ≡ m)
      → 400 ≤ (answered R list dex json reply r).0.status_code
      → (answered R list dex json reply r).1 ≡ m
  answered_unchanged reply m (none, m') low back h = absurd (omega (arith, low, h))
  answered_unchanged reply m (some e, m') low back h = back e refl

  evolve_unchanged :
      (m : Manager R) (r : Result Error OwnedCreature × R.State)
      → ((e : Error) → r.0 ≡ err e → r.1 ≡ m.repo)
      → 400 ≤ (evolve_reply R list dex json m r).0.status_code
      → (evolve_reply R list dex json m r).1 ≡ m
  evolve_unchanged m (ok oc, s) back h = absurd (omega (arith, h))
  evolve_unchanged m (err e, s) back h = ap (λ (s : R.State). record m { repo = s }) (back e refl)

  set_team_unchanged :
      (m : Manager R) (caller : String) (parsed : Option (List String))
      → IsRepo R
      → 400 ≤ (set_team_handler R list dex json m caller parsed).0.status_code
      → (set_team_handler R list dex json m caller parsed).1 ≡ m
  set_team_unchanged m caller none law h = refl
  set_team_unchanged m caller (some ids) law h =
      let r = set_team R m.repo caller ids in
      answered_unchanged (write_json 200 (status "saved")) m (with_repo R list dex json m r)
        (omega arith)
        (λ e p.
          ap (λ (s : R.State). record m { repo = s }) (set_team_err R m.repo caller ids e law p))
        h

  stage_unchanged :
      (m : Manager R) (id caller : String) (parsed : Option (List String))
      → 400 ≤ (stage_trade_handler R list dex json m id caller parsed).0.status_code
      → (stage_trade_handler R list dex json m id caller parsed).1 ≡ m
  stage_unchanged m id caller none h = refl
  stage_unchanged m id caller (some ids) h =
      answered_unchanged (write_json 200 (status "staged")) m (stage R m id caller ids)
        (omega arith) (λ e p. stage_err R m id caller ids e p) h

  open_unchanged :
      (m : Manager R) (new_id caller : String) (parsed : Option String)
      → 400 ≤ (open_trade_handler R list dex json m new_id caller parsed).0.status_code
      → (open_trade_handler R list dex json m new_id caller parsed).1 ≡ m
  open_unchanged m new_id caller none h = refl
  open_unchanged m new_id caller (some partner) h = absurd (omega (arith, h))

  -- Over a repository with the laws of IsRepo, a request to the profile handlers that is answered
  -- with a status of 400 or more, whatever its route, caller and body, has changed nothing: not a
  -- creature, not a team, not a trade.
  pub refused_unchanged :
      (new_id caller : String) (m : Manager R) (route : Route Bytes)
      → IsRepo R
      → 400 ≤ (handle R list dex json new_id caller m route).0.status_code
      → (handle R list dex json new_id caller m route).1 ≡ m
  unfolding handle
  refused_unchanged new_id caller m (list_creatures cursor) law h = refl
  refused_unchanged new_id caller m (evolves id) law h =
      let r = evolve R dex m.repo caller id in
      evolve_unchanged m r
        (λ e p.
          evolve_err R dex m.repo r.1 caller id e law
            (ap (λ (x : Result Error OwnedCreature). (x, r.1)) p))
        h
  refused_unchanged new_id caller m (sets_team body) law h =
      set_team_unchanged m caller (json.creatures body) law h
  refused_unchanged new_id caller m (opens_trade body) law h =
      open_unchanged m new_id caller (json.partner_id body) h
  refused_unchanged new_id caller m (stages_trade id body) law h =
      stage_unchanged m id caller (json.creatures body) h
  refused_unchanged new_id caller m (locks_trade id) law h =
      answered_unchanged (write_json 200 (status "locked")) m (lock R m id caller) (omega arith)
        (λ e p. lock_err R m id caller e p) h
  refused_unchanged new_id caller m (commits_trade id) law h =
      let r = commit R m id in
      answered_unchanged (write_json 200 (status "committed")) m r (omega arith)
        (λ e p. commit_atomic R m r.1 id e law (ap (λ (x : Option Error). (x, r.1)) p)) h
