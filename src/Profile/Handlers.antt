-- ===== src/Profile/Handlers.antt =====
-- services/profile/internal/handlers.go: the HTTP adapter over the collection and the trades, which
-- share one repository. A request is a matched route with its path value, its caller, and its body;
-- decoding the body (of at most 64 KiB) is a parameter, as is ListCreatures of the repository.
pub mod Refused
pub mod Owners
pub mod Caller
mod Tests
use pokecatch.Prelude.{ℕ, String, Option, none, some, List, [], ◌∷◌}
use pokecatch.Prelude.Int.{ℤ, pos}
use pokecatch.Prelude.Outcome.{Result, ok, err}
use pokecatch.Creatures.Model.{Dex}
use pokecatch.Profile.Repo.{
  OwnedCreature, Error, creature_not_found, not_owner, team_too_big, team_dup, empty_team,
  cannot_evolve, level_too_low, trade_not_found, not_participant, trade_closed, not_locked, driver,
  Repo,
}
use pokecatch.Profile.Collection.{page_limit, set_team, evolve}
use pokecatch.Profile.Trade.{Manager, open_trade, stage, lock, commit}

-- What writeJSON encodes
pub data Body : Type 0 where
  code : String → Body
  status : String → Body
  listed : List OwnedCreature → String → Body
  creature : OwnedCreature → Body
  trade_id : String → Body

pub record Reply : Type 0 where
  pub status_code : ℕ
  pub body : Body

abbrev pub write_json : ℕ → Body → Reply
write_json n b = record { status_code = n; body = b }

-- The routes of Routes
pub data Route (Bytes : Type 0) : Type 0 where
  list_creatures : String → Route Bytes
  evolves : String → Route Bytes
  sets_team : Bytes → Route Bytes
  opens_trade : Bytes → Route Bytes
  stages_trade : String → Bytes → Route Bytes
  locks_trade : String → Route Bytes
  commits_trade : String → Route Bytes

unfoldable pub write_err : Error → Reply
write_err not_owner = write_json 403 (code "not_owner")
write_err team_too_big = write_json 422 (code "invalid_team")
write_err team_dup = write_json 422 (code "invalid_team")
write_err empty_team = write_json 422 (code "invalid_team")
write_err cannot_evolve = write_json 409 (code "cannot_evolve")
write_err level_too_low = write_json 409 (code "cannot_evolve")
write_err trade_not_found = write_json 409 (code "trade_error")
write_err not_participant = write_json 409 (code "trade_error")
write_err trade_closed = write_json 409 (code "trade_error")
write_err not_locked = write_json 409 (code "trade_error")
write_err creature_not_found = write_json 500 (code "internal")
write_err driver = write_json 500 (code "internal")

abbrev pub bad_request : Reply
bad_request = write_json 400 (code "bad_request")

-- The decoders of the two shapes of bodies
pub record Decoder (Bytes : Type 0) : Type 0 where
  pub creatures : Bytes → Option (List String)
  pub partner_id : Bytes → Option String

module _ (R : Repo)
    (list : R.State → String → String → ℤ → Result Error (List OwnedCreature × String)) {F : Type 0}
    (dex : Dex F) {Bytes : Type 0} (json : Decoder Bytes) where
  abbrev pub answered : Reply → Option Error × Manager R → Reply × Manager R
  answered reply (none, m) = (reply, m)
  answered reply (some e, m) = (write_err e, m)

  abbrev pub with_repo : Manager R → Option Error × R.State → Option Error × Manager R
  with_repo m (e, s) = (e, record m { repo = s })

  abbrev pub page_reply : Result Error (List OwnedCreature × String) → Reply
  page_reply (err e) = write_err e
  page_reply (ok (page, next)) = write_json 200 (listed page next)

  abbrev pub evolve_reply : Manager R → Result Error OwnedCreature × R.State → Reply × Manager R
  evolve_reply m (err e, s) = (write_err e, record m { repo = s })
  evolve_reply m (ok oc, s) = (write_json 200 (creature oc), record m { repo = s })

  abbrev pub set_team_handler : Manager R → String → Option (List String) → Reply × Manager R
  set_team_handler m caller none = (bad_request, m)
  set_team_handler m caller (some ids) =
      answered (write_json 200 (status "saved")) (with_repo m (set_team R m.repo caller ids))

  -- `id` is what the manager's idFn returns
  abbrev pub open_trade_handler : Manager R → String → String → Option String → Reply × Manager R
  open_trade_handler m id caller none = (bad_request, m)
  open_trade_handler m id caller (some partner) =
      (write_json 201 (trade_id id), open_trade R m id caller partner)

  abbrev pub stage_trade_handler :
      Manager R → String → String → Option (List String) → Reply × Manager R
  stage_trade_handler m id caller none = (bad_request, m)
  stage_trade_handler m id caller (some ids) =
      answered (write_json 200 (status "staged")) (stage R m id caller ids)

  unfoldable pub handle : String → String → Manager R → Route Bytes → Reply × Manager R
  handle new_id caller m (list_creatures cursor) =
      (page_reply (list m.repo caller cursor (page_limit (pos 50))), m)
  handle new_id caller m (evolves id) = evolve_reply m (evolve R dex m.repo caller id)
  handle new_id caller m (sets_team body) = set_team_handler m caller (json.creatures body)
  handle new_id caller m (opens_trade body) =
      open_trade_handler m new_id caller (json.partner_id body)
  handle new_id caller m (stages_trade id body) =
      stage_trade_handler m id caller (json.creatures body)
  handle new_id caller m (locks_trade id) =
      answered (write_json 200 (status "locked")) (lock R m id caller)
  handle new_id caller m (commits_trade id) =
      answered (write_json 200 (status "committed")) (commit R m id)
