-- ===== src/Profile/Trade.antt =====
-- services/profile/internal/trade.go: the trade manager over any `Repo`. The manager's mutex makes
-- each method one step, so a method maps the manager to its error and the manager after it. The
-- trade that a method mutates through its pointer is written back under its id.
pub mod Edits
pub mod Locks
pub mod Swap
pub mod Closed
pub mod Tests
use pokecatch.Prelude.{
  String, Bool, true, false, not, ◌&&◌, ◌||◌, Option, none, some, List, [], ◌∷◌, ◌++◌, map, str_eq,
  if◌then◌else◌,
}
use pokecatch.Prelude.Outcome.{Result, ok, err, ◌>>=◌}
use pokecatch.Prelude.Dict
use pokecatch.Prelude.Dict.{Dict}
use pokecatch.Profile.Repo.{
  OwnershipTransfer, Error, not_owner, trade_not_found, not_participant, trade_closed, not_locked,
  Repo,
}

pub data TradeState : Type 0 where
  open_ committed cancelled : TradeState

pub record Trade : Type 0 where
  pub id : String
  pub initiator_id : String
  pub partner_id : String
  pub state : TradeState
  pub offers : Dict (List String)
  pub locked : Dict Bool

-- t.Offers[a] and t.locked[a], with Go's zero value for a missing key.
abbrev or_nil : Option (List String) → List String
or_nil none = []
or_nil (some ids) = ids

abbrev or_false : Option Bool → Bool
or_false none = false
or_false (some b) = b

abbrev pub offer : Trade → String → List String
offer t a = or_nil (Dict.get t.offers a)

abbrev pub is_locked : Trade → String → Bool
is_locked t a = or_false (Dict.get t.locked a)

abbrev pub is_open : TradeState → Bool
is_open open_ = true
is_open committed = false
is_open cancelled = false

abbrev pub is_committed : TradeState → Bool
is_committed open_ = false
is_committed committed = true
is_committed cancelled = false

abbrev pub is_participant : Trade → String → Bool
is_participant t a = str_eq a t.initiator_id || str_eq a t.partner_id

pub record TradeManager (S : Type 0) : Type 0 where
  pub repo : S
  pub trades : Dict Trade

unfoldable pub new_trade_manager : {S : Type 0} → S → TradeManager S
new_trade_manager repo = record { repo = repo; trades = Dict.empty }

-- The trade that Open makes; `id` is what idFn returned.
abbrev pub new_trade : String → String → String → Trade
new_trade id initiator_id partner_id = record {
  id = id;
  initiator_id = initiator_id;
  partner_id = partner_id;
  state = open_;
  offers = Dict.put (Dict.put Dict.empty initiator_id []) partner_id [];
  locked = Dict.put (Dict.put Dict.empty initiator_id false) partner_id false;
}

abbrev check_open : String → Option Trade → Result Error Trade
check_open account_id none = err trade_not_found
check_open account_id (some t) =
    if not (is_participant t account_id)
    then err not_participant
    else if not (is_open t.state)
    then err trade_closed
    else ok t

-- The new offer, and both locks cleared.
abbrev pub staged : Trade → String → List String → Trade
staged t account_id ids = record t {
  offers = Dict.put t.offers account_id ids;
  locked = Dict.put (Dict.put t.locked t.initiator_id false) t.partner_id false;
}

abbrev pub transfers_of : String → String → List String → List OwnershipTransfer
transfers_of from to [] = []
transfers_of from to (id ∷ ids) =
    record { creature_id = id; from_id = from; to_id = to } ∷ transfers_of from to ids

-- The full set of transfers that Commit builds.
abbrev pub transfers : Trade → List OwnershipTransfer
transfers t =
    transfers_of t.initiator_id t.partner_id (offer t t.initiator_id)
    ++ transfers_of t.partner_id t.initiator_id (offer t t.partner_id)

abbrev or_missing : Option Trade → Result Error Trade
or_missing none = err trade_not_found
or_missing (some t) = ok t

-- The calls that clients make.
pub data Call : Type 0 where
  opens : String → String → String → Call
  stages : String → String → List String → Call
  locks : String → String → Call
  commits : String → Call
  cancels : String → String → Call

module _ (R : Repo) where
  abbrev pub Manager : Type 0
  Manager = TradeManager R.State

  unfoldable pub open_trade : Manager → String → String → String → Manager
  open_trade m id initiator_id partner_id = record m {
    trades = Dict.put m.trades id (new_trade id initiator_id partner_id);
  }

  -- getOpen
  unfoldable pub get_open : Manager → String → String → Result Error Trade
  get_open m trade_id account_id = check_open account_id (Dict.get m.trades trade_id)

  -- The ownership loop of Stage.
  pub check_owned : R.State → String → List String → Option Error
  check_owned s account_id [] = none
  check_owned s account_id (id ∷ ids) = elim (R.get_creature s id) [
    | err e ↦ some e
    | ok oc ↦ if str_eq oc.owner_id account_id then check_owned s account_id ids else some not_owner
  ]

  abbrev write_trade : Manager → String → Trade → Manager
  write_trade m trade_id t = record m { trades = Dict.put m.trades trade_id t }

  unfoldable pub stage : Manager → String → String → List String → Option Error × Manager
  unfolding get_open
  stage m trade_id account_id ids = elim (get_open m trade_id account_id) [
    | err e ↦ (some e, m)
    | ok t ↦ elim (check_owned m.repo account_id ids) [
      | some e ↦ (some e, m)
      | none ↦ (none, write_trade m trade_id (staged t account_id ids))
    ]
  ]

  unfoldable pub lock : Manager → String → String → Option Error × Manager
  unfolding get_open
  lock m trade_id account_id = elim (get_open m trade_id account_id) [
    | err e ↦ (some e, m)
    | ok t ↦
        (none, write_trade m trade_id (record t { locked = Dict.put t.locked account_id true }))
  ]

  abbrev finish_commit : Manager → String → Trade → Option Error × R.State → Option Error × Manager
  finish_commit m trade_id t (some e, s) = (some e, record m { repo = s })
  finish_commit m trade_id t (none, s) =
      (none, write_trade (record m { repo = s }) trade_id (record t { state = committed }))

  abbrev commit_trade : Manager → String → Option Trade → Option Error × Manager
  commit_trade m trade_id none = (some trade_not_found, m)
  commit_trade m trade_id (some t) =
      if not (is_open t.state)
      then (some trade_closed, m)
      else if not (is_locked t t.initiator_id && is_locked t t.partner_id)
      then (some not_locked, m)
      else finish_commit m trade_id t (R.transfer_batch m.repo (transfers t))

  unfoldable pub commit : Manager → String → Option Error × Manager
  commit m trade_id = commit_trade m trade_id (Dict.get m.trades trade_id)

  abbrev cancel_trade : Manager → String → String → Option Trade → Option Error × Manager
  cancel_trade m trade_id account_id none = (some trade_not_found, m)
  cancel_trade m trade_id account_id (some t) =
      if not (is_participant t account_id)
      then (some not_participant, m)
      else if is_committed t.state
      then (some trade_closed, m)
      else (none, write_trade m trade_id (record t { state = cancelled }))

  pub cancel : Manager → String → String → Option Error × Manager
  cancel m trade_id account_id = cancel_trade m trade_id account_id (Dict.get m.trades trade_id)

  -- Get
  pub get_trade : Manager → String → Result Error Trade
  get_trade m trade_id = or_missing (Dict.get m.trades trade_id)

  pub step : Manager → Call → Manager
  unfolding open_trade stage lock commit cancel
  step m (opens id a b) = open_trade m id a b
  step m (stages t a ids) = (stage m t a ids).1
  step m (locks t a) = (lock m t a).1
  step m (commits t) = (commit m t).1
  step m (cancels t a) = (cancel m t a).1

  pub run : Manager → List Call → Manager
  unfolding step
  run m [] = m
  run m (c ∷ cs) = run (step m c) cs
