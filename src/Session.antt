-- ===== src/Session.antt =====
-- services/battle/internal/netcode/session.go: one match as a state machine. An input is what the
-- select of Run receives; a step handles it and, once both intents are there, resolves the turn and
-- begins the next. The observers onTurn and onEnd are the lists of their calls; what is sent to the
-- clients is in Session.Broadcast.
pub mod Recorded
pub mod Verified
pub mod Broadcast
pub mod Live
pub mod Socket
pub mod Tests
use pokecatch.Prelude.{
  ℕ, String, Bool, true, false, not, ◌&&◌, Option, none, some, List, [], ◌∷◌, ◌++◌, str_eq,
  if◌then◌else◌,
}
use pokecatch.Prelude.Int.{ℤ, pos, leb_ℤ, ltb_ℤ}
use pokecatch.Prelude.Float.{Float64}
use pokecatch.Prelude.Outcome.{Result, ok, err}
use pokecatch.Prelude.Partial.{◌>>=◌}
use pokecatch.Engine.Battle.Exchange.{
  Env, Event, Seat, first, second, ActionKind, act_move, act_switch, unknown, MoveAction,
}
use pokecatch.Engine.Battle.{Side, Battle, TurnError, new_battle, resolve_turn}
use pokecatch.Engine.Battle.Digest.{digest}
use pokecatch.Persistence.{TurnRecord}

-- The phases that Run can be in between two inputs; `stopped` is a return without an end.
pub data Phase : Type 0 where
  selecting ended_ stopped : Phase

pub record Intent : Type 0 where
  pub action : MoveAction
  pub seq : ℕ

pub record Session : Type 0 where
  pub battle : Battle
  pub player_a : String
  pub player_b : String
  pub phase : Phase
  pub pending_a : Option Intent
  pub pending_b : Option Intent
  pub on_turn : List TurnRecord
  pub on_end : Option (ℤ × ℕ)

pub data Input : Type 0 where
  timeout : Input
  submit : String → Intent → Input
  cancel : Input

abbrev default_action : MoveAction
default_action = record { kind = act_move; skill_slot = pos 0; switch_to = pos 0 }

abbrev pub side_of : Session → String → Option Seat
side_of s id =
    if str_eq id s.player_a then some first else if str_eq id s.player_b then some second else none

abbrev legal_kind : ActionKind → MoveAction → Bool
legal_kind act_move a = leb_ℤ (pos 0) a.skill_slot && ltb_ℤ a.skill_slot (pos 4)
legal_kind act_switch a = leb_ℤ (pos 0) a.switch_to
legal_kind unknown a = false

-- validate
abbrev pub is_legal : MoveAction → Bool
is_legal a = legal_kind a.kind a

abbrev checked : Intent → Intent
checked i = if is_legal i.action then i else record i { action = default_action }

abbrev unless_there : Option Intent → Intent → Option Intent
unless_there none i = some i
unless_there (some old) i = some old

abbrev pub put_intent : Option Seat → Intent → Session → Session
put_intent none i s = s
put_intent (some first) i s = record s { pending_a = unless_there s.pending_a (checked i) }
put_intent (some second) i s = record s { pending_b = unless_there s.pending_b (checked i) }

unfoldable pub accept_intent : String → Intent → Session → Session
accept_intent id i s = put_intent (side_of s id) i s

abbrev default_intent : Intent
default_intent = record { action = default_action; seq = 0 }

unfoldable pub fill_defaults : Session → Session
fill_defaults s = record s {
  pending_a = unless_there s.pending_a default_intent;
  pending_b = unless_there s.pending_b default_intent;
}

-- The top of the loop of Run.
pub begin_turn : Session → Session
begin_turn s =
    if s.battle.over
    then record s { phase = ended_; on_end = some (s.battle.winner, digest s.battle) }
    else record s { phase = selecting; pending_a = none; pending_b = none }

-- NewSession and the start of Run.
pub start : ℕ → String → String → Side → Side → Session
start seed player_a player_b a b = begin_turn (record {
  battle = new_battle seed a b;
  player_a = player_a;
  player_b = player_b;
  phase = selecting;
  pending_a = none;
  pending_b = none;
  on_turn = [];
  on_end = none;
})

module _ {fl : Float64} (env : Env fl) where
  -- The session after ResolveTurn.
  abbrev pub resolved : TurnRecord → Session → Result TurnError (List Event) × Battle → Session
  resolved t s (err e, bt) = record s { battle = bt; phase = stopped }
  resolved t s (ok events, bt) =
      begin_turn (record s { battle = bt; on_turn = s.on_turn ++ t ∷ [] })

  -- The rest of a round of Run, if both intents are there.
  abbrev pub if_ready : Option Intent → Option Intent → Session → Option Session
  if_ready none b s = some s
  if_ready (some a) none s = some s
  if_ready (some a) (some b) s = do
    r ← resolve_turn env s.battle a.action b.action
    some (resolved (record { first_action = a.action; second_action = b.action }) s r)

  abbrev pub handle : Input → Session → Option Session
  handle timeout s = let t = fill_defaults s in if_ready t.pending_a t.pending_b t
  handle (submit id i) s = let t = accept_intent id i s in if_ready t.pending_a t.pending_b t
  handle cancel s = some (record s { phase = stopped })

  -- After the end Run has returned, and inputs are dropped.
  abbrev pub handle_in : Phase → Input → Session → Option Session
  handle_in selecting input s = handle input s
  handle_in ended_ input s = some s
  handle_in stopped input s = some s

  unfoldable pub step : Input → Session → Option Session
  step input s = handle_in s.phase input s

  unfoldable pub run : List Input → Session → Option Session
  unfolding step
  run [] s = some s
  run (i ∷ is_) s = do s' ← step i s; run is_ s'
