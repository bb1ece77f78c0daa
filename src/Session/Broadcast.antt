-- ===== src/Session/Broadcast.antt =====
-- services/battle/internal/netcode/broadcast.go, messages.go and memtransport.go: what a session
-- sends. A snapshot of a side whose active index is out of its party panics.
pub mod Redacted
use pokecatch.Prelude.{
  ℕ, suc, String, Bool, Option, none, some, List, [], ◌∷◌, ◌++◌, length, ltb, ◌==◌, str_eq,
  if◌then◌else◌,
}
use pokecatch.Prelude.Int.{ℤ, pos}
use pokecatch.Prelude.Dict.{Dict, get, put}
use pokecatch.Prelude.Partial.{◌>>=◌}
use pokecatch.Types.{status_string}
use pokecatch.Engine.Battler.{Battler, fainted}
use pokecatch.Engine.Battle.Exchange.{Event, Seat, first, second, MoveAction, act_move, act_switch}
use pokecatch.Engine.Battle.{Side, Battle, active_battler}
use pokecatch.Engine.Battle.Digest.{digest}
use pokecatch.Session.{Session, Intent}

pub record BattlerView : Type 0 where
  pub dex_id : ℤ
  pub name : String
  pub level : ℤ
  pub hp_cur : ℤ
  pub hp_max : ℤ
  pub status : String
  pub fainted : Bool

pub record StateSnapshot : Type 0 where
  pub active_a : BattlerView
  pub active_b : BattlerView
  pub bench_a : List BattlerView
  pub bench_b : List BattlerView
  pub your_side : Seat

pub record ServerMessage : Type 0 where
  pub kind : String
  pub session_id : String
  pub turn : ℕ
  pub events : List Event
  pub state : Option StateSnapshot
  pub digest : ℕ
  pub winner : ℤ
  pub error : String

-- The closures of snapshot
abbrev pub view : Battler → BattlerView
view b = record {
  dex_id = b.species.dex_id;
  name = b.species.name;
  level = b.inst.level;
  hp_cur = b.cur_hp;
  hp_max = b.max_hp;
  status = status_string b.status;
  fainted = fainted b;
}

unfoldable pub bench_from : ℕ → ℕ → List Battler → List BattlerView
bench_from active i [] = []
bench_from active i (b ∷ bs) =
    let rest = bench_from active (suc i) bs in if i == active then rest else view b ∷ rest

abbrev pub bench : Side → List BattlerView
bench sd = bench_from sd.active 0 sd.party

unfoldable pub snapshot : Battle → Seat → Option StateSnapshot
snapshot bt side = do
  a ← active_battler bt.side_a
  b ← active_battler bt.side_b
  some (record {
    active_a = view a;
    active_b = view b;
    bench_a = bench bt.side_a;
    bench_b = bench bt.side_b;
    your_side = side;
  })

-- Whom a message goes to, tport.Send or tport.Spectate
pub data Receiver : Type 0 where
  player : String → Receiver
  spectators : Receiver

pub record Sent : Type 0 where
  pub receiver : Receiver
  pub message : ServerMessage

abbrev pub message : String → String → ServerMessage
message kind session_id = record {
  kind = kind;
  session_id = session_id;
  turn = 0;
  events = [];
  state = none;
  digest = 0;
  winner = pos 0;
  error = "";
}

abbrev turn_message : String → Battle → List Event → StateSnapshot → ServerMessage
turn_message session_id bt events shown = record (message "turn" session_id) {
  turn = bt.turn;
  events = events;
  state = some shown;
  digest = digest bt;
}

abbrev pub turn_messages : String → Session → List Event → StateSnapshot → StateSnapshot → List Sent
turn_messages session_id s events a b =
    record { receiver = player s.player_a; message = turn_message session_id s.battle events a }
    ∷ record { receiver = player s.player_b; message = turn_message session_id s.battle events b }
    ∷ record { receiver = spectators; message = turn_message session_id s.battle events a }
    ∷ []

abbrev pub broadcast_turn : String → Session → List Event → Option (List Sent)
broadcast_turn session_id s events = do
  a ← snapshot s.battle first
  b ← snapshot s.battle second
  some (turn_messages session_id s events a b)

abbrev state_message : String → String → Battle → StateSnapshot → ServerMessage
state_message kind session_id bt shown = record (message kind session_id) {
  turn = bt.turn;
  state = some shown;
  digest = digest bt;
}

abbrev pub state_messages : String → Session → String → StateSnapshot → StateSnapshot → List Sent
state_messages session_id s kind a b =
    record { receiver = player s.player_a; message = state_message kind session_id s.battle a }
    ∷ record { receiver = player s.player_b; message = state_message kind session_id s.battle b }
    ∷ []

abbrev pub broadcast_state : String → Session → String → Option (List Sent)
broadcast_state session_id s kind = do
  a ← snapshot s.battle first
  b ← snapshot s.battle second
  some (state_messages session_id s kind a b)

abbrev pub broadcast_end : String → Session → List Sent
broadcast_end session_id s =
    let ended = record (message "end" session_id) { winner = s.battle.winner } in
    let hashed = record ended { digest = digest s.battle } in
    record { receiver = player s.player_a; message = hashed }
    ∷ record { receiver = player s.player_b; message = hashed }
    ∷ record { receiver = spectators; message = ended }
    ∷ []

pub record ClientMessage : Type 0 where
  pub type_ : String
  pub seq : ℕ
  pub kind : String
  pub slot : ℤ
  pub switch_to : ℤ

-- toIntent
abbrev pub to_intent : ClientMessage → Intent
to_intent m = record {
  action =
      if str_eq m.kind "switch"
      then record { kind = act_switch; skill_slot = pos 0; switch_to = m.switch_to }
      else record { kind = act_move; skill_slot = m.slot; switch_to = pos 0 };
  seq = m.seq;
}

-- The channels of MemTransport as the messages that wait in them
pub record MemTransport : Type 0 where
  pub inbox : Dict (List ServerMessage)
  pub spectator : List ServerMessage

abbrev pub enqueue : ℕ → List ServerMessage → ServerMessage → List ServerMessage
enqueue capacity waiting m = if ltb (length waiting) capacity then waiting ++ m ∷ [] else waiting

abbrev pub send_to :
    MemTransport → String → ServerMessage → Option (List ServerMessage) → MemTransport
send_to t id m none = t
send_to t id m (some waiting) = record t { inbox = put t.inbox id (enqueue 64 waiting m) }

unfoldable pub send : MemTransport → String → ServerMessage → MemTransport
send t id m = send_to t id m (get t.inbox id)

unfoldable pub spectate : MemTransport → ServerMessage → MemTransport
spectate t m = record t { spectator = enqueue 128 t.spectator m }
