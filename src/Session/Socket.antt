-- ===== src/Session/Socket.antt =====
-- services/battle/internal/netcode/ws.go: the sockets of one session. The session, the channel of
-- Submit, the maps of the transport and the read pumps make a room; an event is what one goroutine
-- does between two waits. Bytes and their decoding are parameters; a failed write is dropped there as
-- here. A frame that a full channel holds up counts as received when there is space.
pub mod Ids
pub mod Submitted
pub mod Verified
pub mod Reconnect
mod Tests
use pokecatch.Prelude.{
  ℕ, String, Bool, true, false, Option, none, some, List, [], ◌∷◌, ◌++◌, length, ltb, ◌==◌, str_eq,
  not, ◌||◌, if◌then◌else◌,
}
use pokecatch.Prelude.Float.{Float64}
use pokecatch.Prelude.Dict
use pokecatch.Prelude.Dict.{Dict}
use pokecatch.Prelude.Partial.{◌>>=◌}
use pokecatch.Engine.Battle.Exchange.{Env, Seat}
use pokecatch.Engine.Battle.Digest.{digest}
use pokecatch.Session.{
  Phase, selecting, ended_, stopped, Session, Intent, Input, timeout, submit as submit_input,
  cancel, side_of,
}
use pokecatch.Session.Broadcast.{
  ServerMessage, ClientMessage, Receiver, player, spectators as all_spectators, Sent, StateSnapshot,
  snapshot, message, to_intent,
}
use pokecatch.Session.Live.{Live, live_step}

pub record Conn : Type 0 where
  pub socket : ℕ
  pub player_id : String

pub record WsTransport : Type 0 where
  pub players : Dict Conn
  -- in the order of the range, which no receiver sees
  pub spectators : List Conn

abbrev pub new_ws_transport : WsTransport
new_ws_transport = record { players = Dict.empty; spectators = [] }

-- A message that writeJSON handed to a connection
pub record Written : Type 0 where
  pub conn : Conn
  pub message : ServerMessage

abbrev written_to : Option Conn → ServerMessage → List Written
written_to none m = []
written_to (some c) m = record { conn = c; message = m } ∷ []

unfoldable pub send : WsTransport → String → ServerMessage → List Written
send t player_id m = written_to (Dict.get t.players player_id) m

abbrev pub spectate_from : List Conn → ServerMessage → List Written
spectate_from [] m = []
spectate_from (c ∷ cs) m = record { conn = c; message = m } ∷ spectate_from cs m

abbrev pub spectate : WsTransport → ServerMessage → List Written
spectate t m = spectate_from t.spectators m

-- The map of Attach, and of the deferred function of readPump
unfoldable pub attach : WsTransport → Conn → WsTransport
attach t c = record t { players = Dict.put t.players c.player_id c }

unfoldable pub detach : WsTransport → Conn → WsTransport
detach t c = record t { players = Dict.delete t.players c.player_id }

abbrev pub attach_spectator : WsTransport → ℕ → WsTransport
attach_spectator t socket = record t {
  spectators = t.spectators ++ record { socket = socket; player_id = "" } ∷ [];
}

-- inboundCmd
pub record Command : Type 0 where
  pub player_id : String
  pub intent : Intent

pub record Room : Type 0 where
  pub session : Session
  pub inbox : List Command
  pub transport : WsTransport
  -- the connections whose read pump runs
  pub pumps : List Conn
  pub written : List Written

abbrev pub new_room : Session → Room
new_room s = record {
  session = s;
  inbox = [];
  transport = new_ws_transport;
  pumps = [];
  written = [];
}

pub data Event (Bytes : Type 0) : Type 0 where
  -- a request to ServeWS: whether its session is found, its X-Account-Id, and the upgraded socket
  connects : Bool → String → Option ℕ → Event Bytes
  watches : ℕ → Event Bytes
  -- what ReadMessage of a socket returns
  receives : ℕ → Bytes → Event Bytes
  fails : ℕ → Event Bytes
  -- Run takes a command, or its timer fires, or its context ends
  takes : Event Bytes
  times_out : Event Bytes
  cancels : Event Bytes

-- The done channel is closed.
abbrev pub is_done : Phase → Bool
is_done selecting = false
is_done ended_ = true
is_done stopped = true

-- Session.Submit
abbrev pub submit : String → Intent → Room → Room
submit id i m =
    if is_done m.session.phase || not (ltb (length m.inbox) 16)
    then m
    else record m { inbox = m.inbox ++ record { player_id = id; intent = i } ∷ [] }

abbrev pub attached : Room → Conn → Room
attached m c = record m { transport = attach m.transport c; pumps = c ∷ m.pumps }

abbrev upgraded : Room → String → Option ℕ → Room
upgraded m player_id none = m
upgraded m player_id (some socket) = attached m (record { socket = socket; player_id = player_id })

-- ServeWS; a request that is refused changes nothing
abbrev pub serve_ws : Room → Bool → String → Option ℕ → Room
serve_ws m found player_id socket =
    if not found || str_eq player_id "" then m else upgraded m player_id socket

abbrev pub pump_of : List Conn → ℕ → Option Conn
pump_of [] socket = none
pump_of (c ∷ cs) socket = if c.socket == socket then some c else pump_of cs socket

abbrev pub without : List Conn → ℕ → List Conn
without [] socket = []
without (c ∷ cs) socket =
    let rest = without cs socket in if c.socket == socket then rest else c ∷ rest

abbrev closed : Room → ℕ → Option Conn → Room
closed m socket none = m
closed m socket (some c) = record m {
  transport = detach m.transport c;
  pumps = without m.pumps socket;
}

-- The messages that Run sends, over the transport
abbrev deliver_one : WsTransport → Receiver → ServerMessage → List Written
deliver_one t (player id) m = send t id m
deliver_one t all_spectators m = spectate t m

abbrev pub deliver : WsTransport → List Sent → List Written
deliver t [] = []
deliver t (s ∷ ss) = deliver_one t s.receiver s.message ++ deliver t ss

module _ {fl : Float64} (env : Env fl) (session_id : String) where
  -- The answer to a resync; it leaves the turn 0
  abbrev pub resync_message : Session → StateSnapshot → ServerMessage
  resync_message s shown = record (message "state" session_id) {
    state = some shown;
    digest = digest s.battle;
  }

  abbrev pub resync : Room → Conn → Option Seat → Option Room
  resync m c none = some m
  resync m c (some side) = do
    shown ← snapshot m.session.battle side
    some (record m {
      written = m.written ++ record { conn = c; message = resync_message m.session shown } ∷ [];
    })

  -- The switch of readPump
  abbrev pub pumped : Room → Conn → Option ClientMessage → Option Room
  pumped m c none = some m
  pumped m c (some msg) =
      if str_eq msg.type_ "action"
      then some (submit c.player_id (to_intent msg) m)
      else if str_eq msg.type_ "resync"
      then resync m c (side_of m.session c.player_id)
      else some m

  abbrev pub read : Room → Option ClientMessage → Option Conn → Option Room
  read m msg none = some m
  read m msg (some c) = pumped m c msg

  -- One round of Run, with its messages delivered
  abbrev pub fed : Room → Input → Option Room
  fed m input = do
    l ← live_step env session_id input m.session
    some (record m { session = l.session; written = m.written ++ deliver m.transport l.outbox })

  abbrev pub taken : Room → List Command → Option Room
  taken m [] = some m
  taken m (c ∷ cs) = fed (record m { inbox = cs }) (submit_input c.player_id c.intent)

  module _ {Bytes : Type 0} (unmarshal : Bytes → Option ClientMessage) where
    unfoldable pub step : Event Bytes → Room → Option Room
    step (connects found id socket) m = some (serve_ws m found id socket)
    step (watches socket) m = some (record m { transport = attach_spectator m.transport socket })
    step (receives socket data_) m = read m (unmarshal data_) (pump_of m.pumps socket)
    step (fails socket) m = some (closed m socket (pump_of m.pumps socket))
    step takes m = if is_done m.session.phase then some m else taken m m.inbox
    step times_out m = fed m timeout
    step cancels m = fed m cancel

    unfoldable pub run : List (Event Bytes) → Room → Option Room
    unfolding step
    run [] m = some m
    run (e ∷ es) m = do m' ← step e m; run es m'
