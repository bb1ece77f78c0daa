-- ===== src/Session/Socket/Tests.antt =====
-- Two players at the sockets of services/battle/internal/netcode/ws.go.
use pokecatch.Prelude.{
  ℕ, ◌≡◌, refl, ◌⊎◌, inl, inr, String, true, Option, none, some, List, [], ◌∷◌, All, ◌==◌,
  if◌then◌else◌,
}
use pokecatch.Prelude.Int.{pos}
use pokecatch.Prelude.Float.{fixed_point-ScalesNonneg}
use pokecatch.Prelude.Outcome.{ok}
use pokecatch.Prelude.Partial.{Returns, ◌>>=◌}
use pokecatch.Creatures.Samples.{two_species}
use pokecatch.Persistence.{verify}
use pokecatch.Session.{Session, Input, start, run as run_session}
use pokecatch.Session.Verified.{record_of}
use pokecatch.Session.Broadcast.{ClientMessage, ServerMessage, player}
use pokecatch.Session.Live.{live_start, live_run}
use pokecatch.Session.Live.Messages.{IsTold}
use pokecatch.Session.Live.Announced.{session_announces}
use pokecatch.Session.Socket.{
  Room, new_room, attached, Event, connects, watches, receives, fails, takes, times_out, pump_of,
  send, step, run,
}
use pokecatch.Session.Socket.Ids.{Submits}
use pokecatch.Session.Socket.Verified.{room_verifies}
use pokecatch.Session.Socket.Reconnect.{reconnect_lost}
use pokecatch.Session.Tests.{
  arena, team, side, other_side, inputs, team-IsEntered, side_built, other_side_built, side-IsReady,
}

abbrev move : ClientMessage
move = record { type_ = "action"; seq = 1; kind = "move"; slot = pos 0; switch_to = pos 0 }

-- Frames as numbers: 0 is malformed, 1 an action, all others ask for a resync.
abbrev unmarshal : ℕ → Option ClientMessage
unmarshal frame =
    if frame == 0
    then none
    else if frame == 1
    then some move
    else some (record move { type_ = "resync" })

abbrev match : Session
match = start 42 "ann" "bob" side other_side

abbrev events : List (Event ℕ)
events =
    connects true "ann" (some 1)
    ∷ connects true "bob" (some 2)
    ∷ watches 3
    ∷ receives 1 1
    ∷ receives 2 0
    ∷ receives 2 1
    ∷ takes
    ∷ takes
    ∷ receives 2 7
    ∷ fails 1
    ∷ times_out
    ∷ []

abbrev IsInvited : String → Type 0
IsInvited id = (id ≡ "ann") ⊎ (id ≡ "bob")

session_announces_example :
    Returns
      (λ l. (run_session arena inputs match ≡ some l.session) × IsTold (player "bob") l)
      (live_start arena "m1" 42 "ann" "bob" side other_side >>= live_run arena "m1" inputs)
session_announces_example =
    session_announces arena fixed_point-ScalesNonneg "m1" (player "bob") 42 "ann" "bob" side
      other_side inputs side-IsReady
      (record { in_range = side-IsReady.in_range; sound = side-IsReady.sound }) refl
      (inr (inl refl))

room_verifies_example :
    Returns
      (λ m.
        ((is_ : List Input) × All (Submits IsInvited) is_
          × (run_session arena is_ match ≡ some m.session))
        × (verify arena two_species (record_of "m1" "ranked" 42 team team m.session)
            ≡ some (ok true)))
      (run arena "m1" unmarshal events (new_room match))
room_verifies_example =
    room_verifies IsInvited arena two_species fixed_point-ScalesNonneg "m1" "ranked" 42 "ann" "bob"
      team team side other_side unmarshal events team-IsEntered team-IsEntered side_built
      other_side_built refl (inl refl, (inr refl, _))

abbrev room : Room
room = attached (new_room match) (record { socket = 1; player_id = "ann" })

reconnect_lost_example :
    Returns
      (λ n.
        ((msg : ServerMessage)
          → send n.transport "ann" msg
            ≡ record { conn = record { socket = 9; player_id = "ann" }; message = msg } ∷ [])
        × Returns
            (λ n'.
              (pump_of n'.pumps 9 ≡ some (record { socket = 9; player_id = "ann" }))
              × ((msg : ServerMessage) → send n'.transport "ann" msg ≡ []))
            (step arena "m1" unmarshal (fails 1) n))
      (step arena "m1" unmarshal (connects true "ann" (some 9)) room)
reconnect_lost_example = reconnect_lost arena "m1" unmarshal room "ann" 1 9 refl refl refl
