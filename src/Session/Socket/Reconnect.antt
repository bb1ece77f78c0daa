-- ===== src/Session/Socket/Reconnect.antt =====
-- What a player of services/battle/internal/netcode/ws.go hears after a reconnect.
use pokecatch.Prelude.{
  ℕ, ◌≡◌, refl, String, true, false, Option, some, [], ◌∷◌, arith, str_eq, str_eq_refl, ◌==◌,
}
use pokecatch.Prelude.Float.{Float64}
use pokecatch.Prelude.Dict.{get-put_self, get-delete}
use pokecatch.Prelude.Partial.{Returns}
use pokecatch.Engine.Battle.Exchange.{Env}
use pokecatch.Session.Broadcast.{ClientMessage, ServerMessage}
use pokecatch.Session.Socket.{
  Conn, Room, attached, without, connects, fails, pump_of, send, attach, detach, step,
}

eq_refl : (n : ℕ) → (n == n) ≡ true
eq_refl n = ground arith

-- If a read pump of a player runs and the player connects again with another socket, all messages
-- for the player go to the new socket; but when the old socket then fails, they go nowhere,
-- although the pump of the new socket still runs.
pub reconnect_lost :
    {fl : Float64} (env : Env fl) (session_id : String) {Bytes : Type 0}
    (unmarshal : Bytes → Option ClientMessage) (m : Room) (player_id : String) (old fresh : ℕ)
    → str_eq player_id "" ≡ false
    → pump_of m.pumps old ≡ some (record { socket = old; player_id = player_id })
    → (fresh == old) ≡ false
    → Returns
        (λ n.
          ((msg : ServerMessage)
            → send n.transport player_id msg
              ≡ record { conn = record { socket = fresh; player_id = player_id }; message = msg }
                ∷ [])
          × Returns
              (λ n'.
                (pump_of n'.pumps fresh ≡ some (record { socket = fresh; player_id = player_id }))
                × ((msg : ServerMessage) → send n'.transport player_id msg ≡ []))
              (step env session_id unmarshal (fails old) n))
        (step env session_id unmarshal (connects true player_id (some fresh)) m)
unfolding step send attach detach
reconnect_lost env session_id unmarshal m player_id old fresh named running apart =
    let c : Conn = record { socket = fresh; player_id = player_id } in
    let was : Conn = record { socket = old; player_id = player_id } in
    let n = attached m c in
    let n' : Room = record n { transport = detach n.transport was; pumps = without n.pumps old } in
    let later : pump_of n.pumps old ≡ some was = rw apart running in
    (
      n,
      rw named refl,
      (
        λ msg. rw (get-put_self m.transport.players player_id c) refl,
        (
          n',
          rw later refl,
          (
            rw (apart, eq_refl fresh) refl,
            λ msg.
                rw (get-delete n.transport.players player_id player_id, str_eq_refl player_id) refl,
          ),
        ),
      ),
    )
