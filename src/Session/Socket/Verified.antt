-- ===== src/Session/Socket/Verified.antt =====
-- A match of services/battle/internal/netcode whose players come by the sockets of ws.go.
use pokecatch.Prelude.{
  ◌≡◌, refl, subst, [], true, false, ℕ, String, Option, some, List, arith, str_eq, All,
}
use pokecatch.Prelude.Float.{Float64, ScalesNonneg}
use pokecatch.Prelude.Outcome.{ok}
use pokecatch.Prelude.Partial.{Returns}
use pokecatch.Creatures.Model.{Dex, Instance}
use pokecatch.Engine.Battle.Exchange.{Env}
use pokecatch.Engine.Battle.{Side, new_battle}
use pokecatch.Engine.Battle.Safety.{IsReady}
use pokecatch.Persistence.{verify, build_side}
use pokecatch.Persistence.Total.{IsEntered, build_side-ok}
use pokecatch.Session.{Input, begin_turn, start, run as run_session}
use pokecatch.Session.Verified.{record_of, start-IsRecorded, session_verifies}
use pokecatch.Session.Broadcast.{ClientMessage}
use pokecatch.Session.Socket.{new_room, Event, run}
use pokecatch.Session.Socket.Ids.{Connects, Submits}
use pokecatch.Session.Socket.Submitted.{run-IsFed}

-- Under the conditions of session_verifies, for two players with different ids and any predicate
-- of ids that holds of every id under which a request comes to ServeWS: whatever requests,
-- viewers, frames, read errors, timeouts and cancellation the room of the sockets meets, in
-- whatever order, it never panics; its session is that of Run on some inputs whose submissions
-- are all by ids with the predicate; and the record of the session passes Verify.
pub room_verifies :
    (P : String → Type 0) {fl : Float64} (env : Env fl) (dex : Dex fl.F)
    → ScalesNonneg fl
    → (match_id mode : String) (seed : ℕ) (player_a player_b : String)
      (team_a team_b : List Instance) (a b : Side) {Bytes : Type 0}
      (unmarshal : Bytes → Option ClientMessage) (events : List (Event Bytes))
    → IsEntered env dex team_a
    → IsEntered env dex team_b
    → build_side env dex "A" team_a ≡ ok a
    → build_side env dex "B" team_b ≡ ok b
    → str_eq player_a player_b ≡ false
    → All (Connects P) events
    → Returns
        (λ m.
          ((inputs : List Input) × All (Submits P) inputs
            × (run_session env inputs (start seed player_a player_b a b) ≡ some m.session))
          × (verify env dex (record_of match_id mode seed team_a team_b m.session)
              ≡ some (ok true)))
        (run env match_id unmarshal events (new_room (start seed player_a player_b a b)))
unfolding start new_battle begin_turn run_session
room_verifies P env dex law match_id mode seed player_a player_b team_a team_b a b unmarshal events
      ha hb ea eb apart ids =
    let (a', fa, ready_a) = build_side-ok env dex "A" team_a ha in
    let (b', fb, ready_b) = build_side-ok env dex "B" team_b hb in
    let same_a : a' ≡ a = ground (arith, ea, fa) in
    let same_b : b' ≡ b = ground (arith, eb, fb) in
    let s0 = start seed player_a player_b a b in
    let (m, e, h) =
      run-IsFed P env law dex match_id s0 (new_battle seed a b) unmarshal events (new_room s0) ids
        (record {
          inputs = [];
          of_ids = _;
          reached = refl;
          recorded =
              start-IsRecorded env dex law seed player_a player_b a b (subst IsReady same_a ready_a)
                (subst IsReady same_b ready_b);
          apart = apart;
          queued = _;
          pumping = _;
        }) in
    let (s, f, (good, _)) =
      session_verifies env dex law match_id mode seed player_a player_b team_a team_b a b h.inputs
        ha hb ea eb in
    let same : s ≡ m.session = ground (arith, f, h.reached) in
    (m, e, ((h.inputs, h.of_ids, h.reached), rw (← same) good))
