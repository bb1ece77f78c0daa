-- ===== src/Session/Live.antt =====
-- services/battle/internal/netcode/session.go and broadcast.go together: the session of Run with what
-- it sends. A snapshot that panics stops the run.
pub mod Messages
pub mod Announced
use pokecatch.Prelude.{ℕ, String, Option, none, some, List, [], ◌∷◌, ◌++◌, if◌then◌else◌}
use pokecatch.Prelude.Float.{Float64}
use pokecatch.Prelude.Outcome.{Result, ok, err}
use pokecatch.Prelude.Partial.{◌>>=◌}
use pokecatch.Engine.Battle.Exchange.{Env, Event}
use pokecatch.Engine.Battle.{Side, Battle, TurnError, new_battle, resolve_turn}
use pokecatch.Persistence.{TurnRecord}
use pokecatch.Session.{
  Phase, selecting, ended_, stopped, Session, Intent, Input, timeout, submit, cancel, accept_intent,
  fill_defaults, begin_turn, resolved, start,
}
use pokecatch.Session.Broadcast.{Sent, broadcast_turn, broadcast_state, broadcast_end}

-- A session, and the messages that the last call sent.
pub record Live : Type 0 where
  pub session : Session
  pub outbox : List Sent

module _ {fl : Float64} (env : Env fl) (session_id : String) where
  -- The messages of the top of the loop
  abbrev pub top_messages : Session → List Sent
  top_messages s = if s.battle.over then broadcast_end session_id s else []

  abbrev pub with_turn : TurnRecord → Session → Battle → Session
  with_turn t s bt = record s { battle = bt; on_turn = s.on_turn ++ t ∷ [] }

  abbrev pub announced : TurnRecord → Session → Result TurnError (List Event) × Battle → Option Live
  announced t s (err e, bt) = some (record { session = resolved env t s (err e, bt); outbox = [] })
  announced t s (ok events, bt) = do
    sent ← broadcast_turn session_id (with_turn t s bt) events
    some (record {
      session = resolved env t s (ok events, bt);
      outbox = sent ++ top_messages (with_turn t s bt);
    })

  abbrev pub live_if_ready : Option Intent → Option Intent → Session → Option Live
  live_if_ready none b s = some (record { session = s; outbox = [] })
  live_if_ready (some a) none s = some (record { session = s; outbox = [] })
  live_if_ready (some a) (some b) s = do
    r ← resolve_turn env s.battle a.action b.action
    announced (record { first_action = a.action; second_action = b.action }) s r

  abbrev pub live_handle : Input → Session → Option Live
  live_handle timeout s = let t = fill_defaults s in live_if_ready t.pending_a t.pending_b t
  live_handle (submit id i) s =
      let t = accept_intent id i s in live_if_ready t.pending_a t.pending_b t
  live_handle cancel s = some (record { session = record s { phase = stopped }; outbox = [] })

  abbrev pub live_handle_in : Phase → Input → Session → Option Live
  live_handle_in selecting input s = live_handle input s
  live_handle_in ended_ input s = some (record { session = s; outbox = [] })
  live_handle_in stopped input s = some (record { session = s; outbox = [] })

  unfoldable pub live_step : Input → Session → Option Live
  live_step input s = live_handle_in s.phase input s

  -- NewSession and the start of Run
  pub live_start : ℕ → String → String → Side → Side → Option Live
  unfolding start
  live_start seed player_a player_b a b =
      let s = start seed player_a player_b a b in
      do
        sent ← broadcast_state session_id s "match_start"
        some (record { session = s; outbox = sent ++ top_messages s })

  pub live_run : List Input → Live → Option Live
  unfolding live_step
  live_run [] l = some l
  live_run (i ∷ is_) l = do
    next ← live_step i l.session
    live_run is_ (record next { outbox = l.outbox ++ next.outbox })
