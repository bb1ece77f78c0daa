-- ===== src/Session/Live/Announced.antt =====
-- What the session of services/battle/internal/netcode announces: each turn that it records, and its
-- end, to both players and to the spectators.
use pokecatch.Prelude.{
  ℕ, ◌≡◌, refl, ap, ◌∙◌, subst, ◌⊎◌, String, false, Option, none, some, List, [], ◌∷◌, ◌++◌, length,
  length-append, arith, str_eq,
}
use pokecatch.Prelude.Float.{Float64, ScalesNonneg}
use pokecatch.Prelude.Partial.{◌>>=◌, Returns}
use pokecatch.Creatures.Model.{Dex}
use pokecatch.Engine.Battle.Exchange.{Env, Seat, first, second}
use pokecatch.Engine.Battle.{Side, Battle, new_battle}
use pokecatch.Engine.Battle.Safety.{IsSafe, IsReady, IsRunning}
use pokecatch.Engine.Battle.Safety.Turn.{resolve_turn_safe}
use pokecatch.Persistence.{TurnRecord}
use pokecatch.Session
use pokecatch.Session.{
  side_of, put_intent, Session, Intent, Phase, selecting, ended_, stopped, Input, timeout, submit,
  cancel, accept_intent, fill_defaults, begin_turn, if_ready, handle_in, step, run, start,
}
use pokecatch.Session.Recorded.{IsRecorded, step-Returns}
use pokecatch.Session.Broadcast.{Receiver, player, spectators}
use pokecatch.Session.Verified.{start-IsRecorded}
use pokecatch.Creatures.Load.{empty_dex}
use pokecatch.Session.Live.Messages.{
  IsTold, IsAudience, IsAnnounced, ends, sent_count-append, turn_once, start_none, top_reports,
  silent-IsAnnounced, begin_turn-keeps,
}
use pokecatch.Session.Live.{
  Live, top_messages, with_turn, live_if_ready, live_handle_in, live_step, live_start, live_run,
}

module _ {fl : Float64} (env : Env fl) (law : ScalesNonneg fl) (session_id : String)
    (to : Receiver) where
  ready-Returns :
      (a b : Option Intent) (s : Session)
      → IsAudience to s
      → str_eq s.player_a s.player_b ≡ false
      → IsSafe s.battle
      → IsRunning s.battle
      → s.on_end ≡ none
      → Returns
          (λ l. (if_ready env a b s ≡ some l.session) × IsAnnounced s to l)
          (live_if_ready env session_id a b s)
  ready-Returns none b s at apart safe running quiet = (
    record { session = s; outbox = [] },
    refl,
    (refl, silent-IsAnnounced s to s refl refl refl refl),
  )
  ready-Returns (some a) none s at apart safe running quiet = (
    record { session = s; outbox = [] },
    refl,
    (refl, silent-IsAnnounced s to s refl refl refl refl),
  )
  ready-Returns (some a) (some b) s at apart safe running quiet =
      let t : TurnRecord = record { first_action = a.action; second_action = b.action } in
      let (r, q, turn) = resolve_turn_safe env law s.battle a.action b.action safe running in
      let (events, f) = turn.answered in
      let next = with_turn env session_id t s r.1 in
      let (sent, e, (one, none_)) = turn_once session_id next to at apart events turn.safe in
      let (no_turn, end) = top_reports env session_id next to at apart quiet in
      let (kept, same_a, same_b) = begin_turn-keeps next in
      (
        record { session = begin_turn next; outbox = sent ++ top_messages env session_id next },
        ground (arith, q, f, e),
        (
          ground (arith, q, f),
          record {
            turns = omega (
              arith,
              sent_count-append to "turn" sent (top_messages env session_id next),
              one,
              no_turn,
              length-append s.on_turn (t ∷ []),
              ap length kept,
            );
            end = omega (
              arith,
              sent_count-append to "end" sent (top_messages env session_id next),
              none_,
              end,
              ap ends quiet,
            );
            same_a = same_a;
            same_b = same_b;
          },
        ),
      )

  module _ (dex : Dex fl.F) (origin : Battle) where
    -- The same from a session that differs in its pending intents only.
    pending-Returns :
        (s t : Session)
        → IsAudience to s
        → str_eq s.player_a s.player_b ≡ false
        → IsRecorded env dex law origin s
        → s.phase ≡ selecting
        → t ≡ record s { pending_a = t.pending_a; pending_b = t.pending_b }
        → Returns
            (λ l. (if_ready env t.pending_a t.pending_b t ≡ some l.session) × IsAnnounced s to l)
            (live_if_ready env session_id t.pending_a t.pending_b t)
    pending-Returns s t at apart h p same =
        let u : Session = record s { pending_a = t.pending_a; pending_b = t.pending_b } in
        let (l, e, (f, a)) =
          ready-Returns u.pending_a u.pending_b u at apart h.safe (h.going p) (h.quiet p) in
        (
          l,
          ap (live_if_ready env session_id t.pending_a t.pending_b) same ∙ e,
          (
            ap (if_ready env t.pending_a t.pending_b) same ∙ f,
            record { turns = a.turns; end = a.end; same_a = a.same_a; same_b = a.same_b },
          ),
        )

    silent-Returns :
        (s t : Session)
        → t ≡ record s { phase = t.phase }
        → (some t ≡ some t) × IsAnnounced s to (record { session = t; outbox = [] })
    silent-Returns s t same = (
      refl,
      silent-IsAnnounced s to t (ap (λ (u : Session). u.on_turn) same)
          (ap (λ (u : Session). u.on_end) same) (ap (λ (u : Session). u.player_a) same)
          (ap (λ (u : Session). u.player_b) same),
    )

    -- A step of the session with its messages is a step of Session.step that announces itself.
    handle_in-Returns :
        (p : Phase) (i : Input) (s : Session)
        → s.phase ≡ p
        → IsAudience to s
        → str_eq s.player_a s.player_b ≡ false
        → IsRecorded env dex law origin s
        → Returns
            (λ l. (handle_in env p i s ≡ some l.session) × IsAnnounced s to l)
            (live_handle_in env session_id p i s)
    unfolding accept_intent fill_defaults
    handle_in-Returns selecting timeout s p at apart h =
        pending-Returns s (fill_defaults s) at apart h p refl
    handle_in-Returns selecting (submit id i) s p at apart h =
        pending-Returns s (accept_intent id i s) at apart h p (put-same (side_of s id))
      where
        put-same :
            (seat : Option Seat)
            → put_intent seat i s ≡ record s {
              pending_a = (put_intent seat i s).pending_a;
              pending_b = (put_intent seat i s).pending_b;
            }
        put-same none = refl
        put-same (some first) = refl
        put-same (some second) = refl
    handle_in-Returns selecting cancel s p at apart h =
        let t : Session = record s { phase = stopped } in
        (record { session = t; outbox = [] }, refl, silent-Returns s t refl)
    handle_in-Returns ended_ i s p at apart h =
        (record { session = s; outbox = [] }, refl, silent-Returns s s refl)
    handle_in-Returns stopped i s p at apart h =
        (record { session = s; outbox = [] }, refl, silent-Returns s s refl)

    pub live_step-Returns :
        (i : Input) (s : Session)
        → IsAudience to s
        → str_eq s.player_a s.player_b ≡ false
        → IsRecorded env dex law origin s
        → Returns
            (λ l. (Session.step env i s ≡ some l.session) × IsAnnounced s to l)
            (live_step env session_id i s)
    unfolding Session.step live_step
    live_step-Returns i s at apart h = handle_in-Returns s.phase i s refl at apart h

    live_run-Returns :
        (is_ : List Input) (l : Live)
        → IsAudience to l.session
        → str_eq l.session.player_a l.session.player_b ≡ false
        → IsRecorded env dex law origin l.session
        → IsTold to l
        → Returns
            (λ l'. (Session.run env is_ l.session ≡ some l'.session) × IsTold to l')
            (live_run env session_id is_ l)
    unfolding Session.run live_run
    live_run-Returns [] l at apart h told = (l, refl, (refl, told))
    live_run-Returns (i ∷ is_) l at apart h told =
        let (next, e, (f, a)) = live_step-Returns i l.session at apart h in
        let (s', g, h') = step-Returns env dex law origin i l.session h in
        let same : s' ≡ next.session = ground (arith, f, g) in
        let l1 : Live = record next { outbox = l.outbox ++ next.outbox } in
        let (l', e', (f', told')) =
          live_run-Returns is_ l1 (rw (a.same_a, a.same_b) at) (rw (a.same_a, a.same_b) apart)
            (subst (IsRecorded env dex law origin) same h')
            (record {
              turns =
                  omega
                    (arith, sent_count-append to "turn" l.outbox next.outbox, a.turns, told.turns);
              end = omega (arith, sent_count-append to "end" l.outbox next.outbox, a.end, told.end);
            }) in
        (l', rw e e', (rw f f', told'))

  -- If a non-negative int times a positive double truncates to a non-negative int, then Run with
  -- its broadcasts, started on two ready sides (the active index in range, and every battler's
  -- hit points and boosts within their bounds) of two players with different ids, never panics,
  -- whatever inputs it takes; its session is that of Run without them; and each of the two
  -- players and the spectators is sent exactly one turn message for each turn that was recorded,
  -- and one end message if an end is reported and none otherwise.
  pub session_announces :
      (seed : ℕ) (player_a player_b : String) (a b : Side) (inputs : List Input)
      → IsReady a
      → IsReady b
      → str_eq player_a player_b ≡ false
      → (to ≡ player player_a) ⊎ (to ≡ player player_b) ⊎ (to ≡ spectators)
      → Returns
          (λ l.
            (Session.run env inputs (start seed player_a player_b a b) ≡ some l.session)
            × IsTold to l)
          (live_start env session_id seed player_a player_b a b >>= live_run env session_id inputs)
  unfolding start live_start new_battle begin_turn
  session_announces seed player_a player_b a b inputs ready_a ready_b apart at =
      let h = start-IsRecorded env empty_dex law seed player_a player_b a b ready_a ready_b in
      let s = start seed player_a player_b a b in
      let (sent, e, (no_turn, no_end)) = start_none session_id s to at apart h.safe in
      let l0 : Live = record { session = s; outbox = sent ++ [] } in
      let (l, f, told) =
        live_run-Returns empty_dex (new_battle seed a b) inputs l0 at apart h (record {
          turns = omega (arith, sent_count-append to "turn" sent [], no_turn);
          end = omega (arith, sent_count-append to "end" sent [], no_end);
        }) in
      (l, rw e f, told)
