-- ===== src/Session/Recorded.antt =====
-- What a session of services/battle/internal/netcode records, and that it can be replayed.
use pokecatch.Prelude.{
  ◌≡◌, refl, ap, ◌∙◌, true, false, Option, none, some, List, [], ◌∷◌, ◌++◌, arith, Bool-cases,
  Option-cases, ◌⊎◌, inl, inr,
}
use pokecatch.Prelude.Float.{Float64, ScalesNonneg}
use pokecatch.Prelude.Outcome.{ok, Result-cases}
use pokecatch.Prelude.Partial.{Returns}
use pokecatch.Creatures.Model.{Dex}
use pokecatch.Engine.Battle.Exchange.{Env, Event}
use pokecatch.Engine.Battle.{Battle, resolve_turn}
use pokecatch.Engine.Battle.Safety.{IsSafe, IsRunning}
use pokecatch.Engine.Battle.Safety.Phases.{IsJudged-IsPlaying, still-IsRunning}
use pokecatch.Engine.Battle.Safety.Turn.{resolve_turn_safe}
use pokecatch.Engine.Battle.Digest.{digest}
use pokecatch.Persistence.{TurnRecord, replay_turns, after_turn}
use pokecatch.Session.{
  Session, Intent, Input, timeout, submit, cancel, Phase, selecting, ended_, stopped, begin_turn,
  if_ready, handle, handle_in, step, run, accept_intent, fill_defaults,
}

module _ {fl : Float64} (env : Env fl) (dex : Dex fl.F) where
  -- One more turn on a battle that is not over.
  replay_turns-snoc :
      (ts : List TurnRecord) (t : TurnRecord) (bt mid end : Battle) (events : List Event)
      → replay_turns env dex ts bt ≡ some (ok mid)
      → mid.over ≡ false
      → resolve_turn env mid t.first_action t.second_action ≡ some (ok events, end)
      → replay_turns env dex (ts ++ t ∷ []) bt ≡ some (ok end)
  unfolding replay_turns
  replay_turns-snoc [] t bt mid end events h o e =
      let same : bt ≡ mid = ground (arith, h) in rw same (ground (arith, o, e))
  replay_turns-snoc (x ∷ ts) t bt mid end events h o e = elim (Bool-cases bt.over) [
    | inl over ↦
        let same : bt ≡ mid = ground (arith, h, over) in
        absurd (cc (ap (λ (b : Battle). b.over) same, over, o))
    | inr open_ ↦ elim (Option-cases (resolve_turn env bt x.first_action x.second_action)) [
      | inl q ↦ absurd (ground (arith, h, open_, q))
      | inr (r, q) ↦ elim (Result-cases (after_turn env dex r)) [
        | inr (bad, p) ↦ absurd (ground (arith, h, open_, q, p))
        | inl (bt', p) ↦
            let rest =
              replay_turns-snoc ts t bt' mid end events (ground (arith, h, open_, q, p)) o e in
            ground (arith, open_, q, p, rest)
      ]
    ]
  ]

  module _ (law : ScalesNonneg fl) (origin : Battle) where
    -- The battle is safe, and is the replay of the turns that the session reported; while the
    -- session waits for intents it goes on and no end was reported; a reported end is its end.
    pub record IsRecorded (s : Session) : Type 0 where
      pub replayed : replay_turns env dex s.on_turn origin ≡ some (ok s.battle)
      pub safe : IsSafe s.battle
      pub going : s.phase ≡ selecting → IsRunning s.battle
      pub quiet : s.phase ≡ selecting → s.on_end ≡ none
      pub stamped :
          (s.on_end ≡ none)
          ⊎ ((s.battle.over ≡ true) × (s.on_end ≡ some (s.battle.winner, digest s.battle)))

    pub begin_turn-IsRecorded :
        (s : Session)
        → replay_turns env dex s.on_turn origin ≡ some (ok s.battle)
        → IsSafe s.battle
        → (s.battle.over ≡ false → IsRunning s.battle)
        → s.on_end ≡ none
        → IsRecorded (begin_turn s)
    unfolding begin_turn
    begin_turn-IsRecorded s h safe running n = elim (Bool-cases s.battle.over) [
      | inl o ↦
          simp (o, begin_turn)
            (record {
              replayed = h;
              safe = safe;
              going = λ p. absurd (cc p);
              quiet = λ p. absurd (cc p);
              stamped = inr (o, refl);
            })
      | inr o ↦
          simp (o, begin_turn)
            (record {
              replayed = h;
              safe = safe;
              going = λ p. running o;
              quiet = λ p. n;
              stamped = inl n;
            })
    ]

    if_ready-Returns :
        (a b : Option Intent) (s : Session)
        → s.phase ≡ selecting
        → IsRecorded s
        → Returns IsRecorded (if_ready env a b s)
    if_ready-Returns none b s p h = (s, refl, h)
    if_ready-Returns (some a) none s p h = (s, refl, h)
    if_ready-Returns (some a) (some b) s p h =
        let t : TurnRecord = record { first_action = a.action; second_action = b.action } in
        let (r, q, turn) =
          resolve_turn_safe env law s.battle a.action b.action h.safe (h.going p) in
        let (events, f) = turn.answered in
        let next : Session = record s { battle = r.1; on_turn = s.on_turn ++ t ∷ [] } in
        (
          begin_turn next,
          ground (arith, q, f),
          begin_turn-IsRecorded next
              (replay_turns-snoc s.on_turn t origin s.battle r.1 events h.replayed (h.going p).going
                (ground (arith, q, f)))
              turn.safe (still-IsRunning r.1 (IsJudged-IsPlaying r.1 turn.safe turn.judged))
              (h.quiet p),
        )

    -- Another session with the same battle, reports and phase.
    same-IsRecorded :
        (s t : Session)
        → t.battle ≡ s.battle
        → t.on_turn ≡ s.on_turn
        → t.on_end ≡ s.on_end
        → t.phase ≡ s.phase
        → IsRecorded s
        → IsRecorded t
    same-IsRecorded s t b n e p h = record {
      replayed = rw (b, n) h.replayed;
      safe = rw b h.safe;
      going = rw (b, p) h.going;
      quiet = rw (e, p) h.quiet;
      stamped = rw (b, e) h.stamped;
    }

    handle-Returns :
        (i : Input) (s : Session)
        → s.phase ≡ selecting
        → IsRecorded s
        → Returns IsRecorded (handle env i s)
    unfolding accept_intent fill_defaults
    handle-Returns timeout s p h =
        if_ready-Returns _ _ (fill_defaults s) p
          (same-IsRecorded s (fill_defaults s) refl refl refl refl h)
    handle-Returns (submit id i) s p h =
        let t = accept_intent id i s in
        let phase : t.phase ≡ s.phase = ground arith in
        if_ready-Returns _ _ t (phase ∙ p)
          (same-IsRecorded s t (ground arith) (ground arith) (ground arith) phase h)
    handle-Returns cancel s p h = (
      record s { phase = stopped },
      refl,
      record {
        replayed = h.replayed;
        safe = h.safe;
        going = λ p. absurd (cc p);
        quiet = λ p. absurd (cc p);
        stamped = h.stamped;
      },
    )

    handle_in-Returns :
        (p : Phase) (i : Input) (s : Session)
        → s.phase ≡ p
        → IsRecorded s
        → Returns IsRecorded (handle_in env p i s)
    handle_in-Returns selecting i s e h = handle-Returns i s e h
    handle_in-Returns ended_ i s e h = (s, refl, h)
    handle_in-Returns stopped i s e h = (s, refl, h)

    pub step-Returns : (i : Input) (s : Session) → IsRecorded s → Returns IsRecorded (step env i s)
    unfolding step
    step-Returns i s h = handle_in-Returns s.phase i s refl h

    pub run-Returns :
        (is_ : List Input) (s : Session) → IsRecorded s → Returns IsRecorded (run env is_ s)
    unfolding run
    run-Returns [] s h = (s, refl, h)
    run-Returns (i ∷ is_) s h =
        let (s', e, h') = step-Returns i s h in
        let (end, e', k) = run-Returns is_ s' h' in (end, rw e e', k)
