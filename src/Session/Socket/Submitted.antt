-- ===== src/Session/Socket/Submitted.antt =====
-- What the sockets of services/battle/internal/netcode/ws.go can make of a session: what its own
-- players submit, and nothing else.
use pokecatch.Prelude.{
  ◌≡◌, refl, subst, inl, inr, String, false, not, ◌||◌, Option, none, some, List, [], ◌∷◌, ◌++◌,
  length, ltb, arith, str_eq, Option-cases, All, All-append, if_holds,
}
use pokecatch.Prelude.Float.{Float64, ScalesNonneg}
use pokecatch.Prelude.Partial.{Returns}
use pokecatch.Creatures.Model.{Dex}
use pokecatch.Engine.Battle.Exchange.{Env, Seat}
use pokecatch.Engine.Battle.{Battle}
use pokecatch.Session.{
  Session, Intent, Input, timeout, submit as submit_input, cancel, run as run_session, side_of,
}
use pokecatch.Session.Recorded.{IsRecorded, step-Returns}
use pokecatch.Session.Broadcast.{ClientMessage, to_intent, spectators as all_spectators}
use pokecatch.Session.Live.Messages.{snapshot-some}
use pokecatch.Session.Live.Announced.{live_step-Returns}
use pokecatch.Session.Socket.Ids.{
  run-snoc, Connects, Submits, IsOfPump, IsOfQueue, pump_of-All, without-All,
}
use pokecatch.Session.Socket.{
  Conn, Command, Room, Event, connects, watches, receives, fails, takes, times_out, cancels, submit,
  resync_message, deliver, attach_spectator, detach, serve_ws, pump_of, without, resync, pumped,
  fed, taken, is_done, step, run,
}

module _ (P : String → Type 0) where
  module _ {fl : Float64} (env : Env fl) (law : ScalesNonneg fl) (dex : Dex fl.F)
      (session_id : String) (s0 : Session) (origin : Battle) where
    -- The room's session is reached from `s0` by inputs of ids with P, and all that waits is too.
    pub record IsFed (m : Room) : Type 0 where
      pub inputs : List Input
      pub of_ids : All (Submits P) inputs
      pub reached : run_session env inputs s0 ≡ some m.session
      pub recorded : IsRecorded env dex law origin m.session
      pub apart : str_eq m.session.player_a m.session.player_b ≡ false
      pub queued : All (IsOfQueue P) m.inbox
      pub pumping : All (IsOfPump P) m.pumps

    fed-Returns :
        (m : Room) (i : Input) → IsFed m → Submits P i → Returns IsFed (fed env session_id m i)
    unfolding run_session
    fed-Returns m i h p =
        let (l, e, (f, a)) =
          live_step-Returns env law session_id all_spectators dex origin i m.session
            (inr (inr refl)) h.apart h.recorded in
        let (s', g, k) = step-Returns env dex law origin i m.session h.recorded in
        let same : s' ≡ l.session = ground (arith, f, g) in
        let next : Room = record m {
          session = l.session;
          written = m.written ++ deliver m.transport l.outbox;
        } in
        (
          next,
          rw e refl,
          record {
            inputs = h.inputs ++ i ∷ [];
            of_ids = All-append (Submits P) h.inputs (i ∷ []) h.of_ids (p, _);
            reached = run-snoc env h.inputs i s0 m.session l.session h.reached f;
            recorded = subst (IsRecorded env dex law origin) same k;
            apart = rw (a.same_a, a.same_b) h.apart;
            queued = h.queued;
            pumping = h.pumping;
          },
        )

    -- Changes of the channel, the pumps, the transport and what was written
    beside :
        (m n : Room)
        → n.session ≡ m.session
        → IsFed m
        → All (IsOfQueue P) n.inbox
        → All (IsOfPump P) n.pumps
        → IsFed n
    beside m n same h q p = record {
      inputs = h.inputs;
      of_ids = h.of_ids;
      reached = rw same h.reached;
      recorded = rw same h.recorded;
      apart = rw same h.apart;
      queued = q;
      pumping = p;
    }

    submit-IsFed : (id : String) (i : Intent) (m : Room) → P id → IsFed m → IsFed (submit id i m)
    submit-IsFed id i m p h =
        if_holds IsFed (is_done m.session.phase || not (ltb (length m.inbox) 16)) (λ _. h)
          (λ _. beside m _ refl h (All-append (IsOfQueue P) m.inbox _ h.queued (p, _)) h.pumping)

    resync-Returns :
        (m : Room) (c : Conn) (seat : Option Seat)
        → IsFed m
        → Returns IsFed (resync env session_id m c seat)
    resync-Returns m c none h = (m, refl, h)
    resync-Returns m c (some side) h =
        let (shown, e) = snapshot-some m.session.battle side h.recorded.safe in
        (
          record m {
            written =
                m.written
                ++ record { conn = c; message = resync_message env session_id m.session shown }
                  ∷ [];
          },
          rw e refl,
          beside m _ refl h h.queued h.pumping,
        )

    pumped-Returns :
        (m : Room) (c : Conn) (msg : Option ClientMessage)
        → IsFed m
        → P c.player_id
        → Returns IsFed (pumped env session_id m c msg)
    pumped-Returns m c none h p = (m, refl, h)
    pumped-Returns m c (some msg) h p =
        if_holds (Returns IsFed) (str_eq msg.type_ "action")
          (λ _. (
            submit c.player_id (to_intent msg) m,
            refl,
            submit-IsFed c.player_id (to_intent msg) m p h,
          ))
          (λ _.
            if_holds (Returns IsFed) (str_eq msg.type_ "resync")
              (λ _. resync-Returns m c (side_of m.session c.player_id) h) (λ _. (m, refl, h)))

    step-IsFed :
        {Bytes : Type 0} (unmarshal : Bytes → Option ClientMessage) (e : Event Bytes) (m : Room)
        → Connects P e
        → IsFed m
        → Returns IsFed (step env session_id unmarshal e m)
    unfolding step
    step-IsFed unmarshal (connects found id none) m p h = (
      serve_ws m found id none,
      refl,
      if_holds IsFed (not found || str_eq id "") (λ _. h) (λ _. h),
    )
    step-IsFed unmarshal (connects found id (some socket)) m p h = (
      serve_ws m found id (some socket),
      refl,
      if_holds IsFed (not found || str_eq id "") (λ _. h)
          (λ _. beside m _ refl h h.queued (p, h.pumping)),
    )
    step-IsFed unmarshal (watches socket) m p h = (
      record m { transport = attach_spectator m.transport socket },
      refl,
      beside m _ refl h h.queued h.pumping,
    )
    step-IsFed unmarshal (receives socket data_) m p h =
        elim (Option-cases (pump_of m.pumps socket)) [
          | inl e ↦ (m, rw e refl, h)
          | inr (c, e) ↦
              let (n, f, k) =
                pumped-Returns m c (unmarshal data_) h
                  (pump_of-All P m.pumps socket c h.pumping e) in
              (n, rw e f, k)
        ]
    step-IsFed unmarshal (fails socket) m p h = elim (Option-cases (pump_of m.pumps socket)) [
      | inl e ↦ (m, rw e refl, h)
      | inr (c, e) ↦ (
        record m { transport = detach m.transport c; pumps = without m.pumps socket },
        rw e refl,
        beside m _ refl h h.queued (without-All P m.pumps socket h.pumping),
      )
    ]
    step-IsFed unmarshal takes m p h =
        if_holds (Returns IsFed) (is_done m.session.phase) (λ _. (m, refl, h))
          (λ _. from m.inbox h.queued)
      where
        from :
            (cs : List Command) → All (IsOfQueue P) cs → Returns IsFed (taken env session_id m cs)
        from [] q = (m, refl, h)
        from (c ∷ cs) q =
            let n : Room = record m { inbox = cs } in
            fed-Returns n (submit_input c.player_id c.intent) (beside m n refl h q.1 h.pumping) q.0
    step-IsFed unmarshal times_out m p h = fed-Returns m timeout h _
    step-IsFed unmarshal cancels m p h = fed-Returns m cancel h _

    pub run-IsFed :
        {Bytes : Type 0} (unmarshal : Bytes → Option ClientMessage) (es : List (Event Bytes))
        (m : Room)
        → All (Connects P) es
        → IsFed m
        → Returns IsFed (run env session_id unmarshal es m)
    unfolding run
    run-IsFed unmarshal [] m p h = (m, refl, h)
    run-IsFed unmarshal (e ∷ es) m p h =
        let (m', f, h') = step-IsFed unmarshal e m p.0 h in
        let (n, g, k) = run-IsFed unmarshal es m' p.1 h' in (n, rw f g, k)
