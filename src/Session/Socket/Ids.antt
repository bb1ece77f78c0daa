-- ===== src/Session/Socket/Ids.antt =====
-- The ids under which the sockets of services/battle/internal/netcode/ws.go attach, wait and submit.
use pokecatch.Prelude.{
  ℕ, ◌≡◌, refl, subst, inl, inr, String, some, List, [], ◌∷◌, ◌++◌, arith, Bool-cases, Option-cases,
  All, if_holds, ◌==◌,
}
use pokecatch.Prelude.Float.{Float64}
use pokecatch.Engine.Battle.Exchange.{Env}
use pokecatch.Session
use pokecatch.Session.{
  Session, Intent, Input, timeout, submit as submit_input, cancel, run as run_session,
}
use pokecatch.Session.Socket.{
  Conn, Command, Event, connects, watches, receives, fails, takes, times_out, cancels, pump_of,
  without,
}

pub run-snoc :
    {fl : Float64} (env : Env fl) (inputs : List Input) (i : Input) (s t u : Session)
    → run_session env inputs s ≡ some t
    → Session.step env i t ≡ some u
    → run_session env (inputs ++ i ∷ []) s ≡ some u
unfolding run_session
run-snoc env [] i s t u h k = let same : s ≡ t = ground (arith, h) in rw (same, k) refl
run-snoc env (j ∷ js) i s t u h k = elim (Option-cases (Session.step env j s)) [
  | inl e ↦ absurd (ground (arith, h, e))
  | inr (s', e) ↦
      let rest : run_session env js s' ≡ some t = ground (arith, h, e) in
      let further = run-snoc env js i s' t u rest k in rw e further
]

module _ (P : String → Type 0) where
  -- ServeWS attaches sockets under ids with P only.
  abbrev pub Connects : {Bytes : Type 0} → Event Bytes → Type 0
  Connects (connects found id socket) = P id
  Connects (watches socket) = Unit
  Connects (receives socket data_) = Unit
  Connects (fails socket) = Unit
  Connects takes = Unit
  Connects times_out = Unit
  Connects cancels = Unit

  -- The session is given intents of ids with P only.
  abbrev pub Submits : Input → Type 0
  Submits (submit_input id i) = P id
  Submits timeout = Unit
  Submits cancel = Unit

  abbrev pub IsOfPump : Conn → Type 0
  IsOfPump c = P c.player_id

  abbrev pub IsOfQueue : Command → Type 0
  IsOfQueue c = P c.player_id

  pub pump_of-All :
      (cs : List Conn) (socket : ℕ) (c : Conn)
      → All IsOfPump cs
      → pump_of cs socket ≡ some c
      → P c.player_id
  pump_of-All [] socket c h e = absurd (cc e)
  pump_of-All (x ∷ cs) socket c h e = elim (Bool-cases (x.socket == socket)) [
    | inl f ↦
        let same : x ≡ c = ground (arith, e, f) in subst (λ (c : Conn). P c.player_id) same h.0
    | inr f ↦ pump_of-All cs socket c h.1 (ground (arith, e, f))
  ]

  pub without-All :
      (cs : List Conn) (socket : ℕ) → All IsOfPump cs → All IsOfPump (without cs socket)
  without-All [] socket h = _
  without-All (c ∷ cs) socket h =
      let rest = without-All cs socket h.1 in
      if_holds (All IsOfPump) (c.socket == socket) (λ _. rest) (λ _. (h.0, rest))
