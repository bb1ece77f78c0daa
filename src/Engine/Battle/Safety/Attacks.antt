-- ===== src/Engine/Battle/Safety/Attacks.antt =====
-- The phases of a turn that attack or hurt: each returns, and keeps the battle safe.
use pokecatch.Prelude.{refl, inl, inr, ◌++◌, arith, Bool-cases}
use pokecatch.Prelude.Int.{ℤ}
use pokecatch.Prelude.Float.{Float64, ScalesNonneg}
use pokecatch.Prelude.Partial.{Returns}
use pokecatch.Engine.Battler.{fainted}
use pokecatch.Engine.Status.{end_of_turn_tick}
use pokecatch.Engine.Status.Laws.{end_of_turn_tick-IsSound}
use pokecatch.Engine.Battle.Exchange.{
  Seat, other, Duel, Env, MoveAction, ActionKind, act_move, act_switch, unknown, exchange,
}
use pokecatch.Engine.Battle.Exchange.Bounds.{exchange-BothSound}
use pokecatch.Engine.Battle.{
  Battle, side_of, with_side, put_active, check_victory, end_of_turn_side, tick_events,
  execute_move, act_by, act_phase, fight, residuals, action_of, write_back,
}
use pokecatch.Engine.Battle.Safety.{
  IsSafe, active_battler-Returns, put_active-IsReady, with_side-IsSafe, IsJudged, IsRunning,
}
use pokecatch.Engine.Battle.Safety.Phases.{
  check_victory-IsJudged, check_victory-IsSafe, write_back-IsSafe, SameVerdict,
  with_side-SameVerdict, write_back-SameVerdict, running, IsJudged-IsPlaying, still-IsRunning,
  settled, logged-IsSafe, IsPlaying,
}

module _ {fl : Float64} (env : Env fl) (law : ScalesNonneg fl) where
  execute_move-Returns :
      (seat : Seat) (slot : ℤ) (bt : Battle)
      → IsSafe bt
      → Returns (λ b. IsSafe b × SameVerdict bt b) (execute_move env seat slot bt)
  unfolding execute_move
  execute_move-Returns seat slot bt h =
      let (a, ea, sa) = active_battler-Returns (side_of bt seat) (h seat) in
      let (d, ed, sd) = active_battler-Returns (side_of bt (other seat)) (h (other seat)) in
      let x : Duel = record { rng = bt.rng; attacker = a; defender = d; log = bt.log } in
      let y = exchange env seat slot x in
      let k = exchange-BothSound env seat law slot x (record { attacker = sa; defender = sd }) in
      (
        write_back seat y bt,
        rw (ea, ed, execute_move),
        (write_back-IsSafe seat y bt h k, write_back-SameVerdict seat y bt),
      )

  act_by-Returns :
      (kind : ActionKind) (seat : Seat) (slot : ℤ) (bt : Battle)
      → IsSafe bt
      → IsRunning bt
      → Returns IsPlaying (act_by env kind seat slot bt)
  unfolding act_by
  act_by-Returns act_move seat slot bt h r =
      let (b, eb, sb) = active_battler-Returns (side_of bt seat) (h seat) in
      let (bt', e', (s', v')) = execute_move-Returns seat slot bt h in
      elim (Bool-cases (fainted b)) [
        | inl f ↦ (bt, rw (eb, act_by, f), record { safe = h; state = inl r })
        | inr f ↦ (
          check_victory bt',
          rw (eb, act_by, f, e'),
          IsJudged-IsPlaying _ (check_victory-IsSafe bt' s')
              (check_victory-IsJudged bt' (running bt bt' v' r)),
        )
      ]
  act_by-Returns act_switch seat slot bt h r = (bt, refl, record { safe = h; state = inl r })
  act_by-Returns unknown seat slot bt h r = (bt, refl, record { safe = h; state = inl r })

  pub fight-Returns :
      (lead : Seat) (act_a act_b : MoveAction) (bt : Battle)
      → IsSafe bt
      → IsRunning bt
      → Returns IsPlaying (fight env lead act_a act_b bt)
  unfolding fight act_phase
  fight-Returns lead act_a act_b bt h r =
      let act = action_of env act_a act_b in
      let (bt1, e1, p1) = act_by-Returns (act lead).kind lead (act lead).skill_slot bt h r in
      elim (Bool-cases bt1.over) [
        | inl o ↦ (bt1, rw (e1, fight) (ground (arith, o)), p1)
        | inr o ↦
            let r1 = still-IsRunning bt1 p1 o in
            let (bt2, e2, p2) =
              act_by-Returns (act (other lead)).kind (other lead) (act (other lead)).skill_slot bt1
                p1.safe r1 in
            (bt2, rw (e1, fight) (ground (arith, o, e2)), p2)
      ]

  end_of_turn_side-Returns :
      (seat : Seat) (bt : Battle)
      → IsSafe bt
      → Returns (λ b. IsSafe b × SameVerdict bt b) (end_of_turn_side seat bt)
  unfolding end_of_turn_side
  end_of_turn_side-Returns seat bt h =
      let (b, eb, sb) = active_battler-Returns (side_of bt seat) (h seat) in
      let s = put_active (side_of bt seat) (end_of_turn_tick b).1 in
      let bt1 = with_side bt seat s in
      let log = bt.log ++ tick_events seat (end_of_turn_tick b).0 (end_of_turn_tick b).1 in
      let safe =
        with_side-IsSafe bt seat s h
          (put_active-IsReady _ _ (h seat) (end_of_turn_tick-IsSound b sb)) in
      (
        record bt1 { log = log },
        rw (eb, end_of_turn_side),
        (logged-IsSafe bt1 log safe, with_side-SameVerdict bt seat s),
      )

  pub residuals-Returns :
      (lead : Seat) (bt : Battle)
      → IsPlaying bt
      → Returns (λ b. IsSafe b × IsJudged b) (residuals env lead bt)
  unfolding residuals
  residuals-Returns lead bt p = elim (Bool-cases bt.over) [
    | inl o ↦ (bt, ground (arith, o), (p.safe, settled bt p o))
    | inr o ↦
        let (bt1, e1, (s1, v1)) = end_of_turn_side-Returns lead bt p.safe in
        let (bt2, e2, (s2, v2)) = end_of_turn_side-Returns (other lead) bt1 s1 in
        let r2 = running bt1 bt2 v2 (running bt bt1 v1 (still-IsRunning bt p o)) in
        (
          check_victory bt2,
          ground (arith, o, e1, e2),
          (check_victory-IsSafe bt2 s2, check_victory-IsJudged bt2 r2),
        )
  ]
