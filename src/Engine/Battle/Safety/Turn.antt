-- ===== src/Engine/Battle/Safety/Turn.antt =====
-- A whole turn of battle.go's ResolveTurn: the phases one after another.
use pokecatch.Prelude.{suc, ◌≡◌, refl, false, List, []}
use pokecatch.Prelude.Float.{Float64, ScalesNonneg}
use pokecatch.Prelude.Partial.{Returns}
use pokecatch.Prelude.Outcome.{Result, ok}
use pokecatch.Engine.Battle.Exchange.{first, second, Event, Env, MoveAction}
use pokecatch.Engine.Rng.{Rng}
use pokecatch.Engine.Battle.{Battle, TurnError, play_turn, resolve_turn, move_order}
use pokecatch.Engine.Battle.Safety.{IsSafe, active_battler-Returns, IsJudged, IsRunning}
use pokecatch.Engine.Battle.Safety.Attacks.{fight-Returns, residuals-Returns}
use pokecatch.Engine.Battle.Safety.Phases.{running, switch_phase-Returns, tick_active-Returns}

entered-IsSafe : (bt : Battle) → IsSafe bt → IsSafe (record bt { turn = suc bt.turn })
entered-IsSafe bt h first = h first
entered-IsSafe bt h second = h second

drained-IsSafe : (bt : Battle) → IsSafe bt → IsSafe (record bt { log = [] })
drained-IsSafe bt h first = h first
drained-IsSafe bt h second = h second

drawn-IsSafe : (bt : Battle) (r : Rng) → IsSafe bt → IsSafe (record bt { rng = r })
drawn-IsSafe bt r h first = h first
drawn-IsSafe bt r h second = h second

-- What a turn that was played leaves: its events as the answer and a battle whose log is empty,
-- which is safe and whose verdict is that of its sides.
pub record IsTurn (out : Result TurnError (List Event) × Battle) : Type 0 where
  pub answered : (events : List Event) × (out.0 ≡ ok events)
  pub safe : IsSafe out.1
  pub judged : IsJudged out.1
  pub drained : out.1.log ≡ []

module _ {fl : Float64} (env : Env fl) (law : ScalesNonneg fl) where
  play_turn-Returns :
      (act_a act_b : MoveAction) (bt : Battle)
      → IsSafe bt
      → IsRunning bt
      → Returns (λ b. IsSafe b × IsJudged b) (play_turn env act_a act_b bt)
  unfolding play_turn
  play_turn-Returns act_a act_b bt h r =
      let bt0 : Battle = record bt { turn = suc bt.turn } in
      let (bt1, e1, (s1, v1)) = switch_phase-Returns first act_a bt0 (entered-IsSafe bt h) in
      let (bt2, e2, (s2, v2)) = switch_phase-Returns second act_b bt1 s1 in
      let r2 =
        running bt1 bt2 v2 (running bt0 bt1 v1 (record { going = r.going; open_ = r.open_ })) in
      let (a, ea, _) = active_battler-Returns bt2.side_a (s2 first) in
      let (b, eb, _) = active_battler-Returns bt2.side_b (s2 second) in
      let lead = move_order env act_a act_b a b bt2.rng in
      let bt2' : Battle = record bt2 { rng = lead.1 } in
      let (bt3, e3, p3) =
        fight-Returns env law lead.0 act_a act_b bt2' (drawn-IsSafe bt2 lead.1 s2)
          (record { going = r2.going; open_ = r2.open_ }) in
      let (bt4, e4, (s4, j4)) = residuals-Returns env law lead.0 bt3 p3 in
      let (bt5, e5, (s5, j5)) = tick_active-Returns first bt4 s4 j4 in
      let (bt6, e6, k6) = tick_active-Returns second bt5 s5 j5 in
      (bt6, rw (e1, e2, ea, eb, play_turn) (rw (e3, e4, e5) e6), k6)

  -- If a non-negative int times a positive double truncates to a non-negative int, a turn on a
  -- battle that is not over and has no winner, whose active indices are in range and whose
  -- battlers have their hit points between 0 and the maximum and their boosts between -6 and 6,
  -- never panics on an index, whatever slots and switch indices the players send; it answers with
  -- its events, drains the log, keeps those bounds, and leaves the battle over, with the winner
  -- it names, exactly as the battlers that can still fight decide.
  pub resolve_turn_safe :
      (bt : Battle) (act_a act_b : MoveAction)
      → IsSafe bt
      → IsRunning bt
      → Returns IsTurn (resolve_turn env bt act_a act_b)
  unfolding resolve_turn
  resolve_turn_safe bt act_a act_b h r =
      let (bt', e, (s, j)) = play_turn-Returns act_a act_b bt h r in
      let going : bt.over ≡ false = r.going in
      (
        (ok bt'.log, record bt' { log = [] }),
        simp (going, e, resolve_turn),
        record {
          answered = (bt'.log, refl);
          safe = drained-IsSafe bt' s;
          judged = record { over = j.over; winner = j.winner };
          drained = refl;
        },
      )
