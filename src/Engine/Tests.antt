-- ===== src/Engine/Tests.antt =====
-- Runs of services/battle/internal/engine.
use pokecatch.Prelude.{◌≤◌, ◌≡◌, ◌⊎◌, refl, true, false, some, [], ◌∷◌, arith}
use pokecatch.Prelude.Int.{pos, negsuc, ◌≤ℤ◌}
use pokecatch.Prelude.Float.{fixed_point, fixed_point-ScalesNonneg}
use pokecatch.Prelude.Partial.{Returns}
use pokecatch.Creatures.Samples.{sprout, young_sprout, tackle, two_species}
use pokecatch.Engine.Rng.{draw, int_n, chance}
use pokecatch.Engine.Battler.{Battler, new_battler}
use pokecatch.Engine.Battler.Bounds.{IsGrown, new_battler_fit}
use pokecatch.Engine.Damage.{compute_damage}
use pokecatch.Engine.Damage.Laws.{deals_damage, matchup, whiffs, compute_damage_cases}
use pokecatch.Engine.Battle.Exchange.{first, second, Duel, Env, MoveAction, act_move, act_switch}
use pokecatch.Engine.Battle.Exchange.Bounds.{BothSound}
use pokecatch.Engine.Battle.{Battle, Side, new_battle, resolve_turn}
use pokecatch.Engine.Battle.Safety.{IsSafe, IsReady}
use pokecatch.Engine.Battle.Safety.Turn.{IsTurn, resolve_turn_safe}

-- The state 0 draws 0xE220A8397B1DCDAF, as SplitMix64 does from the seed 0.
first_draw : int_n (pos 18446744073709551615) 0 ≡ some (0xE220A8397B1DCDAF, 0x9E3779B97F4A7C15)
unfolding int_n draw
first_draw = refl

thirty_strikes : (chance (pos 60) 0).0 ≡ true
unfolding chance
thirty_strikes = refl

grown : IsGrown sprout young_sprout
grown = omega arith

abbrev pub fighter : Battler
fighter = new_battler fixed_point sprout young_sprout

compute_damage_cases_example :
    let res = (compute_damage fixed_point 42 fighter fighter tackle).0 in
    ((deals_damage fixed_point 42 fighter fighter tackle ≡ false)
      × ((compute_damage fixed_point 42 fighter fighter tackle).1 ≡ 42)
      × (res.damage ≡ pos 0)
      × (res.missed ≡ false))
    ⊎ ((deals_damage fixed_point 42 fighter fighter tackle ≡ true)
        × (((whiffs fixed_point 42 fighter fighter tackle ≡ true)
              × (res.missed ≡ true)
              × (res.damage ≡ pos 0))
            ⊎ ((whiffs fixed_point 42 fighter fighter tackle ≡ false)
                × (res.missed ≡ false)
                × (res.effectiveness ≡ matchup fixed_point 42 fighter fighter tackle)
                × (((matchup fixed_point 42 fighter fighter tackle ≡ 0) × (res.damage ≡ pos 0))
                    ⊎ ((1 ≤ matchup fixed_point 42 fighter fighter tackle)
                        × (pos 1 ≤ℤ res.damage))))))
compute_damage_cases_example = compute_damage_cases fixed_point 42 fighter fighter tackle

abbrev arena : Env fixed_point
arena = record { registry = some two_species.skills }

abbrev tackle_first : MoveAction
tackle_first = record { kind = act_move; skill_slot = pos 0; switch_to = pos 0 }

-- A switch out of range.
abbrev switch_far : MoveAction
switch_far = record { kind = act_switch; skill_slot = pos 0; switch_to = pos 9 }

abbrev duel : Duel
duel = record { rng = 42; attacker = fighter; defender = fighter; log = [] }

fighters_sound : BothSound duel
fighters_sound = record {
  attacker = (new_battler_fit fixed_point sprout young_sprout grown).0;
  defender = (new_battler_fit fixed_point sprout young_sprout grown).0;
}

abbrev pub team : Side
team = record { player_id = "ann"; party = fighter ∷ fighter ∷ []; active = 0 }

abbrev pub arena_battle : Battle
arena_battle = record {
  rng = 42;
  side_a = team;
  side_b = team;
  turn = 0;
  over = false;
  winner = negsuc 0;
  log = [];
}

team-IsReady : IsReady team
team-IsReady = record {
  in_range = omega arith;
  sound = (fighters_sound.attacker, (fighters_sound.attacker, tt));
}

pub arena-IsSafe : IsSafe arena_battle
arena-IsSafe first = team-IsReady
arena-IsSafe second = team-IsReady

starts_as_arena : new_battle 42 team team ≡ arena_battle
unfolding new_battle
starts_as_arena = refl

resolve_turn_safe_example : Returns IsTurn (resolve_turn arena arena_battle tackle_first switch_far)
resolve_turn_safe_example =
    resolve_turn_safe arena fixed_point-ScalesNonneg arena_battle tackle_first switch_far
      arena-IsSafe (record { going = refl; open_ = refl })
