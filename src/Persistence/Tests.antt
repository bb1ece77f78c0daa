-- ===== src/Persistence/Tests.antt =====
-- A run of services/battle/internal/persistence.
use pokecatch.Prelude.{ℕ, ◌≡◌, refl, some, [], ◌∷◌, ◌&&◌, ◌==◌, arith}
use pokecatch.Prelude.Int.{ℤ, pos, eq_ℤ}
use pokecatch.Prelude.Float.{fixed_point, fixed_point-ScalesNonneg}
use pokecatch.Prelude.Outcome.{ok}
use pokecatch.Creatures.Samples.{sprout, young_sprout, two_species}
use pokecatch.Engine.Battle.Exchange.{Env, act_move, act_switch}
use pokecatch.Persistence.{
  TurnRecord, MatchRecord, Outcome, new_recorder, record_turn, replay, verify, finish,
}
use pokecatch.Persistence.Total.{IsEntered, verify_exact}

abbrev arena : Env fixed_point
arena = record { registry = some two_species.skills }

-- A move against a switch out of range.
abbrev clash : TurnRecord
clash = record {
  first_action = record { kind = act_move; skill_slot = pos 0; switch_to = pos 0 };
  second_action = record { kind = act_switch; skill_slot = pos 0; switch_to = pos 9 };
}

abbrev short_match : MatchRecord
short_match = record {
  match_id = "m1";
  mode = "ranked";
  seed = 42;
  team_a = young_sprout ∷ [];
  team_b = young_sprout ∷ young_sprout ∷ [];
  turns = clash ∷ clash ∷ [];
  winner = pos 0;
  final_digest = 0;
}

recorded :
    record_turn
      (record_turn (new_recorder "m1" "ranked" 42 short_match.team_a short_match.team_b) clash)
      clash
    ≡ short_match
unfolding record_turn new_recorder
recorded = refl

one-IsEntered : IsEntered arena two_species short_match.team_a
one-IsEntered = record { some_one = omega arith; fielded = ((sprout, refl, omega arith), tt) }

two-IsEntered : IsEntered arena two_species short_match.team_b
two-IsEntered = record {
  some_one = omega arith;
  fielded = ((sprout, refl, omega arith), ((sprout, refl, omega arith), tt));
}

verify_exact_example :
    (o : Outcome) × (replay arena two_species short_match ≡ some (ok o))
    × ((winner : ℤ) (final_digest : ℕ)
        → verify arena two_species (finish short_match winner final_digest)
          ≡ some (ok (eq_ℤ o.winner winner && o.final_digest == final_digest)))
verify_exact_example =
    verify_exact arena two_species fixed_point-ScalesNonneg short_match one-IsEntered two-IsEntered
