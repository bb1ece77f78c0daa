-- ===== src/Demo/Tests.antt =====
-- A bot of services/battle/cmd/demo/main.go with a battler of the sample catalogue.
use pokecatch.Prelude.{ℕ, refl, Bool, [], ◌∷◌, inr, arith}
use pokecatch.Prelude.Int.{ℤ, pos, ltb_ℤ}
use pokecatch.Prelude.Float.{fixed_point}
use pokecatch.Prelude.Dict
use pokecatch.Prelude.Partial.{Returns}
use pokecatch.Creatures.Samples.{sprout, young_sprout, two_species}
use pokecatch.Engine.Battler.{Battler, new_battler}
use pokecatch.Engine.Battle.{Side}
use pokecatch.Demo.{usable_from, decide}
use pokecatch.Demo.Legal.{IsPlay, decide-IsPlay}

abbrev fighter : Battler
fighter = new_battler fixed_point sprout young_sprout

abbrev side : Side
side = record { player_id = "A"; party = fighter ∷ fighter ∷ []; active = 0 }

abbrev chance : ℤ → ℕ → Bool × ℕ
chance pct r = (ltb_ℤ (pos 10) pct, r)

decide-IsPlay_example :
    Returns
      (λ out. IsPlay fixed_point two_species side fighter out.0)
      (decide fixed_point chance 7 side side two_species)
unfolding usable_from new_battler Dict.get Dict.put Dict.empty
decide-IsPlay_example =
    decide-IsPlay fixed_point chance 7 side side two_species fighter fighter refl refl (omega arith)
      (inr (λ e. cc e))
