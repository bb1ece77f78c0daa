-- ===== src/Ai/Tests.antt =====
-- Choices of the AI of services/battle/internal/ai/ai.go for a threatened battler.
use pokecatch.Prelude.{ℕ, ◌≡◌, refl, Bool, true, false, List, [], ◌∷◌}
use pokecatch.Prelude.Int.{ℤ, pos, ltb_ℤ}
use pokecatch.Prelude.Float.{fixed_point, fixed_point-IsStrictOrder}
use pokecatch.Types.{grass, fire, water, healthy}
use pokecatch.Creatures.Samples.{tackle}
use pokecatch.Ai.{normal, boss, View, Scored, options, choose_action}
use pokecatch.Ai.Legal.{IsLegal, choose_action-IsLegal}
use pokecatch.Ai.Best.{IsBest, boss_plays-IsBest}

abbrev F : Type 0
F = fixed_point.F

abbrev view : ℕ → View F
view element = record {
  dex_id = pos 1;
  element1 = element;
  element2 = element;
  hp_frac = fixed_point.ratio 1 2;
  speed = pos 40;
  status = healthy;
  moves = tackle ∷ record tackle { power = pos 90 } ∷ [];
  fainted = false;
}

abbrev bench : List (View F)
bench = record (view grass) { fainted = true } ∷ view water ∷ []

-- A chance of more than ten percent comes true.
abbrev chance : ℤ → ℕ → Bool × ℕ
chance pct r = (ltb_ℤ (pos 10) pct, r)

choose_action-IsLegal_example :
    IsLegal fixed_point
      (view grass)
      bench
      (view fire)
      (choose_action fixed_point chance 7 normal (view grass) bench (view fire)).0
choose_action-IsLegal_example =
    choose_action-IsLegal fixed_point chance 7 normal (view grass) bench (view fire)

boss_plays-IsBest_example :
    (o : Scored F) × IsBest fixed_point (options fixed_point (view grass) bench (view fire)) o
    × ((choose_action fixed_point chance 7 boss (view grass) bench (view fire)).0 ≡ o.dec)
boss_plays-IsBest_example =
    boss_plays-IsBest fixed_point chance 7 (view grass) bench (view fire) fixed_point-IsStrictOrder
      refl (λ e. cc e)
