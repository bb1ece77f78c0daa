-- ===== src/Engine/Rng/Laws.antt =====
-- What the draws of services/battle/internal/engine/rng.go promise.
use native.Mathlib.Nat.{mod-lt}
use pokecatch.Prelude.{ℕ, zero, ◌<◌, ◌≡◌, true, arith}
use pokecatch.Prelude.Int.{ℤ, pos, negsuc, ◌≤ℤ◌, ◌<ℤ◌}
use pokecatch.Prelude.Partial.{Returns}
use pokecatch.Engine.Rng.{Rng, draw, int_n, chance, next}

draw_below : (n : ℕ) (r : Rng) → zero < n → (draw n r).0 < n
unfolding draw
draw_below n r h = mod-lt (next r).0 h

-- IntN with a positive bound does not panic, and returns a number below the bound.
pub int_n_below : (n : ℤ) (r : Rng) → pos 0 <ℤ n → Returns (λ x. pos x.0 <ℤ n) (int_n n r)
unfolding int_n
int_n_below (pos n) r h = (draw n r, ground arith, omega (arith, draw_below n r (omega arith)))
int_n_below (negsuc n) r h = absurd (omega arith)

-- On the same state of the generator, an event of a chance in percent happens whenever one of a
-- smaller chance would.
pub chance_mono : (p q : ℤ) (r : Rng) → p ≤ℤ q → (chance p r).0 ≡ true → (chance q r).0 ≡ true
unfolding chance
chance_mono p q r h c = ground (arith, draw_below 100 r)
