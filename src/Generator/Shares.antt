-- ===== src/Generator/Shares.antt =====
-- How tools/creaturegen/main.go shares a budget out among the base stats.
use pokecatch.Prelude.{ℕ, ◌+◌, ◌*◌, ◌/◌, ◌≤◌, ◌<◌, ◌≡◌, refl, arith, All}
use pokecatch.Prelude.Int.{pos, ◌+ℤ◌, ◌-ℤ◌, ◌*ℤ◌, quot, ◌≤ℤ◌, ◌<ℤ◌}
use pokecatch.Types.{Stats, base_stat_total}
use pokecatch.Generator.{weigh, Archetype, archetypes, scale, distribute}

-- The total of the base stats is within the budget, and short of it by less than six.
abbrev pub IsWithin : ℕ → Stats → Type 0
IsWithin budget s = (base_stat_total s ≤ℤ pos budget) × (pos budget <ℤ base_stat_total s +ℤ pos 6)

abbrev pub Spreads : Archetype → Type 0
Spreads arch = (c : ℕ) → IsWithin (60 + c) (distribute (pos (60 + c)) arch.weights)

over_60 : (c : ℕ) → pos (60 + c) -ℤ pos 60 ≡ pos c
unfolding ◌-ℤ◌
over_60 c = ground arith

add_pos : (a b : ℕ) → pos a +ℤ pos b ≡ pos (a + b)
unfolding ◌+ℤ◌
add_pos a b = ground arith

mul_pos : (a b : ℕ) → pos a *ℤ pos b ≡ pos (a * b)
unfolding ◌*ℤ◌
mul_pos a b = ground arith

scale_pos : (t x c : ℕ) → scale (pos t) (pos (60 + c)) (pos x) ≡ pos (10 + x * c / t)
unfolding scale quot
scale_pos t x c = rw (over_60 c, mul_pos x c) (add_pos 10 (x * c / t))

total_pos : (a b c d e f : ℕ) → base_stat_total (weigh a b c d e f) ≡ pos (a + b + c + d + e + f)
unfolding base_stat_total
total_pos a b c d e f =
    rw
      (
        add_pos a b,
        add_pos (a + b) c,
        add_pos (a + b + c) d,
        add_pos (a + b + c + d) e,
        add_pos (a + b + c + d + e) f,
      )
      refl

-- Six shares of `c`, each with 10 on top
abbrev shares : ℕ → ℕ → ℕ → ℕ → ℕ → ℕ → ℕ → ℕ → ℕ
shares t a b d e f g c =
    (10 + a * c / t)
    + (10 + b * c / t)
    + (10 + d * c / t)
    + (10 + e * c / t)
    + (10 + f * c / t)
    + (10 + g * c / t)

distribute_total :
    (a b d e f g c : ℕ)
    → base_stat_total (distribute (pos (60 + c)) (weigh a b d e f g))
      ≡ pos (shares (a + b + d + e + f + g) a b d e f g c)
unfolding distribute
distribute_total a b d e f g c =
    let t = a + b + d + e + f + g in
    rw
      (
        total_pos a b d e f g,
        scale_pos t a c,
        scale_pos t b c,
        scale_pos t d c,
        scale_pos t e c,
        scale_pos t f c,
        scale_pos t g c,
      )
      (total_pos (10 + a * c / t) (10 + b * c / t) (10 + d * c / t) (10 + e * c / t)
        (10 + f * c / t) (10 + g * c / t))

IsWithin-shares :
    (a b d e f g c : ℕ)
    → shares (a + b + d + e + f + g) a b d e f g c ≤ 60 + c
    → 60 + c < shares (a + b + d + e + f + g) a b d e f g c + 6
    → IsWithin (60 + c) (distribute (pos (60 + c)) (weigh a b d e f g))
IsWithin-shares a b d e f g c below near =
    rw (distribute_total a b d e f g c, add_pos (shares (a + b + d + e + f + g) a b d e f g c) 6)
      (omega (arith, below), omega (arith, near))

pub Spreads-archetypes : All Spreads archetypes
Spreads-archetypes = (
  λ c. IsWithin-shares 8 16 7 10 7 16 c (omega arith) (omega arith),
  (
    λ c. IsWithin-shares 9 6 8 18 10 13 c (omega arith) (omega arith),
    (
      λ c. IsWithin-shares 18 12 16 7 13 6 c (omega arith) (omega arith),
      (
        λ c. IsWithin-shares 16 6 18 8 18 6 c (omega arith) (omega arith),
        (
          λ c. IsWithin-shares 13 17 13 8 11 10 c (omega arith) (omega arith),
          (λ c. IsWithin-shares 12 12 12 12 12 12 c (omega arith) (omega arith), _),
        ),
      ),
    ),
  ),
)
