-- ===== src/Creatures/Stats/Levels.antt =====
-- LevelForXP of pkg/creatures/stats.go inverts XPForLevel.
use pokecatch.Prelude.{
  ℕ, suc, zero, ◌+◌, ◌≤◌, ◌<◌, ◌≡◌, refl, ◌⊎◌, inl, inr, arith, ltb, leb, Bool-cases, ◌&&◌,
}
use pokecatch.Creatures.Stats.{xp_for_level, climb, level_for_xp}

-- The level `l` is the one that `xp` points reach: the highest of 1 to 100 that costs no more.
pub record IsLevelFor (xp l : ℕ) : Type 0 where
  pub at_least_1 : 1 ≤ l
  pub at_most_100 : l ≤ 100
  pub reached : (l ≡ 1) ⊎ (xp_for_level l ≤ xp)
  pub next_unreached : l < 100 → xp < xp_for_level (l + 1)

climb-IsLevelFor :
    (fuel lvl xp : ℕ)
    → 100 ≤ lvl + fuel
    → 1 ≤ lvl
    → lvl ≤ 100
    → (lvl ≡ 1) ⊎ (xp_for_level lvl ≤ xp)
    → IsLevelFor xp (climb fuel lvl xp)
unfolding climb
climb-IsLevelFor zero lvl xp f low high r = record {
  at_least_1 = low;
  at_most_100 = high;
  reached = r;
  next_unreached = λ h. absurd (omega arith);
}
climb-IsLevelFor (suc fuel) lvl xp f low high r =
    elim (Bool-cases (ltb lvl 100 && leb (xp_for_level (lvl + 1)) xp)) [
      | inl e ↦
          rw (e, climb)
            (climb-IsLevelFor fuel (lvl + 1) xp (omega arith) (omega arith) (ground arith)
              (inr (ground arith)))
      | inr e ↦
          rw (e, climb)
            (record {
              at_least_1 = low;
              at_most_100 = high;
              reached = r;
              next_unreached = λ h. ground arith;
            })
    ]

-- LevelForXP returns the highest of the levels 1 to 100 whose cube is at most the experience, and
-- 1 if there is none; in particular the 100 rounds of fuel are enough for any experience.
pub level_for_xp-IsLevelFor : (xp : ℕ) → IsLevelFor xp (level_for_xp xp)
unfolding level_for_xp
level_for_xp-IsLevelFor xp =
    climb-IsLevelFor 100 1 xp (omega arith) (omega arith) (omega arith) (inl refl)
