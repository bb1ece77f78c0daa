-- ===== src/Generator/Tests.antt =====
-- A small catalogue of tools/creaturegen/main.go.
use pokecatch.Prelude.{ℕ, String, All, ◌≡◌, ◌⊎◌, refl, none, length}
use pokecatch.Prelude.Int.{pos, ◌≤ℤ◌, ◌<ℤ◌}
use pokecatch.Types.{base_stat_total}
use pokecatch.Prelude.Partial.{Returns}
use pokecatch.Generator.{generate, distribute, weigh}
use pokecatch.Generator.Budgets.{IsFit, generate_fits}

abbrev plain : ℕ → String
plain n = "001"

generate_fits_example :
    ((pos 0 ≤ℤ pos 8)
      × (pos 8 ≤ℤ pos 1000)
      × Returns
          (λ dex. All IsFit dex × (pos (length dex) ≡ pos 8))
          (generate plain 1000 42 (pos 8)))
    ⊎ (((pos 8 <ℤ pos 0) ⊎ (pos 1000 <ℤ pos 8)) × (generate plain 1000 42 (pos 8) ≡ none))
generate_fits_example = generate_fits plain 1000 42 (pos 8)

-- A sweeper of the floor of its rarity has less in all than that floor.
sweeper_below_floor : base_stat_total (distribute (pos 290) (weigh 8 16 7 10 7 16)) ≡ pos 287
unfolding distribute base_stat_total pokecatch.Prelude.Int.◌+ℤ◌ pokecatch.Generator.scale
    pokecatch.Prelude.Int.quot pokecatch.Prelude.Int.◌*ℤ◌ pokecatch.Prelude.Int.◌-ℤ◌
sweeper_below_floor = refl
