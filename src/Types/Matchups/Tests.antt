-- ===== src/Types/Matchups/Tests.antt =====
-- Matchups of pkg/types/types.go.
use pokecatch.Prelude.{◌≡◌, refl}
use pokecatch.Types.{fire, grass, ice, dual_effectiveness}

fire_burns_grass_and_ice : dual_effectiveness fire grass ice ≡ 16
unfolding dual_effectiveness
fire_burns_grass_and_ice = refl
