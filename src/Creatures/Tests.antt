-- ===== src/Creatures/Tests.antt =====
-- Runs of pkg/creatures.
use pokecatch.Prelude.{◌≡◌, refl, true, none, some, List, [], ◌∷◌, arith}
use pokecatch.Prelude.Int.{ℤ, pos}
use pokecatch.Prelude.Float.{fixed_point}
use pokecatch.Prelude.Outcome.{ok}
use pokecatch.Prelude.Dict
use pokecatch.Creatures.Model.{Species, Skill}
use pokecatch.Creatures.Samples.{sprout, bloom, tackle}
use pokecatch.Creatures.Load.{is_there, merged, load, validate, check_species, check_learnset}
use pokecatch.Creatures.Load.Closed.{is_among, last_with, IsResolved, load-IsResolved}

abbrev seed : List Species
seed = sprout ∷ []

abbrev overlay : List Species
overlay = bloom ∷ []

abbrev skills : List (Skill fixed_point.F)
skills = tackle ∷ []

abbrev ids : List ℤ
ids = pos 2 ∷ pos 1 ∷ []

ranged :
    (id : ℤ) → is_there ((merged seed overlay skills).species id) ≡ true → is_among ids id ≡ true
ranged id h = ground (arith, h)

loads : load seed overlay skills ids ≡ ok (merged seed overlay skills)
unfolding load validate check_species check_learnset Dict.get Dict.put Dict.empty
loads = refl

load-IsResolved_example :
    ((merged seed overlay skills).species (pos 1)
      ≡ last_with (pos 1) (last_with (pos 1) none seed) overlay)
    × ((sp : Species)
        → (merged seed overlay skills).species (pos 1) ≡ some sp
        → IsResolved (merged seed overlay skills) sp)
load-IsResolved_example =
    load-IsResolved seed overlay skills ids (merged seed overlay skills) ranged loads (pos 1)
