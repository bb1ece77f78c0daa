-- ===== src/Creatures/Load.antt =====
-- pkg/creatures/load.go: the merge of the two files and the validation of the catalogue, on what
-- the JSON decoder returned. The order in which the map of species is ranged over is an argument.
pub mod Closed
use pokecatch.Prelude.{
  String, Bool, true, false, not, ◌&&◌, ◌||◌, Option, none, some, List, [], ◌∷◌, if◌then◌else◌,
}
use pokecatch.Prelude.Int.{ℤ, pos, eq_ℤ}
use pokecatch.Prelude.Outcome.{Result, ok, err}
use pokecatch.Prelude.Dict
use pokecatch.Creatures.Model.{Species, Skill, LearnEntry, Dex}

pub data LoadError : Type 0 where
  missing_species : ℤ → ℤ → LoadError
  missing_skill : ℤ → String → LoadError

abbrev pub is_there {ℓ} : {A : Type ℓ} → Option A → Bool
is_there none = false
is_there (some a) = true

module _ {F : Type 0} where
  -- d.Species[s.DexID] = s
  abbrev pub put_species : Dex F → Species → Dex F
  put_species d s = record d { species = λ id. if eq_ℤ s.dex_id id then some s else d.species id }

  abbrev pub add_species : Dex F → List Species → Dex F
  add_species d [] = d
  add_species d (s ∷ ss) = add_species (put_species d s) ss

  abbrev pub add_skills : Dex F → List (Skill F) → Dex F
  add_skills d [] = d
  add_skills d (sk ∷ sks) = add_skills (record d { skills = Dict.put d.skills sk.id sk }) sks

  abbrev pub empty_dex : Dex F
  empty_dex = record { species = λ id. none; skills = Dict.empty }

  -- The learnset of the species at `id`.
  unfoldable pub check_learnset : Dex F → ℤ → List LearnEntry → Option LoadError
  check_learnset d id [] = none
  check_learnset d id (le ∷ les) =
      let rest = check_learnset d id les in
      if is_there (Dict.get d.skills le.skill_id) then rest else some (missing_skill id le.skill_id)

  -- One round of validate.
  unfoldable pub check_species : Dex F → ℤ → Option Species → Option LoadError
  check_species d id none = none
  check_species d id (some sp) =
      if not (eq_ℤ sp.evolves_to_id (pos 0)) && not (is_there (d.species sp.evolves_to_id))
      then some (missing_species id sp.evolves_to_id)
      else check_learnset d id sp.learnset

  unfoldable pub validate : Dex F → List ℤ → Option LoadError
  validate d [] = none
  validate d (id ∷ ids) = elim (check_species d id (d.species id)) [
    | some e ↦ some e
    | none ↦ validate d ids
  ]

  -- The catalogue of Load before its validation: the seed, then the overlay, which wins.
  abbrev pub merged : List Species → List Species → List (Skill F) → Dex F
  merged seed overlay skills = add_skills (add_species (add_species empty_dex seed) overlay) skills

  unfoldable pub load :
      List Species → List Species → List (Skill F) → List ℤ → Result LoadError (Dex F)
  load seed overlay skills ids = elim (validate (merged seed overlay skills) ids) [
    | some e ↦ err e
    | none ↦ ok (merged seed overlay skills)
  ]
