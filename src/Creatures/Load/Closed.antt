-- ===== src/Creatures/Load/Closed.antt =====
-- What Load of pkg/creatures/load.go promises about the catalogue.
use pokecatch.Prelude.{
  ap, sym, ◌∙◌, ◌≡◌, refl, Bool, true, false, ◌||◌, ◌⊎◌, inl, inr, Option, none, some, List, [],
  ◌∷◌, arith, All, Bool-cases, Option-cases, if◌then◌else◌,
}
use pokecatch.Prelude.Int.{ℤ, pos, eq_ℤ, eq_of_parts}
use pokecatch.Prelude.Outcome.{ok}
use pokecatch.Prelude.Dict
use pokecatch.Creatures.Model.{Species, Skill, LearnEntry, Dex}
use pokecatch.Creatures.Load.{
  is_there, put_species, add_species, add_skills, empty_dex, check_learnset, check_species,
  validate, merged, load,
}

abbrev pub is_among : List ℤ → ℤ → Bool
is_among [] id = false
is_among (x ∷ xs) id = eq_ℤ x id || is_among xs id

-- The last species of the list with the id, or else `before`.
abbrev pub last_with : ℤ → Option Species → List Species → Option Species
last_with id before [] = before
last_with id before (s ∷ ss) = last_with id (if eq_ℤ s.dex_id id then some s else before) ss

module _ {F : Type 0} where
  -- The next form and the skills of the species are in the catalogue.
  pub record IsResolved (d : Dex F) (sp : Species) : Type 0 where
    pub next_form :
        (eq_ℤ sp.evolves_to_id (pos 0) ≡ true) ⊎ (is_there (d.species sp.evolves_to_id) ≡ true)
    pub learnset : All (λ le. is_there (Dict.get d.skills le.skill_id) ≡ true) sp.learnset

  check_learnset-eq-none :
      (d : Dex F) (id : ℤ) (les : List LearnEntry)
      → check_learnset d id les ≡ none
      → All (λ le. is_there (Dict.get d.skills le.skill_id) ≡ true) les
  unfolding check_learnset
  check_learnset-eq-none d id [] h = tt
  check_learnset-eq-none d id (le ∷ les) h =
      (ground (arith, h), check_learnset-eq-none d id les (ground (arith, h)))

  check_species-eq-none :
      (d : Dex F) (id : ℤ) (sp : Species) → check_species d id (some sp) ≡ none → IsResolved d sp
  unfolding check_species
  check_species-eq-none d id sp h = record {
    next_form = ground (arith, h);
    learnset = check_learnset-eq-none d id sp.learnset (ground (arith, h));
  }

  validate-eq-none :
      (d : Dex F) (ids : List ℤ) (id : ℤ) (sp : Species)
      → validate d ids ≡ none
      → is_among ids id ≡ true
      → d.species id ≡ some sp
      → IsResolved d sp
  unfolding validate
  validate-eq-none d [] id sp h m e = cc
  validate-eq-none d (x ∷ xs) id sp h m e = elim (Option-cases (check_species d x (d.species x))) [
    | inr (bad, q) ↦ absurd (ground (arith, h, q))
    | inl q ↦ elim (Bool-cases (eq_ℤ x id)) [
      | inl same ↦
          let at : x ≡ id = eq_of_parts x id (ground (arith, same)) in
          let here : d.species x ≡ some sp = ap d.species at ∙ e in
          check_species-eq-none d x sp (sym (ap (check_species d x) here) ∙ q)
      | inr differ ↦
          validate-eq-none d xs id sp (ground (arith, h, q)) (ground (arith, m, differ)) e
    ]
  ]

  species-add_species :
      (d : Dex F) (ss : List Species) (id : ℤ)
      → (add_species d ss).species id ≡ last_with id (d.species id) ss
  species-add_species d [] id = refl
  species-add_species d (s ∷ ss) id = species-add_species (put_species d s) ss id

  species-add_skills :
      (d : Dex F) (sks : List (Skill F)) (id : ℤ) → (add_skills d sks).species id ≡ d.species id
  species-add_skills d [] id = refl
  species-add_skills d (sk ∷ sks) id =
      species-add_skills (record d { skills = Dict.put d.skills sk.id sk }) sks id

  -- If the range over the species meets every id of the merged catalogue, a catalogue that Load
  -- returns has, under each id, the last species of the overlay with it, or else the last of the
  -- seed, and holds the next form and every skill of the learnset of each of its species.
  pub load-IsResolved :
      (seed overlay : List Species) (skills : List (Skill F)) (ids : List ℤ) (d : Dex F)
      → ((id : ℤ)
          → is_there ((merged seed overlay skills).species id) ≡ true
          → is_among ids id ≡ true)
      → load seed overlay skills ids ≡ ok d
      → (id : ℤ)
      → (d.species id ≡ last_with id (last_with id none seed) overlay)
        × ((sp : Species) → d.species id ≡ some sp → IsResolved d sp)
  unfolding load
  load-IsResolved seed overlay skills ids d all h id =
      elim (Option-cases (validate (merged seed overlay skills) ids)) [
        | inr (x, q) ↦ absurd (ground (arith, h, q))
        | inl q ↦
            let same : merged seed overlay skills ≡ d = ground (arith, h, q) in
            let reads : (merged seed overlay skills).species id
                ≡ last_with id (last_with id none seed) overlay =
              species-add_skills (add_species (add_species empty_dex seed) overlay) skills id
              ∙ species-add_species (add_species empty_dex seed) overlay id
              ∙ ap (λ o. last_with id o overlay) (species-add_species empty_dex seed id) in
            rw (← same) (
              reads,
              λ sp e.
                  validate-eq-none (merged seed overlay skills) ids id sp q (all id (rw e refl)) e,
            )
      ]
