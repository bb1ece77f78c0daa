-- ===== src/Generator/Budgets.antt =====
-- The budgets of the catalogue that tools/creaturegen/main.go generates.
use Prim.Native.Nat.{bit_or}
use pokecatch.Prelude.{
  ℕ, none, ◌⊎◌, zero, suc, ◌+◌, ◌-◌, ◌≤◌, ◌<◌, String, ◌≡◌, refl, ◌∙◌, ap, subst, false, inl, inr,
  List, [], ◌∷◌, arith, Bool-cases, All, length, ltb, get_elem?_total, All-get_elem?, if_holds,
  if◌then◌else◌,
}
use pokecatch.Prelude.Int.{ℤ, pos, negsuc, ◌+ℤ◌, ◌≤ℤ◌, ◌<ℤ◌}
use pokecatch.Prelude.Partial.{Returns}
use pokecatch.Types.{
  base_stat_total, Rarity, common, uncommon, rare, epic, legendary, mythic, element_count,
}
use pokecatch.Creatures.Model.{Species}
use native.Mathlib.Nat.{mod-lt}
use pokecatch.Generator.{
  Archetype, bst_budget, archetypes, biomes, next, intn, span, distribute, species_of, draw_species,
  draw_all, wire_family, wire, generate, rarity_for_index, is_at_most_rare,
}
use pokecatch.Generator.Shares.{IsWithin, Spreads, Spreads-archetypes}

-- The total is in the budget of the rarity, up to five below it, and the elements are in the matrix.
abbrev pub IsFit : Species → Type 0
IsFit sp =
    (base_stat_total sp.base ≤ℤ pos (bst_budget sp.rarity).1)
    × (pos (bst_budget sp.rarity).0 <ℤ base_stat_total sp.base +ℤ pos 6)
    × (1 ≤ sp.element1)
    × (sp.element1 < element_count)
    × (sp.element2 < element_count)

budget_within :
    (s : ℕ) (rarity : Rarity)
    → (60 ≤ (span s (bst_budget rarity)).0)
      × ((bst_budget rarity).0 ≤ (span s (bst_budget rarity)).0)
      × ((span s (bst_budget rarity)).0 ≤ (bst_budget rarity).1)
unfolding span intn
budget_within s common = (ground arith, ground arith, ground arith)
budget_within s uncommon = (ground arith, ground arith, ground arith)
budget_within s rare = (ground arith, ground arith, ground arith)
budget_within s epic = (ground arith, ground arith, ground arith)
budget_within s legendary = (ground arith, ground arith, ground arith)
budget_within s mythic = (ground arith, ground arith, ground arith)

spread_fits :
    (rarity : Rarity) (budget : ℕ) (arch : Archetype)
    → Spreads arch
    → 60 ≤ budget
    → (bst_budget rarity).0 ≤ budget
    → budget ≤ (bst_budget rarity).1
    → (base_stat_total (distribute (pos budget) arch.weights) ≤ℤ pos (bst_budget rarity).1)
      × (pos (bst_budget rarity).0
          <ℤ base_stat_total (distribute (pos budget) arch.weights) +ℤ pos 6)
spread_fits rarity budget arch spreads big lo hi =
    let same : 60 + (budget - 60) ≡ budget = omega (arith, big) in
    let (below, near) =
      subst (λ b. IsWithin b (distribute (pos b) arch.weights)) same (spreads (budget - 60)) in
    (omega (arith, below, hi), omega (arith, near, lo))

drawn_below : (s : ℕ) (n : ℕ) → (intn s (suc n)).0 < suc n
unfolding intn
drawn_below s n = mod-lt (next s) (omega arith)

draw_species-Returns :
    (three_digits : ℕ → String) (total i s : ℕ)
    → Returns
        (λ p. IsFit p.0 × (p.0.rarity ≡ rarity_for_index i total))
        (draw_species three_digits total i s)
unfolding draw_species
draw_species-Returns three_digits total i s =
    let rarity = rarity_for_index i total in
    let budget = span s (bst_budget rarity) in
    let kind = intn budget.1 6 in
    let main_type = intn kind.1 11 in
    let dual = intn main_type.1 100 in
    let other = intn dual.1 element_count in
    let e2 : ℕ × ℕ = if ltb dual.0 45 then other else (1 + main_type.0, dual.1) in
    let place = intn e2.1 10 in
    let (arch, a) = get_elem?_total archetypes kind.0 (drawn_below budget.1 5) in
    let (biome, b) = get_elem?_total biomes place.0 (drawn_below e2.1 9) in
    let (big, lo, hi) = budget_within s rarity in
    let (below, near) =
      spread_fits rarity budget.0 arch
        (All-get_elem? Spreads archetypes kind.0 Spreads-archetypes a) big lo hi in
    let first_type : main_type.0 < 11 = drawn_below kind.1 10 in
    let second_type : e2.0 < 12 =
      if_holds (λ (t : ℕ × ℕ). t.0 < 12) (ltb dual.0 45) (λ _. drawn_below dual.1 11)
        (λ _. omega (arith, first_type)) in
    (
      (species_of three_digits i rarity budget.0 arch (1 + main_type.0) e2.0 biome, place.1),
      rw (a, b) refl,
      ((below, near, omega arith, omega (arith, first_type), second_type), refl),
    )

-- The rarities are those of the indices from `i` on.
abbrev HasRarities : ℕ → ℕ → List Species → Type 0
HasRarities total i [] = Unit {0}
HasRarities total i (sp ∷ sps) =
    (sp.rarity ≡ rarity_for_index i total) × HasRarities total (suc i) sps

draw_all-Returns :
    (three_digits : ℕ → String) (total n i s : ℕ)
    → Returns
        (λ dex. All IsFit dex × (length dex ≡ n) × HasRarities total i dex)
        (draw_all three_digits total n i s)
unfolding draw_all
draw_all-Returns three_digits total zero i s = ([], refl, (_, refl, _))
draw_all-Returns three_digits total (suc n) i s =
    let (p, e, (fit, same)) = draw_species-Returns three_digits total i s in
    let (rest, f, (fits, size, sames)) = draw_all-Returns three_digits total n (suc i) p.1 in
    (p.0 ∷ rest, rw (e, f) refl, ((fit, fits), ap suc size, (same, sames)))

wire_family-IsFit :
    (a b c : Species) (rest : List Species)
    → IsFit a
    → IsFit b
    → IsFit c
    → All IsFit rest
    → All IsFit (wire_family a b c rest)
wire_family-IsFit a b c rest p q r h =
    if_holds (All IsFit) (is_at_most_rare a.rarity)
      (λ _. (p, ((q.0, q.1, p.2, p.3, q.4), ((r.0, r.1, p.2, p.3, r.4), h))))
      (λ _. (p, (q, (r, h))))

-- A family of two can only be at the end, where no species is common enough to evolve.
last_is_rare :
    (total i : ℕ) (a : Species)
    → i + 2 ≡ total
    → a.rarity ≡ rarity_for_index i total
    → is_at_most_rare a.rarity ≡ false
last_is_rare total i a h e =
    let top : rarity_for_index i total ≡ mythic = ground (arith, h) in ap is_at_most_rare (e ∙ top)

wire_family-length :
    (a b c : Species) (rest : List Species)
    → length (wire_family a b c rest) ≡ suc (suc (suc (length rest)))
wire_family-length a b c rest =
    if_holds (λ sps. length sps ≡ suc (suc (suc (length rest)))) (is_at_most_rare a.rarity)
      (λ _. refl) (λ _. refl)

wire-Returns :
    (total i : ℕ) (dex : List Species)
    → All IsFit dex
    → HasRarities total i dex
    → i + length dex ≡ total
    → Returns (λ wired. All IsFit wired × (length wired ≡ length dex)) (wire i dex)
unfolding wire
wire-Returns total i [] h r e = ([], refl, (_, refl))
wire-Returns total i (a ∷ []) h r e = (a ∷ [], refl, (h, refl))
wire-Returns total i (a ∷ b ∷ []) h r e =
    let stays = last_is_rare total i a e r.0 in (a ∷ b ∷ [], ground (arith, stays), (h, refl))
wire-Returns total i (a ∷ b ∷ c ∷ rest) (p, (q, (t, k))) r e =
    let (more, f, (fits, size)) =
      wire-Returns total (i + 3) rest k
        (subst (λ j. HasRarities total j rest) (omega arith) r.1.1.1) (omega (arith, e)) in
    elim (Bool-cases (ltb i 180)) [
      | inl early ↦ (
        wire_family a b c more,
        rw (early, f) refl,
        (
          wire_family-IsFit a b c more p q t fits,
          wire_family-length a b c more ∙ ap (λ n. suc (suc (suc n))) size,
        ),
      )
      | inr late ↦ (a ∷ b ∷ c ∷ rest, rw late refl, ((p, (q, (t, k))), refl))
    ]

-- For every seed, a count from 0 to the largest capacity that make accepts is generated without a
-- panic, also with a family of two at the end: there are as many species, and each has a base
-- stat total of at most the ceiling of its rarity and at most five below its floor, a first
-- element from 1 to 11 and a second element of the matrix. Every other count panics.
pub generate_fits :
    (three_digits : ℕ → String) (max_cap seed : ℕ) (count : ℤ)
    → ((pos 0 ≤ℤ count)
        × (count ≤ℤ pos max_cap)
        × Returns
            (λ dex. All IsFit dex × (pos (length dex) ≡ count))
            (generate three_digits max_cap seed count))
      ⊎ (((count <ℤ pos 0) ⊎ (pos max_cap <ℤ count))
          × (generate three_digits max_cap seed count ≡ none))
unfolding generate
generate_fits three_digits max_cap seed (negsuc n) = inr (inl (omega arith), refl)
generate_fits three_digits max_cap seed (pos count) = elim (Bool-cases (ltb max_cap count)) [
  | inl big ↦ inr (inr (ground arith), rw big refl)
  | inr small ↦
      let (dex, e, (fits, size, rarities)) =
        draw_all-Returns three_digits count count 0 (bit_or seed 1) in
      let (wired, f, (all, same)) = wire-Returns count 0 dex fits rarities (omega (arith, size)) in
      inl (omega arith, ground arith, (wired, rw (small, e, f) refl, (all, ap pos (same ∙ size))))
]
