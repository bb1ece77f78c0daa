-- ===== src/Generator.antt =====
-- tools/creaturegen/main.go: the generator of the catalogue, up to the JSON that it writes. Its
-- xorshift state is a uint64; a draw returns the state after it. An index out of range is a panic.
pub mod Shares
pub mod Budgets
pub mod Tests
use Prim.Native.Nat.{bit_xor, bit_or}
use pokecatch.Prelude.{
  ℕ, zero, suc, ◌+◌, ◌-◌, ◌*◌, ◌/◌, ◌%◌, ◌^◌, ◌≤◌, String, Bool, true, false, Option, none, some,
  List, [], ◌∷◌, ltb, leb, get_elem?, if◌then◌else◌,
}
use pokecatch.Prelude.Int.{ℤ, pos, negsuc, pos_part, ◌+ℤ◌, ◌-ℤ◌, ◌*ℤ◌, quot}
use pokecatch.Prelude.Partial.{◌>>=◌}
use pokecatch.Prelude.Text.{◌++◌}
use pokecatch.Types.{
  Element, element_count, Stats, base_stat_total, Rarity, common, uncommon, rare, epic, legendary,
  mythic,
}
use pokecatch.Engine.Rng.{u64_mod}
use pokecatch.Creatures.Model.{Species}

-- bstBudget
abbrev pub bst_budget : Rarity → ℕ × ℕ
bst_budget common = (290, 360)
bst_budget uncommon = (340, 430)
bst_budget rare = (410, 500)
bst_budget epic = (480, 540)
bst_budget legendary = (560, 600)
bst_budget mythic = (580, 640)

pub record Archetype : Type 0 where
  pub name : String
  pub weights : Stats

abbrev pub weigh : ℕ → ℕ → ℕ → ℕ → ℕ → ℕ → Stats
weigh hp attack defense sp_attack sp_defense speed = record {
  hp = pos hp;
  attack = pos attack;
  defense = pos defense;
  sp_attack = pos sp_attack;
  sp_defense = pos sp_defense;
  speed = pos speed;
}

abbrev pub archetypes : List Archetype
archetypes =
    record { name = "sweeper"; weights = weigh 8 16 7 10 7 16 }
    ∷ record { name = "specialist"; weights = weigh 9 6 8 18 10 13 }
    ∷ record { name = "tank"; weights = weigh 18 12 16 7 13 6 }
    ∷ record { name = "wall"; weights = weigh 16 6 18 8 18 6 }
    ∷ record { name = "bruiser"; weights = weigh 13 17 13 8 11 10 }
    ∷ record { name = "balanced"; weights = weigh 12 12 12 12 12 12 }
    ∷ []

-- A total below the bound of a case is an index of the case too.
abbrev pub rarity_for_index : ℕ → ℕ → Rarity
rarity_for_index i total =
    if leb (total - 6) i
    then mythic
    else if leb (total - 18) i
    then legendary
    else if leb (total - 60) i
    then epic
    else if leb (total - 130) i
    then rare
    else if leb (total - 220) i
    then uncommon
    else common

abbrev pub biomes : List String
biomes =
    "verdant_meadow" ∷ "emberfall_volcano" ∷ "tidewreck_coast" ∷ "stormspire_peaks" ∷ "hollow_mire"
    ∷ "frostbarrow_tundra" ∷ "sunken_archive" ∷ "whispering_canopy" ∷ "obsidian_caldera"
    ∷ "aurora_expanse" ∷ []

unfoldable pub next : ℕ → ℕ
next s =
    let a = bit_xor s (s * 2 ^ 13 % u64_mod) in
    let b = bit_xor a (a / 2 ^ 7) in bit_xor b (b * 2 ^ 17 % u64_mod)

-- Every bound that the generator draws below is positive.
unfoldable pub intn : ℕ → ℕ → ℕ × ℕ
intn s n = (next s % n, next s)

unfoldable pub span : ℕ → ℕ × ℕ → ℕ × ℕ
span s (lo, hi) =
    let drawn = intn s (hi - lo + 1) in if leb hi lo then (lo, s) else (lo + drawn.0, drawn.1)

unfoldable pub scale : ℤ → ℤ → ℤ → ℤ
scale total budget x = pos 10 +ℤ quot (x *ℤ (budget -ℤ pos 60)) (pos_part total)

unfoldable pub distribute : ℤ → Stats → Stats
distribute budget w =
    let total = base_stat_total w in
    record {
      hp = scale total budget w.hp;
      attack = scale total budget w.attack;
      defense = scale total budget w.defense;
      sp_attack = scale total budget w.sp_attack;
      sp_defense = scale total budget w.sp_defense;
      speed = scale total budget w.speed;
    }

abbrev pub catch_rate_for : Rarity → ℤ
catch_rate_for common = pos 200
catch_rate_for uncommon = pos 140
catch_rate_for rare = pos 90
catch_rate_for epic = pos 45
catch_rate_for legendary = pos 12
catch_rate_for mythic = pos 3

-- r.Rarity <= types.Rare
abbrev pub is_at_most_rare : Rarity → Bool
is_at_most_rare common = true
is_at_most_rare uncommon = true
is_at_most_rare rare = true
is_at_most_rare _ = false

-- `three_digits` is fmt.Sprintf("%03d").
module _ (three_digits : ℕ → String) where
  abbrev pub species_of : ℕ → Rarity → ℕ → Archetype → Element → Element → String → Species
  species_of i rarity budget arch e1 e2 biome = record {
    dex_id = pos (i + 1);
    name = arch.name ++ "-" ++ three_digits (i + 1);
    element1 = e1;
    element2 = e2;
    base = distribute (pos budget) arch.weights;
    rarity = rarity;
    abilities = [];
    learnset = [];
    evolves_to_id = pos 0;
    evolve_level = pos 0;
    catch_rate = catch_rate_for rarity;
    xp_yield = pos (60 + budget / 6);
    spawns = biome ∷ [];
    lore = "";
  }

  -- One round of the first loop: its draws, and the species of them
  unfoldable pub draw_species : ℕ → ℕ → ℕ → Option (Species × ℕ)
  draw_species total i s =
      let rarity = rarity_for_index i total in
      let budget = span s (bst_budget rarity) in
      let kind = intn budget.1 6 in
      let main_type = intn kind.1 11 in
      let e1 = 1 + main_type.0 in
      let dual = intn main_type.1 100 in
      let other = intn dual.1 element_count in
      let e2 = if ltb dual.0 45 then other else (e1, dual.1) in
      let place = intn e2.1 10 in
      do
        arch ← get_elem? archetypes kind.0
        biome ← get_elem? biomes place.0
        some (species_of i rarity budget.0 arch e1 e2.0 biome, place.1)

  unfoldable pub draw_all : ℕ → ℕ → ℕ → ℕ → Option (List Species)
  draw_all total zero i s = some []
  draw_all total (suc n) i s = do
    first ← draw_species total i s
    rest ← draw_all total n (suc i) first.1
    some (first.0 ∷ rest)

-- One family of the second loop
abbrev pub wire_family : Species → Species → Species → List Species → List Species
wire_family a b c rest =
    if is_at_most_rare a.rarity
    then record a { evolves_to_id = b.dex_id; evolve_level = pos 16 }
      ∷ record b { evolves_to_id = c.dex_id; evolve_level = pos 34; element1 = a.element1 }
      ∷ record c { element1 = a.element1 }
      ∷ rest
    else a ∷ b ∷ c ∷ rest

-- The second loop; a family of two reads past the end.
unfoldable pub wire : ℕ → List Species → Option (List Species)
wire i (a ∷ b ∷ c ∷ rest) =
    let wired = wire (i + 3) rest in
    if ltb i 180 then wired >>= (λ more. some (wire_family a b c more)) else some (a ∷ b ∷ c ∷ rest)
wire i (a ∷ b ∷ []) =
    if ltb i 180
    then (if is_at_most_rare a.rarity then none else some (a ∷ b ∷ []))
    else some (a ∷ b ∷ [])
wire i few = some few

-- `max_cap` is the largest capacity that the runtime's make accepts for the slice.
unfoldable pub generate : (ℕ → String) → ℕ → ℕ → ℤ → Option (List Species)
generate three_digits max_cap seed (negsuc n) = none
generate three_digits max_cap seed (pos count) =
    let drawn = draw_all three_digits count count 0 (bit_or seed 1) in
    if ltb max_cap count then none else drawn >>= wire 0
