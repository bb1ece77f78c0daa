-- ===== src/Types.antt =====
-- pkg/types/types.go: the shared vocabulary. An element is its uint8 code, since the code indexes
-- the effectiveness matrix and the lookup has a branch for codes out of range. The multipliers are
-- dyadic, so the matrix is held exactly, in halves, and the dual product in quarters.
pub mod Matchups
use pokecatch.Prelude.{
  ℕ, ◌+◌, ◌*◌, String, Bool, Option, none, some, List, [], ◌∷◌, get_elem?, leb, ◌==◌, if◌then◌else◌,
  ◌||◌,
}
use pokecatch.Prelude.Int.{ℤ, ◌+ℤ◌}

abbrev pub Element : Type 0
Element = ℕ

abbrev pub neutral : Element
neutral = 0

abbrev pub fire : Element
fire = 1

abbrev pub water : Element
water = 2

abbrev pub grass : Element
grass = 3

abbrev pub electric : Element
electric = 4

abbrev pub earth : Element
earth = 5

abbrev pub air : Element
air = 6

abbrev pub ice : Element
ice = 7

abbrev pub toxin : Element
toxin = 8

abbrev pub mind : Element
mind = 9

abbrev pub spectre : Element
spectre = 10

abbrev pub metal : Element
metal = 11

abbrev pub element_count : ℕ
element_count = 12

-- `effectiveness`, each entry doubled.
abbrev pub effectiveness_table : List (List ℕ)
effectiveness_table =
    (2 ∷ 2 ∷ 2 ∷ 2 ∷ 2 ∷ 2 ∷ 2 ∷ 2 ∷ 2 ∷ 2 ∷ 1 ∷ 1 ∷ [])
    ∷ (2 ∷ 1 ∷ 1 ∷ 4 ∷ 2 ∷ 2 ∷ 2 ∷ 4 ∷ 2 ∷ 2 ∷ 2 ∷ 4 ∷ [])
    ∷ (2 ∷ 4 ∷ 1 ∷ 1 ∷ 2 ∷ 4 ∷ 2 ∷ 2 ∷ 2 ∷ 2 ∷ 2 ∷ 2 ∷ [])
    ∷ (2 ∷ 1 ∷ 4 ∷ 1 ∷ 2 ∷ 4 ∷ 1 ∷ 2 ∷ 1 ∷ 2 ∷ 2 ∷ 1 ∷ [])
    ∷ (2 ∷ 2 ∷ 4 ∷ 1 ∷ 1 ∷ 0 ∷ 4 ∷ 2 ∷ 2 ∷ 2 ∷ 2 ∷ 2 ∷ [])
    ∷ (2 ∷ 4 ∷ 1 ∷ 1 ∷ 4 ∷ 2 ∷ 0 ∷ 2 ∷ 4 ∷ 2 ∷ 2 ∷ 4 ∷ [])
    ∷ (2 ∷ 2 ∷ 2 ∷ 4 ∷ 1 ∷ 2 ∷ 2 ∷ 2 ∷ 2 ∷ 2 ∷ 2 ∷ 1 ∷ [])
    ∷ (2 ∷ 1 ∷ 1 ∷ 4 ∷ 2 ∷ 4 ∷ 4 ∷ 1 ∷ 2 ∷ 2 ∷ 2 ∷ 1 ∷ [])
    ∷ (2 ∷ 2 ∷ 2 ∷ 4 ∷ 2 ∷ 1 ∷ 2 ∷ 2 ∷ 1 ∷ 2 ∷ 1 ∷ 0 ∷ [])
    ∷ (2 ∷ 2 ∷ 2 ∷ 2 ∷ 2 ∷ 2 ∷ 2 ∷ 2 ∷ 4 ∷ 1 ∷ 0 ∷ 2 ∷ [])
    ∷ (0 ∷ 2 ∷ 2 ∷ 2 ∷ 2 ∷ 2 ∷ 2 ∷ 2 ∷ 2 ∷ 4 ∷ 4 ∷ 2 ∷ [])
    ∷ (2 ∷ 1 ∷ 1 ∷ 2 ∷ 1 ∷ 2 ∷ 2 ∷ 4 ∷ 2 ∷ 2 ∷ 2 ∷ 1 ∷ [])
    ∷ []

entry_at : Option (List ℕ) → ℕ → ℕ
entry_at none j = 2
entry_at (some row) j = elim (get_elem? row j) [ none ↦ 2 | some m ↦ m ]

-- In halves.
unfoldable pub effectiveness : Element → Element → ℕ
unfolding entry_at
effectiveness attacker defender =
    if leb element_count attacker || leb element_count defender
    then 2
    else entry_at (get_elem? effectiveness_table attacker) defender

-- In quarters: a mono-typed defender's halves count once.
unfoldable pub dual_effectiveness : Element → Element → Element → ℕ
unfolding effectiveness
dual_effectiveness attacker def1 def2 =
    let m = effectiveness attacker def1 in
    if def2 == def1 then 2 * m else m * effectiveness attacker def2

pub record Stats : Type 0 where
  pub hp : ℤ
  pub attack : ℤ
  pub defense : ℤ
  pub sp_attack : ℤ
  pub sp_defense : ℤ
  pub speed : ℤ

unfoldable pub base_stat_total : Stats → ℤ
base_stat_total s = s.hp +ℤ s.attack +ℤ s.defense +ℤ s.sp_attack +ℤ s.sp_defense +ℤ s.speed

pub data Rarity : Type 0 where
  common uncommon rare epic legendary mythic : Rarity

pub data DamageClass : Type 0 where
  physical special status_only : DamageClass

pub data StatusCondition : Type 0 where
  healthy burn poison freeze sleep paralysis toxic : StatusCondition

-- `==` and the switch on the two enumerations that the engine compares.
abbrev pub class_code : DamageClass → ℕ
class_code physical = 0
class_code special = 1
class_code status_only = 2

abbrev pub status_code : StatusCondition → ℕ
status_code healthy = 0
status_code burn = 1
status_code poison = 2
status_code freeze = 3
status_code sleep = 4
status_code paralysis = 5
status_code toxic = 6

abbrev pub is_class : DamageClass → DamageClass → Bool
is_class a b = class_code a == class_code b

abbrev pub is_status : StatusCondition → StatusCondition → Bool
is_status a b = status_code a == status_code b

-- StatusCondition.String
abbrev pub status_string : StatusCondition → String
status_string healthy = "None"
status_string burn = "Burn"
status_string poison = "Poison"
status_string freeze = "Freeze"
status_string sleep = "Sleep"
status_string paralysis = "Paralysis"
status_string toxic = "Toxic"
