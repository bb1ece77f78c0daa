-- ===== src/Creatures/Model.antt =====
-- pkg/creatures/model.go and the tables of pkg/creatures/load.go. `F` is the type of the doubles.
-- An array [4]string is a list. Pointers that the program only reads are values.
use pokecatch.Prelude.{ℕ, String, Bool, Option, List, [], ◌∷◌, ◌==◌}
use pokecatch.Prelude.Int.{ℤ, pos}
use pokecatch.Prelude.Dict.{Dict}
use pokecatch.Types.{Element, Stats, Rarity, DamageClass, StatusCondition, healthy}

pub record SkillEffect (F : Type 0) : Type 0 where
  pub status : StatusCondition
  pub status_chance : ℤ
  -- map[string]int8, in the order of one iteration
  pub stat_changes : List (String × ℤ)
  pub target_self : Bool
  pub heal_frac : F
  pub recoil_frac : F

pub record Skill (F : Type 0) : Type 0 where
  pub id : String
  pub name : String
  pub element : Element
  pub class : DamageClass
  pub power : ℤ
  pub accuracy : ℤ
  pub pp : ℤ
  pub priority : ℤ
  pub crit_stage : ℤ
  pub cooldown : ℤ
  pub effect : Option (SkillEffect F)

pub data PassiveAbility : Type 0 where
  no_ability blaze torrent overgrow static levitate : PassiveAbility
  regenerator iron_hide insulate pressure adaptable : PassiveAbility

abbrev pub ability_code : PassiveAbility → ℕ
ability_code no_ability = 0
ability_code blaze = 1
ability_code torrent = 2
ability_code overgrow = 3
ability_code static = 4
ability_code levitate = 5
ability_code regenerator = 6
ability_code iron_hide = 7
ability_code insulate = 8
ability_code pressure = 9
ability_code adaptable = 10

abbrev pub is_ability : PassiveAbility → PassiveAbility → Bool
is_ability a b = ability_code a == ability_code b

pub record LearnEntry : Type 0 where
  pub level : ℤ
  pub skill_id : String

pub record Species : Type 0 where
  pub dex_id : ℤ
  pub name : String
  pub element1 : Element
  pub element2 : Element
  pub base : Stats
  pub rarity : Rarity
  pub abilities : List PassiveAbility
  pub learnset : List LearnEntry
  pub evolves_to_id : ℤ
  pub evolve_level : ℤ
  pub catch_rate : ℤ
  pub xp_yield : ℤ
  pub spawns : List String
  pub lore : String

pub record Nature : Type 0 where
  pub name : String
  pub up : String
  pub down : String

pub record Instance : Type 0 where
  pub instance_id : String
  pub dex_id : ℤ
  pub nickname : String
  pub level : ℤ
  pub xp : ℤ
  pub ivs : Stats
  pub evs : Stats
  pub nature : Nature
  pub ability : PassiveAbility
  pub skill_ids : List String
  pub status : StatusCondition
  pub current_hp : ℤ

-- The maps of `Dex`.
pub record Dex (F : Type 0) : Type 0 where
  pub species : ℤ → Option Species
  pub skills : Dict (Skill F)

-- Go's zero values.
abbrev zero_stats : Stats
zero_stats = record {
  hp = pos 0;
  attack = pos 0;
  defense = pos 0;
  sp_attack = pos 0;
  sp_defense = pos 0;
  speed = pos 0;
}

abbrev pub zero_instance : Instance
zero_instance = record {
  instance_id = "";
  dex_id = pos 0;
  nickname = "";
  level = pos 0;
  xp = pos 0;
  ivs = zero_stats;
  evs = zero_stats;
  nature = record { name = ""; up = ""; down = "" };
  ability = no_ability;
  skill_ids = "" ∷ "" ∷ "" ∷ "" ∷ [];
  status = healthy;
  current_hp = pos 0;
}
