-- ===== src/Creatures/Samples.antt =====
-- Creatures, species and a skill for the tests, in the shape of the JSON data of pkg/creatures.
use pokecatch.Prelude.{none, some, [], ◌∷◌, if◌then◌else◌}
use pokecatch.Prelude.Int.{pos, eq_ℤ}
use pokecatch.Prelude.Dict
use pokecatch.Prelude.Float.{fixed_point}
use pokecatch.Types.{Stats, neutral, grass, common, physical}
use pokecatch.Creatures.Model.{Skill, Species, Instance, Dex, overgrow, static, zero_instance}

abbrev pub forties : Stats
forties = record {
  hp = pos 40;
  attack = pos 40;
  defense = pos 40;
  sp_attack = pos 40;
  sp_defense = pos 40;
  speed = pos 40;
}

abbrev pub sprout : Species
sprout = record {
  dex_id = pos 1;
  name = "Sprout";
  element1 = grass;
  element2 = grass;
  base = forties;
  rarity = common;
  abilities = overgrow ∷ [];
  learnset = record { level = pos 1; skill_id = "tackle" } ∷ [];
  evolves_to_id = pos 2;
  evolve_level = pos 16;
  catch_rate = pos 45;
  xp_yield = pos 64;
  spawns = [];
  lore = "";
}

abbrev pub bloom : Species
bloom = record sprout {
  dex_id = pos 2;
  name = "Bloom";
  abilities = static ∷ [];
  evolves_to_id = pos 0;
}

abbrev pub young_sprout : Instance
young_sprout = record zero_instance {
  instance_id = "c1";
  dex_id = pos 1;
  level = pos 20;
  ability = overgrow;
  skill_ids = "tackle" ∷ "" ∷ "" ∷ "" ∷ [];
}

abbrev pub tackle : Skill fixed_point.F
tackle = record {
  id = "tackle";
  name = "Tackle";
  element = neutral;
  class = physical;
  power = pos 40;
  accuracy = pos 100;
  pp = pos 35;
  priority = pos 0;
  crit_stage = pos 0;
  cooldown = pos 0;
  effect = none;
}

abbrev pub two_species : Dex fixed_point.F
two_species = record {
  species =
      λ n. if eq_ℤ n (pos 1) then some sprout else if eq_ℤ n (pos 2) then some bloom else none;
  skills = Dict.put Dict.empty "tackle" tackle;
}
