-- ===== src/Engine/Battler.antt =====
-- services/battle/internal/engine/battler.go: a creature's state in one battle.
pub mod Bounds
use pokecatch.Prelude.{ℕ, String, Bool, true, false, ◌||◌, List, [], ◌∷◌, ◌==◌, if◌then◌else◌}
use pokecatch.Prelude.Int.{ℤ, pos, negsuc, ◌+ℤ◌, ◌-ℤ◌, ltb_ℤ, leb_ℤ, wrap8}
use pokecatch.Prelude.Float.{Float64}
use pokecatch.Types.{
  Element, Stats, DamageClass, special, StatusCondition, burn, paralysis, is_class, is_status,
}
use pokecatch.Creatures.Model.{Species, Instance, PassiveAbility, is_ability}
use pokecatch.Creatures.Stats.{compute_stats}

-- int8 boost levels
pub record StageBlock : Type 0 where
  pub atk : ℤ
  pub def : ℤ
  pub spa : ℤ
  pub spd : ℤ
  pub spe : ℤ
  pub acc : ℤ
  pub eva : ℤ

abbrev pub no_stages : StageBlock
no_stages = record {
  atk = pos 0;
  def = pos 0;
  spa = pos 0;
  spd = pos 0;
  spe = pos 0;
  acc = pos 0;
  eva = pos 0;
}

pub record Battler : Type 0 where
  pub species : Species
  pub inst : Instance
  pub max_hp : ℤ
  pub cur_hp : ℤ
  pub stats : Stats
  pub status : StatusCondition
  pub status_ctr : ℤ
  pub stages : StageBlock
  -- [4]int8
  pub cooldowns : List ℤ
  pub flinched : Bool

abbrev pub fainted : Battler → Bool
fainted b = leb_ℤ b.cur_hp (pos 0)

-- `cur` unless it is out of range.
abbrev entry_hp : ℤ → ℤ → ℤ
entry_hp cur hp = if leb_ℤ cur (pos 0) || ltb_ℤ hp cur then hp else cur

unfoldable pub clamp_stage : ℤ → ℤ → ℤ
clamp_stage cur delta =
    let v = wrap8 (cur +ℤ delta) in
    if ltb_ℤ (pos 6) v then pos 6 else if ltb_ℤ v (negsuc 5) then negsuc 5 else v

abbrev pub has_ability : Battler → PassiveAbility → Bool
has_ability b a = is_ability b.inst.ability a

abbrev pub has_element : Battler → Element → Bool
has_element b e = b.species.element1 == e || b.species.element2 == e

module _ (fl : Float64) where
  open fl use {F, of_int, ratio, mul, div}

  unfoldable pub new_battler : Species → Instance → Battler
  new_battler sp inst =
      let stats = compute_stats fl sp inst in
      record {
        species = sp;
        inst = inst;
        max_hp = stats.hp;
        cur_hp = entry_hp inst.current_hp stats.hp;
        stats = stats;
        status = inst.status;
        status_ctr = pos 0;
        stages = no_stages;
        cooldowns = pos 0 ∷ pos 0 ∷ pos 0 ∷ pos 0 ∷ [];
        flinched = false;
      }

  unfoldable pub stage_multiplier : ℤ → F
  stage_multiplier s =
      if leb_ℤ (pos 0) s
      then div (of_int (pos 2 +ℤ s)) (ratio 2 1)
      else div (ratio 2 1) (of_int (pos 2 -ℤ s))

  unfoldable pub acc_stage_multiplier : ℤ → F
  acc_stage_multiplier s =
      if leb_ℤ (pos 0) s
      then div (of_int (pos 3 +ℤ s)) (ratio 3 1)
      else div (ratio 3 1) (of_int (pos 3 -ℤ s))

  -- Halved while the battler has the status.
  abbrev pub halved_by : StatusCondition → Battler → F → F
  halved_by s b x = if is_status b.status s then mul x (ratio 1 2) else x

  unfoldable pub eff_attack : DamageClass → Battler → F
  unfolding stage_multiplier
  eff_attack class b =
      if is_class class special
      then mul (of_int b.stats.sp_attack) (stage_multiplier b.stages.spa)
      else halved_by burn b (mul (of_int b.stats.attack) (stage_multiplier b.stages.atk))

  unfoldable pub eff_defense : DamageClass → Battler → F
  unfolding stage_multiplier
  eff_defense class b =
      if is_class class special
      then mul (of_int b.stats.sp_defense) (stage_multiplier b.stages.spd)
      else mul (of_int b.stats.defense) (stage_multiplier b.stages.def)

  unfoldable pub eff_speed : Battler → F
  unfolding stage_multiplier
  eff_speed b = halved_by paralysis b (mul (of_int b.stats.speed) (stage_multiplier b.stages.spe))
