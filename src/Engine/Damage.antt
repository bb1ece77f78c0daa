-- ===== src/Engine/Damage.antt =====
-- services/battle/internal/engine/damage.go. The type multiplier is held in quarters and the STAB
-- factor in halves, exactly; every other factor is a double.
pub mod Laws
use pokecatch.Prelude.{ℕ, ◌*◌, Bool, true, false, not, ◌&&◌, ◌||◌, ◌==◌, if◌then◌else◌}
use pokecatch.Prelude.Int.{ℤ, pos, negsuc, ◌+ℤ◌, ◌*ℤ◌, ltb_ℤ, leb_ℤ}
use pokecatch.Prelude.Float.{Float64}
use pokecatch.Types.{
  fire, water, grass, DamageClass, physical, special, status_only, burn, is_class,
  dual_effectiveness,
}
use pokecatch.Creatures.Model.{Skill, blaze, torrent, overgrow, iron_hide, adaptable}
use pokecatch.Engine.Rng.{Rng, chance, float}
use pokecatch.Engine.Battler.{
  Battler, has_ability, has_element, halved_by, stage_multiplier, acc_stage_multiplier, eff_attack,
  eff_defense,
}

pub record DamageResult : Type 0 where
  pub damage : ℤ
  pub crit : Bool
  -- quarters
  pub effectiveness : ℕ
  -- halves
  pub stab : ℕ
  pub missed : Bool

-- critChanceByStage at the clamped tier.
unfoldable pub crit_chance : ℤ → ℤ
crit_chance stage =
    if leb_ℤ stage (pos 0)
    then pos 4
    else if leb_ℤ stage (pos 1)
    then pos 12
    else if leb_ℤ stage (pos 2)
    then pos 50
    else pos 100

-- On a critical hit a negative attack stage, and a positive defence stage, counts as 0.
abbrev raised : ℤ → ℤ
raised s = if ltb_ℤ s (pos 0) then pos 0 else s

abbrev lowered : ℤ → ℤ
lowered s = if ltb_ℤ (pos 0) s then pos 0 else s

abbrev missed_by : Bool × Rng → Bool × Rng
missed_by (hits, r) = (not hits, r)

module _ (fl : Float64) where
  open fl use {F, of_int, ratio, add, mul, div, trunc, round}

  crit_attack : DamageClass → Battler → F
  crit_attack class b =
      if is_class class special
      then mul (of_int b.stats.sp_attack) (stage_multiplier fl (raised b.stages.spa))
      else halved_by fl burn b
          (mul (of_int b.stats.attack) (stage_multiplier fl (raised b.stages.atk)))

  crit_defense : DamageClass → Battler → F
  crit_defense class b =
      if is_class class special
      then mul (of_int b.stats.sp_defense) (stage_multiplier fl (lowered b.stages.spd))
      else mul (of_int b.stats.defense) (stage_multiplier fl (lowered b.stages.def))

  offensive_ability_mod : Battler → Skill F → F
  offensive_ability_mod b skill =
      let low = leb_ℤ (b.cur_hp *ℤ pos 3) b.max_hp in
      if (has_ability b blaze && skill.element == fire && low)
        || (has_ability b torrent && skill.element == water && low)
        || (has_ability b overgrow && skill.element == grass && low)
      then ratio 3 2
      else ratio 1 1

  defensive_ability_mod : Battler → Skill F → F
  defensive_ability_mod b skill =
      if has_ability b iron_hide && is_class skill.class physical then ratio 3 4 else ratio 1 1

  -- The accuracy gate: whether the move misses.
  accuracy_gate : Rng → Battler → Battler → Skill F → Bool × Rng
  accuracy_gate r attacker defender skill =
      if leb_ℤ skill.accuracy (pos 100)
      then missed_by (chance (trunc (mul (of_int skill.accuracy) mult)) r)
      else (false, r)
    where
      mult : F
      mult =
          div (acc_stage_multiplier fl attacker.stages.acc)
            (acc_stage_multiplier fl defender.stages.eva)

  -- floor(floor(2*L/5 + 2) * Power * A/D / 50) + 2
  base_damage : Bool → Battler → Battler → Skill F → F
  unfolding crit_attack crit_defense
  base_damage crit attacker defender skill =
      let atk =
        if crit then crit_attack skill.class attacker else eff_attack fl skill.class attacker in
      let def =
        if crit then crit_defense skill.class defender else eff_defense fl skill.class defender in
      let level = of_int attacker.inst.level in
      let scale = of_int (trunc (div (mul (ratio 2 1) level) (ratio 5 1)) +ℤ pos 2) in
      let base = div (div (mul (mul scale (of_int skill.power)) atk) def) (ratio 50 1) in
      of_int (trunc base +ℤ pos 2)

  unfoldable pub stab_of : Battler → Skill F → ℕ
  stab_of attacker skill =
      if has_element attacker skill.element
      then if has_ability attacker adaptable then 4 else 3
      else 2

  -- The base with every factor but the random spread, in the source's order.
  scaled_damage : Bool → ℕ → ℕ → Battler → Battler → Skill F → F
  unfolding base_damage offensive_ability_mod defensive_ability_mod
  scaled_damage crit stab eff attacker defender skill =
      let base = base_damage crit attacker defender skill in
      let with_stab =
        if has_element attacker skill.element then mul base (ratio stab 2) else base in
      let with_type = mul with_stab (ratio eff 4) in
      let with_crit = if crit then mul with_type (ratio 3 2) else with_type in
      mul (mul with_crit (offensive_ability_mod attacker skill))
        (defensive_ability_mod defender skill)

  -- The rounded damage of a connecting hit, at least 1.
  final_damage : F → F → ℤ
  final_damage dmg spread = let n = round (mul dmg spread) in if ltb_ℤ n (pos 1) then pos 1 else n

  -- The hit after the accuracy gate.
  connect : Rng → Battler → Battler → Skill F → DamageResult × Rng
  unfolding scaled_damage final_damage stab_of
  connect r attacker defender skill =
      let (crit, r1) = chance (crit_chance skill.crit_stage) r in
      let stab = stab_of attacker skill in
      let eff =
        dual_effectiveness skill.element defender.species.element1 defender.species.element2 in
      let (u, r2) = float fl r1 in
      let spread = add (ratio 85 100) (mul u (ratio 15 100)) in
      if eff == 0
      then (
        record { damage = pos 0; crit = crit; effectiveness = 0; stab = stab; missed = false },
        r1,
      )
      else (
        record {
          damage = final_damage (scaled_damage crit stab eff attacker defender skill) spread;
          crit = crit;
          effectiveness = eff;
          stab = stab;
          missed = false;
        },
        r2,
      )

  -- The end of the gate, and the hit.
  strike : Bool × Rng → Battler → Battler → Skill F → DamageResult × Rng
  unfolding connect
  strike (true, r) attacker defender skill =
      (record { damage = pos 0; crit = false; effectiveness = 4; stab = 2; missed = true }, r)
  strike (false, r) attacker defender skill = connect r attacker defender skill

  unfoldable pub compute_damage : Rng → Battler → Battler → Skill F → DamageResult × Rng
  unfolding accuracy_gate strike
  compute_damage r attacker defender skill =
      if is_class skill.class status_only || leb_ℤ skill.power (pos 0)
      then (record { damage = pos 0; crit = false; effectiveness = 4; stab = 2; missed = false }, r)
      else strike (accuracy_gate r attacker defender skill) attacker defender skill
