-- ===== src/Engine/Battle/Exchange.antt =====
-- services/battle/internal/engine/battle.go: executeMove and applyRiders, as a function of the two
-- active battlers and the generator. The battlers stand on different sides, so the pointers of the
-- source never alias. Also registry.go.
pub mod Bounds
use Prim.Native.String.{◌++◌ as str_append}
use pokecatch.Prelude.{
  ℕ, suc, zero, ◌+◌, ◌<◌, String, Bool, true, false, not, ◌&&◌, ◌||◌, Option, none, some, List, [],
  ◌∷◌, ◌++◌, get_elem?, set, length, ltb, ◌==◌, str_eq, if◌then◌else◌,
}
use pokecatch.Prelude.Int.{ℤ, pos, negsuc, ◌+ℤ◌, ◌-ℤ◌, ltb_ℤ, leb_ℤ, eq_ℤ}
use pokecatch.Prelude.Float.{Float64}
use pokecatch.Prelude.Dict
use pokecatch.Prelude.Dict.{Dict}
use pokecatch.Types.{
  earth, electric, physical, status_only, is_class, StatusCondition, healthy, sleep, paralysis,
  is_status, status_string,
}
use pokecatch.Creatures.Model.{Skill, SkillEffect, Species, static, levitate, insulate}
use pokecatch.Engine.Rng.{Rng, chance}
use pokecatch.Engine.Battler.{Battler, StageBlock, fainted, has_ability, clamp_stage}
use pokecatch.Engine.Status.{Gate, apply_status, set_sleep, pre_move_gate}
use pokecatch.Engine.Damage.{DamageResult, compute_damage}
pub use pokecatch.Engine.Battle.Actions.{
  Seat, first, second, other, ActionKind, act_move, act_switch, unknown, MoveAction, Event, event,
  named, or_default, apply_stat_stage,
}

-- The two active battlers, the generator and the events so far, in an attack by the side `seat`.
pub record Duel : Type 0 where
  pub rng : Rng
  pub attacker : Battler
  pub defender : Battler
  pub log : List Event

abbrev emit : Duel → Event → Duel
emit x e = record x { log = x.log ++ e ∷ [] }

module _ {F : Type 0} where
  unfoldable pub is_immune_by_ability : Battler → Skill F → Bool
  is_immune_by_ability def skill =
      (has_ability def levitate && skill.element == earth)
      || (has_ability def insulate && skill.element == electric)

-- The static tables of registry.go; `none` is a registry that was never set.
pub record Env (fl : Float64) : Type 0 where
  pub registry : Option (Dict (Skill fl.F))

abbrev at_slot : List String → ℤ → Option String
at_slot ids (pos n) = get_elem? ids n
at_slot ids (negsuc n) = none

-- The target of a rider, and the exchange with the target replaced.
abbrev target_of : Bool → Duel → Battler
target_of self x = if self then x.attacker else x.defender

abbrev target_seat : Bool → Seat → Seat
target_seat self seat = if self then seat else other seat

abbrev with_target : Bool → Duel → Battler → Duel
with_target self x b = if self then record x { attacker = b } else record x { defender = b }

-- SetSleep for sleep, applyStatus for the others.
inflict : StatusCondition → Rng → Battler → Bool × Battler × Rng
inflict s r b =
    let (ok, b') = apply_status s b in if is_status s sleep then set_sleep r b else (ok, b', r)

stat_riders : Seat → Bool → List (String × ℤ) → Duel → Duel
stat_riders seat self [] x = x
stat_riders seat self ((stat, delta) ∷ changes) x = stat_riders seat self changes (
    emit (with_target self x (apply_stat_stage (target_of self x) stat delta)) (
      event "stat" (target_seat self seat)
        (named (target_of self x) (str_append " " (str_append stat " changed")))))

abbrev cap_at : ℤ → ℤ → ℤ
cap_at max n = if ltb_ℤ max n then max else n

abbrev floor_at_0 : ℤ → ℤ
floor_at_0 n = if ltb_ℤ n (pos 0) then pos 0 else n

-- The damage of a hit and its events.
abbrev crit_event : Seat → Bool → List Event
crit_event seat crit = if crit then event "crit" seat "A critical hit!" ∷ [] else []

abbrev type_event : Seat → ℕ → List Event
type_event seat quarters =
    if ltb 4 quarters
    then event "effective" seat "It's super effective!" ∷ []
    else if ltb quarters 4 && ltb 0 quarters
    then event "effective" seat "It's not very effective..." ∷ []
    else []

deal_damage : Seat → DamageResult → Duel → Duel
deal_damage seat res x =
    if ltb_ℤ (pos 0) res.damage
    then (let d = x.defender in
        record x {
          defender = record d { cur_hp = floor_at_0 (d.cur_hp -ℤ res.damage) };
          log =
              x.log
              ++ record {
                kind = "damage";
                side = other seat;
                text = named d " took damage";
                amount = res.damage;
              }
                ∷ (crit_event (other seat) res.crit ++ type_event (other seat) res.effectiveness);
        })
    else x

-- The faint events that end the attack.
faint_events : Seat → Duel → Duel
faint_events seat x = record x {
  log =
      x.log
      ++ ((if fainted x.defender
            then event "faint" (other seat) (named x.defender " fainted") ∷ []
            else [])
          ++ (if fainted x.attacker
              then event "faint" seat (named x.attacker " fainted") ∷ []
              else []));
}

abbrev cooldown_at : Battler → ℤ → ℤ
cooldown_at b (pos n) = elim (get_elem? b.cooldowns n) [ none ↦ pos 0 | some c ↦ c ]
cooldown_at b (negsuc n) = pos 0

abbrev put_cooldown : Battler → ℤ → ℤ → Battler
put_cooldown b (pos n) c = record b { cooldowns = set b.cooldowns n c }
put_cooldown b (negsuc n) c = b

-- The attacker with the skill's cooldown, if it has one, in its slot.
cooled : ℤ → ℤ → Battler → Battler
cooled cooldown slot b = if ltb_ℤ (pos 0) cooldown then put_cooldown b slot cooldown else b

abbrev gate_event : Seat → Gate → List Event
gate_event seat g =
    if str_eq g.message ""
    then []
    else event "status" seat (named g.battler (str_append " " g.message)) ∷ []

module _ {fl : Float64} (env : Env fl) where
  open fl use {F, of_int, ratio, mul, trunc, lt}

  abbrev lookup_skill : Option (Dict (Skill F)) → Option String → Option (Skill F)
  lookup_skill none id = none
  lookup_skill (some reg) none = none
  lookup_skill (some reg) (some id) = if str_eq id "" then none else Dict.get reg id

  -- skillFor
  unfoldable pub skill_for : Battler → ℤ → Option (Skill F)
  skill_for b slot = lookup_skill env.registry (at_slot b.inst.skill_ids slot)

  -- The Static ability of the defender.
  static_rider : Seat → Skill F → DamageResult → Duel → Duel
  static_rider seat skill res x =
      if has_ability x.defender static && is_class skill.class physical && ltb_ℤ (pos 0) res.damage
      then (let (strikes, r) = chance (pos 30) x.rng in
          let (took, a) = apply_status paralysis x.attacker in
          if strikes
          then (if took
              then emit (record x { rng = r; attacker = a })
                  (event "status" seat (named x.attacker " was paralyzed by Static"))
              else record x { rng = r })
          else record x { rng = r })
      else x

  status_rider : Seat → SkillEffect F → Duel → Duel
  unfolding inflict
  status_rider seat eff x =
      if is_status eff.status healthy
      then x
      else (let (strikes, r) = chance (or_default eff.status_chance (pos 100)) x.rng in
          let (ok, b, r') = inflict eff.status r (target_of eff.target_self x) in
          if not strikes
          then record x { rng = r }
          else if ok
          then emit (with_target eff.target_self (record x { rng = r' }) b) (
              event "status" (target_seat eff.target_self seat)
                (named b (str_append " is now " (status_string eff.status))))
          else record x { rng = r' })

  heal_rider : Seat → Skill F → SkillEffect F → DamageResult → Duel → Duel
  heal_rider seat skill eff res x =
      if lt (ratio 0 1) eff.heal_frac
      then (let a = x.attacker in
          let base = if is_class skill.class status_only then a.max_hp else res.damage in
          let heal = trunc (mul (of_int base) eff.heal_frac) in
          emit (record x { attacker = record a { cur_hp = cap_at a.max_hp (a.cur_hp +ℤ heal) } })
            (record { kind = "heal"; side = seat; text = named a " recovered HP"; amount = heal }))
      else x

  recoil_rider : Seat → SkillEffect F → DamageResult → Duel → Duel
  recoil_rider seat eff res x =
      if lt (ratio 0 1) eff.recoil_frac && ltb_ℤ (pos 0) res.damage
      then (let a = x.attacker in
          let recoil = trunc (mul (of_int res.damage) eff.recoil_frac) in
          emit (record x { attacker = record a { cur_hp = floor_at_0 (a.cur_hp -ℤ recoil) } })
            (record {
              kind = "recoil";
              side = seat;
              text = named a " is hurt by recoil";
              amount = recoil;
            }))
      else x

  effect_riders : Seat → Skill F → Option (SkillEffect F) → DamageResult → Duel → Duel
  effect_riders seat skill none res x = x
  effect_riders seat skill (some eff) res x = recoil_rider seat eff res (
      heal_rider seat skill eff res
        (stat_riders seat eff.target_self eff.stat_changes (status_rider seat eff x)))

  pub apply_riders : Seat → Skill F → DamageResult → Duel → Duel
  apply_riders seat skill res x =
      effect_riders seat skill skill.effect res (static_rider seat skill res x)

  hit : Seat → Skill F → DamageResult → Duel → Duel
  unfolding deal_damage faint_events apply_riders
  hit seat skill res x =
      if res.missed
      then emit x (event "miss" seat (named x.attacker "'s attack missed"))
      else faint_events seat (apply_riders seat skill res (deal_damage seat res x))

  -- From the immunity test on.
  attack : Seat → Skill F → Duel → Duel
  unfolding hit
  attack seat skill x =
      if is_immune_by_ability x.defender skill
      then emit x (event "immune" (other seat) (named x.defender " is unaffected"))
      else (let (res, r) = compute_damage fl x.rng x.attacker x.defender skill in
          hit seat skill res (record x { rng = r }))

  -- From the choice of the skill on.
  use_skill : Seat → ℤ → Option (Skill F) → Duel → Duel
  unfolding attack cooled
  use_skill seat slot none x = emit x (event "fizzle" seat "no usable skill in slot")
  use_skill seat slot (some skill) x =
      if ltb_ℤ (pos 0) (cooldown_at x.attacker slot)
      then emit x (event "fizzle" seat "no usable skill in slot")
      else (let a = cooled skill.cooldown slot x.attacker in
          attack seat skill (
            emit (record x { attacker = a })
              (event "move" seat (named a (str_append " used " skill.name)))))

  -- executeMove
  pub exchange : Seat → ℤ → Duel → Duel
  unfolding use_skill
  exchange seat slot x =
      let g = pre_move_gate x.attacker x.rng in
      let y = record x { attacker = g.battler; rng = g.rng; log = x.log ++ gate_event seat g } in
      if not g.can_act then y else use_skill seat slot (skill_for g.battler slot) y
