-- ===== src/Engine/Battle/Exchange/Bounds.antt =====
-- An attack keeps both battlers sound.
use Prim.Native.String.{◌++◌ as str_append}
use pokecatch.Prelude.{
  ◌++◌, String, refl, inl, inr, Bool, true, false, Option, none, some, List, [], ◌∷◌, ◌&&◌, arith,
  Bool-cases, if◌then◌else◌,
}
use pokecatch.Prelude.Int.{ℤ, pos, ◌+ℤ◌, ◌-ℤ◌, ◌≤ℤ◌, +ℤ_parts, -ℤ_parts, ltb_ℤ}
use pokecatch.Prelude.Float.{Float64, ScalesNonneg}
use pokecatch.Types.{is_class, status_only, StatusCondition, paralysis}
use pokecatch.Engine.Rng.{Rng, chance}
use pokecatch.Creatures.Model.{Skill, SkillEffect}
use pokecatch.Engine.Battler.{Battler}
use pokecatch.Engine.Battler.Bounds.{IsSound}
use pokecatch.Engine.Status.{pre_move_gate}
use pokecatch.Engine.Status.Laws.{
  SameBody, SameBody-IsSound, apply_status-SameBody, set_sleep-SameBody, pre_move_gate-SameBody,
  with_hp-IsSound,
}
use pokecatch.Engine.Damage.{DamageResult, compute_damage}
use pokecatch.Engine.Damage.Laws.{compute_damage_nonneg}
use pokecatch.Engine.Battle.Exchange.{
  Duel, Seat, Env, cap_at, floor_at_0, is_immune_by_ability, cooled, event, named, gate_event,
  cooldown_at, skill_for, emit, inflict, or_default, Event, static_rider, status_rider, stat_riders,
  heal_rider, recoil_rider, effect_riders, apply_riders, deal_damage, faint_events, hit, attack,
  use_skill, exchange, target_of, with_target,
}
use pokecatch.Engine.Battle.Actions.Bounds.{apply_stat_stage-IsSound}

pub record BothSound (x : Duel) : Type 0 where
  pub attacker : IsSound x.attacker
  pub defender : IsSound x.defender

target_of-IsSound : (self : Bool) (x : Duel) → BothSound x → IsSound (target_of self x)
target_of-IsSound true x h = h.attacker
target_of-IsSound false x h = h.defender

with_target-BothSound :
    (self : Bool) (x : Duel) (b : Battler)
    → BothSound x
    → IsSound b
    → BothSound (with_target self x b)
with_target-BothSound true x b h k = record { attacker = k; defender = h.defender }
with_target-BothSound false x b h k = record { attacker = h.attacker; defender = k }

emit-BothSound : (x : Duel) (e : Event) → BothSound x → BothSound (emit x e)
emit-BothSound x e h = record { attacker = h.attacker; defender = h.defender }

cooled-SameBody : (c slot : ℤ) (b : Battler) → SameBody b (cooled c slot b)
unfolding cooled
cooled-SameBody c slot b = ground arith

module _ {fl : Float64} (env : Env fl) (seat : Seat) where
  static_rider-BothSound :
      (skill : Skill fl.F) (res : DamageResult) (x : Duel)
      → BothSound x
      → BothSound (static_rider env seat skill res x)
  unfolding static_rider
  static_rider-BothSound skill res x h = record {
    attacker =
        SameBody-IsSound {b = x.attacker}
          (ground (arith, apply_status-SameBody paralysis x.attacker)) h.attacker;
    defender = ground (arith, h.defender);
  }

  inflict-IsSound :
      (s : StatusCondition) (r : Rng) (b : Battler) → IsSound b → IsSound (inflict s r b).1
  unfolding inflict
  inflict-IsSound s r b h =
      SameBody-IsSound {b = b} (ground (arith, apply_status-SameBody s b, set_sleep-SameBody r b)) h

  status_rider-BothSound :
      (eff : SkillEffect fl.F) (x : Duel) → BothSound x → BothSound (status_rider env seat eff x)
  unfolding status_rider
  status_rider-BothSound eff x h =
      let c = chance (or_default eff.status_chance (pos 100)) x.rng in
      let i = inflict eff.status c.1 (target_of eff.target_self x) in
      let hurt : IsSound i.1 =
        inflict-IsSound eff.status c.1 _ (target_of-IsSound eff.target_self x h) in
      let both =
        with_target-BothSound eff.target_self (record x { rng = i.2 }) i.1
          (record { attacker = h.attacker; defender = h.defender }) hurt in
      record { attacker = ground (arith, h, both); defender = ground (arith, h, both) }

  stat_riders-BothSound :
      (self : Bool) (changes : List (String × ℤ)) (x : Duel)
      → BothSound x
      → BothSound (stat_riders seat self changes x)
  unfolding stat_riders
  stat_riders-BothSound self [] x h = h
  stat_riders-BothSound self ((stat, delta) ∷ changes) x h = stat_riders-BothSound self changes _ (
      emit-BothSound _ _ (
        with_target-BothSound self x _ h
          (apply_stat_stage-IsSound _ stat delta (target_of-IsSound self x h))))

  module _ (law : ScalesNonneg fl) where
    heal_rider-BothSound :
        (skill : Skill fl.F) (eff : SkillEffect fl.F) (res : DamageResult) (x : Duel)
        → pos 0 ≤ℤ res.damage
        → BothSound x
        → BothSound (heal_rider env seat skill eff res x)
    unfolding heal_rider
    heal_rider-BothSound skill eff res x d h =
        elim (Bool-cases (fl.lt (fl.ratio 0 1) eff.heal_frac)) [
          | inr e ↦ rw (e, heal_rider) h
          | inl e ↦
              let a = x.attacker in
              let base : ℤ = if is_class skill.class status_only then a.max_hp else res.damage in
              let low : pos 0 ≤ℤ base = ground (arith, h.attacker) in
              let heal : ℤ = fl.trunc (fl.mul (fl.of_int base) eff.heal_frac) in
              let gain = law base eff.heal_frac low e in
              rw (e, heal_rider)
                (record {
                  attacker =
                      with_hp-IsSound a _ (cap_at a.max_hp (a.cur_hp +ℤ heal)) h.attacker
                        (ground (arith, h.attacker, gain, +ℤ_parts a.cur_hp heal)) refl refl refl;
                  defender = h.defender;
                })
        ]

    recoil_rider-BothSound :
        (eff : SkillEffect fl.F) (res : DamageResult) (x : Duel)
        → BothSound x
        → BothSound (recoil_rider env seat eff res x)
    unfolding recoil_rider
    recoil_rider-BothSound eff res x h =
        elim (Bool-cases (fl.lt (fl.ratio 0 1) eff.recoil_frac && ltb_ℤ (pos 0) res.damage)) [
          | inr e ↦ rw (e, recoil_rider) h
          | inl e ↦
              let a = x.attacker in
              let recoil : ℤ = fl.trunc (fl.mul (fl.of_int res.damage) eff.recoil_frac) in
              let loss = law res.damage eff.recoil_frac (ground arith) (ground arith) in
              rw (e, recoil_rider)
                (record {
                  attacker =
                      with_hp-IsSound a _ (floor_at_0 (a.cur_hp -ℤ recoil)) h.attacker
                        (ground (arith, h.attacker, loss, -ℤ_parts a.cur_hp recoil)) refl refl refl;
                  defender = h.defender;
                })
        ]

    deal_damage-BothSound :
        (res : DamageResult) (x : Duel) → BothSound x → BothSound (deal_damage seat res x)
    unfolding deal_damage
    deal_damage-BothSound res x h = elim (Bool-cases (ltb_ℤ (pos 0) res.damage)) [
      | inr e ↦ rw (e, deal_damage) h
      | inl e ↦
          let d = x.defender in
          rw (e, deal_damage)
            (record {
              attacker = h.attacker;
              defender =
                  with_hp-IsSound d _ (floor_at_0 (d.cur_hp -ℤ res.damage)) h.defender
                    (ground (arith, h.defender, -ℤ_parts d.cur_hp res.damage)) refl refl refl;
            })
    ]

    effect_riders-BothSound :
        (skill : Skill fl.F) (o : Option (SkillEffect fl.F)) (res : DamageResult) (x : Duel)
        → pos 0 ≤ℤ res.damage
        → BothSound x
        → BothSound (effect_riders env seat skill o res x)
    unfolding effect_riders
    effect_riders-BothSound skill none res x d h = h
    effect_riders-BothSound skill (some eff) res x d h = recoil_rider-BothSound eff res _ (
        heal_rider-BothSound skill eff res _ d (
          stat_riders-BothSound eff.target_self eff.stat_changes _
            (status_rider-BothSound eff _ h)))

    apply_riders-BothSound :
        (skill : Skill fl.F) (res : DamageResult) (x : Duel)
        → pos 0 ≤ℤ res.damage
        → BothSound x
        → BothSound (apply_riders env seat skill res x)
    unfolding apply_riders
    apply_riders-BothSound skill res x d h =
        effect_riders-BothSound skill skill.effect res _ d (static_rider-BothSound skill res x h)

    hit-BothSound :
        (skill : Skill fl.F) (res : DamageResult) (x : Duel)
        → pos 0 ≤ℤ res.damage
        → BothSound x
        → BothSound (hit env seat skill res x)
    unfolding hit faint_events
    hit-BothSound skill res x d h =
        let y =
          apply_riders-BothSound skill res (deal_damage seat res x) d
            (deal_damage-BothSound res x h) in
        elim (Bool-cases res.missed) [
          | inl e ↦ simp (e, hit) (emit-BothSound x _ h)
          | inr e ↦ simp (e, hit) (record { attacker = y.attacker; defender = y.defender })
        ]

    attack-BothSound :
        (skill : Skill fl.F) (x : Duel) → BothSound x → BothSound (attack env seat skill x)
    unfolding attack
    attack-BothSound skill x h = elim (Bool-cases (is_immune_by_ability x.defender skill)) [
      | inl e ↦ rw (e, attack) (emit-BothSound x _ h)
      | inr e ↦
          rw (e, attack)
            (hit-BothSound skill (compute_damage fl x.rng x.attacker x.defender skill).0
              (record x { rng = (compute_damage fl x.rng x.attacker x.defender skill).1 })
              (compute_damage_nonneg fl x.rng x.attacker x.defender skill)
              (record { attacker = h.attacker; defender = h.defender }))
    ]

    use_skill-BothSound :
        (slot : ℤ) (o : Option (Skill fl.F)) (x : Duel)
        → BothSound x
        → BothSound (use_skill env seat slot o x)
    unfolding use_skill
    use_skill-BothSound slot none x h = emit-BothSound x _ h
    use_skill-BothSound slot (some skill) x h =
        let a = cooled skill.cooldown slot x.attacker in
        let body : SameBody x.attacker a = cooled-SameBody skill.cooldown slot x.attacker in
        let y =
          emit (record x { attacker = a })
            (event "move" seat (named a (str_append " used " skill.name))) in
        elim (Bool-cases (ltb_ℤ (pos 0) (cooldown_at x.attacker slot))) [
          | inl e ↦ rw (e, use_skill) (emit-BothSound x _ h)
          | inr e ↦
              rw (e, use_skill)
                (attack-BothSound skill y
                  (record { attacker = SameBody-IsSound body h.attacker; defender = h.defender }))
        ]

    -- If a non-negative int times a positive double truncates to a non-negative int, a move of
    -- any slot, with all its riders (status, boosts, healing, recoil), keeps the hit points of
    -- both battlers between 0 and the maximum and their boosts between -6 and 6.
    pub exchange-BothSound :
        (slot : ℤ) (x : Duel) → BothSound x → BothSound (exchange env seat slot x)
    unfolding exchange
    exchange-BothSound slot x h =
        let g = pre_move_gate x.attacker x.rng in
        let y = record x { attacker = g.battler; rng = g.rng; log = x.log ++ gate_event seat g } in
        let k : BothSound y = record {
          attacker = SameBody-IsSound (pre_move_gate-SameBody x.attacker x.rng) h.attacker;
          defender = h.defender;
        } in
        elim (Bool-cases (pre_move_gate x.attacker x.rng).can_act) [
          | inl e ↦ simp (e, exchange) (use_skill-BothSound slot (skill_for env g.battler slot) y k)
          | inr e ↦ simp (e, exchange) k
        ]
