-- ===== src/Engine/Damage/Laws.antt =====
-- The outcomes of ComputeDamage.
use pokecatch.Prelude.{
  ℕ, ◌≤◌, ◌&&◌, ◌≡◌, ◌⊎◌, inl, inr, Bool, true, false, not, ◌||◌, ◌==◌, arith, Bool-cases,
}
use pokecatch.Prelude.Int.{pos, ◌≤ℤ◌, leb_ℤ}
use pokecatch.Prelude.Float.{Float64}
use pokecatch.Types.{is_class, status_only, dual_effectiveness}
use pokecatch.Creatures.Model.{Skill}
use pokecatch.Engine.Rng.{Rng, chance}
use pokecatch.Engine.Battler.{Battler, acc_stage_multiplier}
use pokecatch.Engine.Damage.{compute_damage, accuracy_gate, strike, connect, final_damage}

module _ (fl : Float64) (r : Rng) (attacker defender : Battler) (skill : Skill fl.F) where
  abbrev pub matchup : ℕ
  matchup = dual_effectiveness skill.element defender.species.element1 defender.species.element2

  abbrev pub deals_damage : Bool
  deals_damage = not (is_class skill.class status_only || leb_ℤ skill.power (pos 0))

  -- The accuracy is at most 100, and the roll against it, scaled by the stages, does not hold.
  abbrev pub whiffs : Bool
  whiffs =
      let aim =
        fl.div (acc_stage_multiplier fl attacker.stages.acc)
          (acc_stage_multiplier fl defender.stages.eva) in
      leb_ℤ skill.accuracy (pos 100)
      && not (chance (fl.trunc (fl.mul (fl.of_int skill.accuracy) aim)) r).0

  -- A move of class StatusOnly or of no power draws nothing and deals nothing. Any other misses
  -- and deals nothing exactly when its accuracy is at most 100 and the roll against it, scaled by
  -- the stages of accuracy and evasion, fails; if it does not miss, it deals 0 to a defender that
  -- its element does not affect, and at least 1 to any other.
  pub compute_damage_cases :
      let res = (compute_damage fl r attacker defender skill).0 in
      ((deals_damage ≡ false)
        × (compute_damage fl r attacker defender skill).1 ≡ r
        × (res.damage ≡ pos 0)
        × (res.missed ≡ false))
      ⊎ ((deals_damage ≡ true)
          × (((whiffs ≡ true) × (res.missed ≡ true) × (res.damage ≡ pos 0))
              ⊎ ((whiffs ≡ false)
                  × (res.missed ≡ false)
                  × (res.effectiveness ≡ matchup)
                  × (((matchup ≡ 0) × (res.damage ≡ pos 0))
                      ⊎ ((1 ≤ matchup) × (pos 1 ≤ℤ res.damage))))))
  unfolding compute_damage strike connect final_damage accuracy_gate
  compute_damage_cases =
      elim (Bool-cases (is_class skill.class status_only || leb_ℤ skill.power (pos 0))) [
        | inl e ↦ inl (ground arith, ground arith, ground arith, ground arith)
        | inr e ↦ elim (Bool-cases whiffs) [
          | inl q ↦ inr (ground arith, inl (q, ground arith, ground arith))
          | inr q ↦ elim (Bool-cases (matchup == 0)) [
            | inl z ↦ inr (
              ground arith,
              inr (q, ground arith, ground arith, inl (ground arith, ground arith)),
            )
            | inr z ↦ inr (
              ground arith,
              inr (q, ground arith, ground arith, inr (ground arith, ground arith)),
            )
          ]
        ]
      ]

  pub compute_damage_nonneg : pos 0 ≤ℤ (compute_damage fl r attacker defender skill).0.damage
  compute_damage_nonneg = ground (arith, compute_damage_cases)
