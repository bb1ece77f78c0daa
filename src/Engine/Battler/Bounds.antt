-- ===== src/Engine/Battler/Bounds.antt =====
-- The ranges of a battler's hit points and boost levels.
use pokecatch.Prelude.{◌≡◌, false, arith, if◌then◌else◌}
use pokecatch.Prelude.Int.{
  ℤ, pos, negsuc, ◌+ℤ◌, ◌≤ℤ◌, wrap8_id, int_laws, ◌*ℤ◌, quot, quot_nonneg, *ℤ_nonneg, ltb_ℤ,
}
use pokecatch.Prelude.Float.{Float64}
use pokecatch.Creatures.Model.{Species, Instance}
use pokecatch.Creatures.Stats.{compute_stats, calc_hp}
use pokecatch.Engine.Battler.{StageBlock, Battler, no_stages, clamp_stage, new_battler, fainted}

abbrev pub IsStage : ℤ → Type 0
IsStage s = (negsuc 5 ≤ℤ s) × (s ≤ℤ pos 6)

pub record IsStageBlock (st : StageBlock) : Type 0 where
  pub atk : IsStage st.atk
  pub def : IsStage st.def
  pub spa : IsStage st.spa
  pub spd : IsStage st.spd
  pub spe : IsStage st.spe
  pub acc : IsStage st.acc
  pub eva : IsStage st.eva

-- Hit points between 0 and the maximum, boost levels between -6 and 6.
pub record IsSound (b : Battler) : Type 0 where
  pub low : pos 0 ≤ℤ b.cur_hp
  pub high : b.cur_hp ≤ℤ b.max_hp
  pub boosts : IsStageBlock b.stages

pub no_stages-IsStageBlock : IsStageBlock no_stages
no_stages-IsStageBlock = omega arith

pub clamp_stage-IsStage : (cur delta : ℤ) → IsStage (clamp_stage cur delta)
unfolding clamp_stage
clamp_stage-IsStage cur delta = ground arith

-- The value held to [-6, 6].
abbrev pub held_to_6 : ℤ → ℤ
held_to_6 n = if ltb_ℤ (pos 6) n then pos 6 else if ltb_ℤ n (negsuc 5) then negsuc 5 else n

-- From a boost in range and a delta of at most 6 either way, the int8 sum of clampStage does not
-- wrap, and the new boost is the sum held to [-6, 6].
pub clamp_stage_exact :
    (cur delta : ℤ) → IsStage cur → IsStage delta → clamp_stage cur delta ≡ held_to_6 (cur +ℤ delta)
unfolding clamp_stage
clamp_stage_exact cur delta c d = rw (wrap8_id (cur +ℤ delta) (omega int_laws) (omega int_laws))

-- A creature that is strong enough to have hit points: what the data of a creature satisfies.
pub record IsGrown (sp : Species) (inst : Instance) : Type 0 where
  pub base : pos 0 ≤ℤ sp.base.hp
  pub iv : pos 0 ≤ℤ inst.ivs.hp
  pub ev : pos 0 ≤ℤ inst.evs.hp
  pub level : pos 0 ≤ℤ inst.level

calc_hp_low :
    (base iv ev lvl : ℤ)
    → pos 0 ≤ℤ base
    → pos 0 ≤ℤ iv
    → pos 0 ≤ℤ ev
    → pos 0 ≤ℤ lvl
    → pos 10 ≤ℤ calc_hp base iv ev lvl
unfolding calc_hp
calc_hp_low base iv ev lvl b i e l =
    let q = quot_nonneg ev 4 e in
    let double : pos 0 ≤ℤ pos 2 *ℤ base = *ℤ_nonneg (pos 2) base (omega arith) b in
    let sum : pos 0 ≤ℤ pos 2 *ℤ base +ℤ iv +ℤ quot ev 4 = omega int_laws in
    let c = quot_nonneg _ 100 (*ℤ_nonneg _ lvl sum l) in omega int_laws

-- A creature of non-negative base hit points, IV, EV and level enters a battle able to fight,
-- with hit points of at least 1 and at most its maximum, whatever hit points were stored for it,
-- and with boosts in range.
pub new_battler_fit :
    (fl : Float64) (sp : Species) (inst : Instance)
    → IsGrown sp inst
    → IsSound (new_battler fl sp inst) × (fainted (new_battler fl sp inst) ≡ false)
unfolding new_battler compute_stats
new_battler_fit fl sp inst h =
    let low = calc_hp_low sp.base.hp inst.ivs.hp inst.evs.hp inst.level h.base h.iv h.ev h.level in
    (ground arith, ground arith)
