-- ===== src/Engine/Battle/Actions/Bounds.antt =====
-- The boosts of services/battle/internal/engine/battle.go keep their range.
use pokecatch.Prelude.{String, Option, none, some, arith}
use pokecatch.Prelude.Int.{ℤ}
use pokecatch.Engine.Battler.{Battler, StageBlock}
use pokecatch.Engine.Battler.Bounds.{IsSound, IsStageBlock, clamp_stage-IsStage}
use pokecatch.Engine.Battle.Actions.{
  Stat, attack_stat, defense_stat, sp_attack_stat, sp_defense_stat, speed_stat, accuracy_stat,
  evasion_stat, stat_of, boost, apply_stat_stage,
}

boost-IsStageBlock :
    (o : Option Stat) (st : StageBlock) (delta : ℤ)
    → IsStageBlock st
    → IsStageBlock (boost o st delta)
unfolding boost
boost-IsStageBlock none st delta h = h
boost-IsStageBlock (some attack_stat) st delta h = ground (arith, clamp_stage-IsStage st.atk delta)
boost-IsStageBlock (some defense_stat) st delta h = ground (arith, clamp_stage-IsStage st.def delta)
boost-IsStageBlock (some sp_attack_stat) st delta h =
    ground (arith, clamp_stage-IsStage st.spa delta)
boost-IsStageBlock (some sp_defense_stat) st delta h =
    ground (arith, clamp_stage-IsStage st.spd delta)
boost-IsStageBlock (some speed_stat) st delta h = ground (arith, clamp_stage-IsStage st.spe delta)
boost-IsStageBlock (some accuracy_stat) st delta h =
    ground (arith, clamp_stage-IsStage st.acc delta)
boost-IsStageBlock (some evasion_stat) st delta h = ground (arith, clamp_stage-IsStage st.eva delta)

pub apply_stat_stage-IsSound :
    (b : Battler) (stat : String) (delta : ℤ) → IsSound b → IsSound (apply_stat_stage b stat delta)
unfolding apply_stat_stage
apply_stat_stage-IsSound b stat delta h = record {
  low = h.low;
  high = h.high;
  boosts = boost-IsStageBlock (stat_of stat) b.stages delta h.boosts;
}
