-- ===== src/Engine/Battle/Actions.antt =====
-- services/battle/internal/engine/battle.go: the actions and events of a battle, and applyStatStage.
pub mod Bounds
use Prim.Native.String.{◌++◌ as str_append}
use pokecatch.Prelude.{String, Option, none, some, str_eq, if◌then◌else◌}
use pokecatch.Prelude.Int.{ℤ, pos, eq_ℤ}
use pokecatch.Engine.Battler.{Battler, StageBlock, clamp_stage}

-- The index of a side: 0 or 1.
pub data Seat : Type 0 where
  first second : Seat

-- 1 - side
abbrev pub other : Seat → Seat
other first = second
other second = first

pub data ActionKind : Type 0 where
  act_move act_switch unknown : ActionKind

pub record MoveAction : Type 0 where
  pub kind : ActionKind
  pub skill_slot : ℤ
  pub switch_to : ℤ

pub record Event : Type 0 where
  pub kind : String
  pub side : Seat
  pub text : String
  pub amount : ℤ

abbrev pub event : String → Seat → String → Event
event kind side text = record { kind = kind; side = side; text = text; amount = pos 0 }

abbrev pub named : Battler → String → String
named b text = str_append b.species.name text

-- orDefault
abbrev pub or_default : ℤ → ℤ → ℤ
or_default v d = if eq_ℤ v (pos 0) then d else v

-- The cases of applyStatStage's switch.
pub data Stat : Type 0 where
  attack_stat defense_stat sp_attack_stat sp_defense_stat : Stat
  speed_stat accuracy_stat evasion_stat : Stat

unfoldable pub stat_of : String → Option Stat
stat_of stat =
    if str_eq stat "attack"
    then some attack_stat
    else if str_eq stat "defense"
    then some defense_stat
    else if str_eq stat "sp_attack"
    then some sp_attack_stat
    else if str_eq stat "sp_defense"
    then some sp_defense_stat
    else if str_eq stat "speed"
    then some speed_stat
    else if str_eq stat "accuracy"
    then some accuracy_stat
    else if str_eq stat "evasion"
    then some evasion_stat
    else none

unfoldable pub boost : Option Stat → StageBlock → ℤ → StageBlock
boost none st delta = st
boost (some attack_stat) st delta = record st { atk = clamp_stage st.atk delta }
boost (some defense_stat) st delta = record st { def = clamp_stage st.def delta }
boost (some sp_attack_stat) st delta = record st { spa = clamp_stage st.spa delta }
boost (some sp_defense_stat) st delta = record st { spd = clamp_stage st.spd delta }
boost (some speed_stat) st delta = record st { spe = clamp_stage st.spe delta }
boost (some accuracy_stat) st delta = record st { acc = clamp_stage st.acc delta }
boost (some evasion_stat) st delta = record st { eva = clamp_stage st.eva delta }

-- applyStatStage; a stat of another name changes nothing.
unfoldable pub apply_stat_stage : Battler → String → ℤ → Battler
unfolding stat_of boost
apply_stat_stage b stat delta = record b { stages = boost (stat_of stat) b.stages delta }
