-- ===== src/Engine/Status.antt =====
-- services/battle/internal/engine/status.go. A method returns the battler after it, and the
-- generator where it draws.
pub mod Laws
use pokecatch.Prelude.{
  ℕ, String, Bool, true, false, not, ◌&&◌, ◌||◌, Option, none, some, if◌then◌else◌,
}
use pokecatch.Prelude.Int.{ℤ, pos, negsuc, ◌+ℤ◌, ◌-ℤ◌, ◌*ℤ◌, ltb_ℤ, leb_ℤ, quot}
use pokecatch.Types.{
  fire, ice, toxin, metal, electric, StatusCondition, healthy, burn, poison, freeze, sleep,
  paralysis, toxic, is_status,
}
use pokecatch.Creatures.Model.{regenerator}
use pokecatch.Engine.Rng.{Rng, draw, chance}
use pokecatch.Engine.Battler.{Battler, fainted, has_ability, has_element}

-- The package variable sleepRoll, which nothing assigns.
abbrev sleep_roll : ℤ
sleep_roll = pos 0

-- The type immunities of applyStatus.
unfoldable pub resists : StatusCondition → Battler → Bool
resists burn b = has_element b fire
resists freeze b = has_element b ice
resists poison b = has_element b toxin || has_element b metal
resists toxic b = has_element b toxin || has_element b metal
resists paralysis b = has_element b electric
resists sleep b = false
resists healthy b = false

abbrev counter_after : StatusCondition → ℤ → ℤ
counter_after sleep ctr = pos 1 +ℤ sleep_roll
counter_after toxic ctr = pos 1
counter_after _ ctr = ctr

unfoldable pub apply_status : StatusCondition → Battler → Bool × Battler
unfolding resists
apply_status s b =
    if not (is_status b.status healthy) || fainted b
    then (false, b)
    else if resists s b
    then (false, b)
    else (true, record b { status = s; status_ctr = counter_after s b.status_ctr })

unfoldable pub set_sleep : Rng → Battler → Bool × Battler × Rng
unfolding draw
set_sleep r b =
    if not (is_status b.status healthy)
    then (false, b, r)
    else (true, record b { status = sleep; status_ctr = pos 1 +ℤ pos (draw 3 r).0 }, (draw 3 r).1)

-- Whether the battler may act, the message, the battler and the generator after the gate.
pub record Gate : Type 0 where
  pub can_act : Bool
  pub message : String
  pub battler : Battler
  pub rng : Rng

-- The flinch test that ends the gate.
abbrev flinch_gate : Battler → Rng → Gate
flinch_gate b r =
    if b.flinched
    then record {
      can_act = false;
      message = "flinched";
      battler = record b { flinched = false };
      rng = r;
    }
    else record { can_act = true; message = ""; battler = b; rng = r }

sleep_gate : Battler → Rng → Gate
sleep_gate b r =
    let ctr = b.status_ctr -ℤ pos 1 in
    if leb_ℤ ctr (pos 0)
    then record {
      can_act = true;
      message = "woke up";
      battler = record b { status = healthy; status_ctr = ctr };
      rng = r;
    }
    else record {
      can_act = false;
      message = "is fast asleep";
      battler = record b { status_ctr = ctr };
      rng = r;
    }

freeze_gate : Battler → Rng → Gate
freeze_gate b r =
    let (thaws, r') = chance (pos 20) r in
    if thaws
    then record {
      can_act = true;
      message = "thawed out";
      battler = record b { status = healthy };
      rng = r';
    }
    else record { can_act = false; message = "is frozen solid"; battler = b; rng = r' }

paralysis_gate : Battler → Rng → Gate
paralysis_gate b r =
    let (stuck, r') = chance (pos 25) r in
    if stuck
    then record { can_act = false; message = "is paralyzed and can't move"; battler = b; rng = r' }
    else flinch_gate b r'

gate_of : StatusCondition → Battler → Rng → Gate
unfolding sleep_gate freeze_gate paralysis_gate
gate_of sleep b r = sleep_gate b r
gate_of freeze b r = freeze_gate b r
gate_of paralysis b r = paralysis_gate b r
gate_of _ b r = flinch_gate b r

unfoldable pub pre_move_gate : Battler → Rng → Gate
unfolding gate_of
pre_move_gate b r = gate_of b.status b r

-- At least 1.
abbrev at_least_1 : ℤ → ℤ
at_least_1 n = if ltb_ℤ n (pos 1) then pos 1 else n

-- The residual damage and the counter after it.
residual : StatusCondition → Battler → ℤ
residual burn b = at_least_1 (quot b.max_hp 8)
residual poison b = at_least_1 (quot b.max_hp 8)
residual toxic b = at_least_1 (quot (b.max_hp *ℤ b.status_ctr) 16)
residual _ b = pos 0

abbrev escalated : StatusCondition → ℤ → ℤ
escalated toxic ctr = ctr +ℤ pos 1
escalated _ ctr = ctr

regeneration : Battler → ℤ
regeneration b = if has_ability b regenerator then at_least_1 (quot b.max_hp 16) else pos 0

-- Into [0, max], the upper bound first.
abbrev pub clamp_hp : ℤ → ℤ → ℤ
clamp_hp max hp =
    let low = if ltb_ℤ max hp then max else hp in if ltb_ℤ low (pos 0) then pos 0 else low

unfoldable pub end_of_turn_tick : Battler → ℤ × Battler
unfolding residual regeneration
end_of_turn_tick b =
    if fainted b
    then (pos 0, b)
    else let delta = pos 0 -ℤ residual b.status b +ℤ regeneration b in
      (
        delta,
        record b {
          cur_hp = clamp_hp b.max_hp (b.cur_hp +ℤ delta);
          status_ctr = escalated b.status b.status_ctr;
        },
      )
