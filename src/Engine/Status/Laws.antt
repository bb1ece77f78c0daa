-- ===== src/Engine/Status/Laws.antt =====
-- What the status methods keep, and when a status takes hold.
use pokecatch.Prelude.{inl, inr, Bool-cases, ◌≡◌, true, false, not, ◌&&◌, arith, refl}
use pokecatch.Prelude.Int.{ℤ, pos, ◌≤ℤ◌, int_laws}
use pokecatch.Types.{StatusCondition, healthy, is_status}
use pokecatch.Engine.Rng.{Rng}
use pokecatch.Engine.Battler.{Battler, fainted}
use pokecatch.Engine.Battler.Bounds.{IsSound}
use pokecatch.Engine.Status.{
  apply_status, set_sleep, resists, pre_move_gate, end_of_turn_tick, clamp_hp,
}

-- The fields that no status method writes, and the hit points.
pub record SameBody (b c : Battler) : Type 0 where
  pub species : c.species ≡ b.species
  pub inst : c.inst ≡ b.inst
  pub max_hp : c.max_hp ≡ b.max_hp
  pub cur_hp : c.cur_hp ≡ b.cur_hp
  pub stages : c.stages ≡ b.stages

pub SameBody-IsSound : {b c : Battler} → SameBody b c → IsSound b → IsSound c
SameBody-IsSound s h = record {
  low = rw s.cur_hp h.low;
  high = rw (s.cur_hp, s.max_hp) h.high;
  boosts = rw s.stages h.boosts;
}

pub apply_status-SameBody : (s : StatusCondition) (b : Battler) → SameBody b (apply_status s b).1
unfolding apply_status
apply_status-SameBody s b = ground arith

pub set_sleep-SameBody : (r : Rng) (b : Battler) → SameBody b (set_sleep r b).1
unfolding set_sleep
set_sleep-SameBody r b = ground arith

pub pre_move_gate-SameBody : (b : Battler) (r : Rng) → SameBody b (pre_move_gate b r).battler
unfolding pre_move_gate
pre_move_gate-SameBody b r = ground arith

pub clamp_hp_range :
    (max hp : ℤ) → pos 0 ≤ℤ max → (pos 0 ≤ℤ clamp_hp max hp) × (clamp_hp max hp ≤ℤ max)
clamp_hp_range max hp h = ground arith

-- A battler with other hit points in range.
pub with_hp-IsSound :
    (b c : Battler) (hp : ℤ)
    → IsSound b
    → (pos 0 ≤ℤ hp) × (hp ≤ℤ b.max_hp)
    → c.max_hp ≡ b.max_hp
    → c.stages ≡ b.stages
    → c.cur_hp ≡ hp
    → IsSound c
with_hp-IsSound b c hp h range m s e = record {
  low = rw e range.0;
  high = rw (e, m) range.1;
  boosts = rw s h.boosts;
}

pub end_of_turn_tick-IsSound : (b : Battler) → IsSound b → IsSound (end_of_turn_tick b).1
unfolding end_of_turn_tick
end_of_turn_tick-IsSound b h = elim (Bool-cases (fainted b)) [
  | inl e ↦ rw (e, end_of_turn_tick) h
  | inr e ↦
      rw (e, end_of_turn_tick)
        (with_hp-IsSound b _ _ h (clamp_hp_range b.max_hp _ (omega int_laws)) refl refl refl)
]

-- A status takes hold exactly on a battler that has none, stands, and is of no type that resists
-- it; it then is the battler's status, and otherwise the battler is as it was.
pub apply_status_exact :
    (s : StatusCondition) (b : Battler)
    → let r = apply_status s b in
      (r.0 ≡ (is_status b.status healthy && not (fainted b) && not (resists s b)))
      × (r.0 ≡ true → r.1.status ≡ s)
      × (r.0 ≡ false → r.1 ≡ b)
unfolding apply_status
apply_status_exact s b = (ground arith, λ h. ground arith, λ h. ground arith)
