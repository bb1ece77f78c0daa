-- ===== src/Engine.antt =====
-- services/battle/internal/engine: the battle simulation.
pub mod Rng
pub mod Battler
pub mod Status
pub mod Damage
pub mod Battle
pub mod Tests
