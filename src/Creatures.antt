-- ===== src/Creatures.antt =====
-- pkg/creatures: the static data, the instances that players own, and their battle stats.
pub mod Model
pub mod Stats
pub mod Load
pub mod Samples
pub mod Tests
