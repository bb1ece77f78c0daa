-- ===== src/Profile.antt =====
-- services/profile/internal: the player's creatures, teams and trades.
pub mod Repo
pub mod MemRepo
pub mod PgRepo
pub mod Trade
pub mod Collection
pub mod Listing
pub mod Save
pub mod Handlers
