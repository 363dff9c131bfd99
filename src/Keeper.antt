-- ===== src/Keeper.antt =====
-- internal/runtime/keeper: the keeper of one PostgreSQL server.
pub mod Failsafe
pub mod Slots
pub mod LogicalSlots
