-- ===== src/Vocabulary.antt =====
-- The texts of kind.ts, status.ts, action.ts and cantDo.ts: reading and writing them.
mod Find
pub mod Statuses
pub mod Actions
