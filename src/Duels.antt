-- ===== src/Duels.antt =====
-- apps/api/src/duels: the life of a duel.
pub mod State
pub mod Leaderboard
