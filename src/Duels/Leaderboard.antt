-- ===== src/Duels/Leaderboard.antt =====
-- apps/api/src/duels/public-duel-leaderboard.ts: the public leaderboard of settled duels. `Types` has
-- the duels that count, `Table` the standing of each wallet, `Ranking` their order.
pub mod Types
pub mod Table
pub mod Ranking
pub mod Cache
pub mod Tests
