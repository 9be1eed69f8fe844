-- ===== src/Gacha.antt =====
-- apps/api/src/gacha: the odds of the sports pack pulls.
pub mod PullOdds
