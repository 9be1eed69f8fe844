-- ===== src/Fantasy.antt =====
-- apps/api/src/fantasy: the fixture-only fantasy calculators.
pub mod Domain
pub mod Payout
pub mod Scoring
