-- ===== src/Gacha/PullOdds.antt =====
-- apps/api/src/gacha/gacha-pull-odds.ts: the published odds of a pull, and the band that a roll or a
-- value falls in.
pub mod Types
pub mod Rules
pub mod Select
pub mod Fixture
pub mod Tests
