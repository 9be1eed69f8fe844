-- ===== src/Crash.antt =====
-- apps/api/src/crash: the Crash game.
pub mod Calculators
pub mod Risk
pub mod Serializable
