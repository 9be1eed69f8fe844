-- ===== src/Crash/Calculators.antt =====
-- apps/api/src/crash/crash-calculators.ts: the committed stage table, the pot and the bust roll.
pub mod Types
pub mod Rules
pub mod Calculate
pub mod Tests
