-- ===== src/Fantasy/Payout.antt =====
-- apps/api/src/fantasy/fantasy-payout.ts: splitting a prize pool over places and their holders.
-- `Rules` validates a committed payout table, `Holders` pays one place, `Calculate` the whole pool.
pub mod Types
pub mod Rules
pub mod Holders
pub mod Report
pub mod Calculate
pub mod Tests
