-- ===== src/Crash/Risk.antt =====
-- apps/api/src/crash/crash-risk.policy.ts: the exposure that a Crash round reserves, adjusts and
-- releases in the tables of the treasury.
pub mod Types
pub mod Rules
pub mod Health
pub mod Round
pub mod Admission
pub mod Rows
pub mod Operations
pub mod Effects
pub mod Release
pub mod Caps
pub mod Budget
pub mod Tests
