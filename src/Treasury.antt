-- ===== src/Treasury.antt =====
-- apps/api/src/treasury/house-treasury.policy.ts: the limits on what the house may have at stake, and
-- the reservations of exposure that are made under them.
pub mod Types
pub mod Limits
pub mod Config
pub mod Snapshot
pub mod Admission
pub mod Reserve
pub mod Sample
pub mod Tests
