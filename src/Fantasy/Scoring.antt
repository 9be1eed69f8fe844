-- ===== src/Fantasy/Scoring.antt =====
-- apps/api/src/fantasy/fantasy-scoring.ts: the points of a player from a line of statistics. `Rules`
-- validates a committed scoring table, `Calculate` adds up the points.
pub mod Types
pub mod Rules
pub mod Calculate
pub mod Tests
