-- ===== src/Planner/Schedule.antt =====
-- Staleness, the fair schedule and the dispatch: src/planner/schedule.ts.
pub mod Tickets
pub mod Selection
pub mod Dispatch
