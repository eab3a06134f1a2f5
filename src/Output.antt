-- ===== src/Output.antt =====
-- The output of the processes: src/output/.
pub mod Stream
