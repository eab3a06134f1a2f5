-- ===== src/Supervisor.antt =====
-- The supervision of launch entries: src/supervisor/.
pub mod Runner
pub mod Templates
pub mod Workers
pub mod Fleet
pub mod TrustGate
