-- ===== src/Host.antt =====
-- What the editor host keeps of the protocol directories: src/host/.
pub mod Loading
pub mod RecentAcks
pub mod Notifications
pub mod Controller
pub mod Messages
pub mod PlannerSpawn
