-- ===== src/Drift.antt =====
-- apps/api/internal/drift: the events of a change between two snapshots, and the alerts on them.
pub mod Events
pub mod Alerts
pub mod Snapshots
pub mod Differ
pub mod Sections
pub mod Coverage
pub mod Losses
