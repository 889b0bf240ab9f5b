-- ===== src/Fleet.antt =====
-- apps/api/internal/repository: the shared state of the API server behind one mutex, and the
-- methods on it. Cursors and Paging are its keyset pagination.
pub mod Cursors
pub mod Paging
pub mod Records
pub mod Tiers
pub mod Snapshots
pub mod Jobs
pub mod Audit
pub mod Queries
