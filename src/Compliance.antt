-- ===== src/Compliance.antt =====
-- apps/api/internal/compliance: the rule expressions (JSONLogic) and the evaluation of a host.
pub mod Values
pub mod Logic
pub mod Connectives
pub mod Paths
pub mod Engine
pub mod Hosts
pub mod Scoring
pub mod Catalog
pub mod Summary
