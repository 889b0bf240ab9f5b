-- ===== src/Vulnscan.antt =====
-- apps/api/internal/vulnscan: the match of a host's software against the criteria of a CVE.
pub mod Versions
pub mod Ranges
pub mod Findings
pub mod Cpes
pub mod Feeds
pub mod Engine
pub mod Flags
pub mod Paired
pub mod Seen
