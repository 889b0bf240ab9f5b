-- ===== src/Examples.antt =====
-- Tests on concrete inputs, and the theorems applied to such inputs.
mod Jobs
mod Logins
mod Access
mod Rules
mod Probes
mod Drifts
mod Versions
mod Findings
mod Scans
mod Fleets
mod Retained
mod Clients
mod Requests
mod Pools
mod Catalogs
mod Sorts
