-- ===== src/Snapshots.antt =====
-- core/snapshot_sets.py: reviewed snapshot sets, their execution member by member and the read-only
-- recovery of native tasks.
pub mod Journal
pub mod Samples
pub mod Admission
pub mod Planning
pub mod Observation
pub mod Recovery
pub mod Closing
