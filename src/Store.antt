-- ===== src/Store.antt =====
-- internal/agent/repository/task/state/store.go: the store of workspaces and sessions in JSON files,
-- and the records of internal/agent/model/task/workspace/workspace.go that it writes.
pub mod Names
pub mod Node
pub mod Order
pub mod Disk
pub mod Sessions
pub mod Refine
pub mod RoundTrip
pub mod Listed
pub mod Example
mod Tests
