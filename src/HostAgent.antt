-- ===== src/HostAgent.antt =====
-- crates/host-agent: the service on each host that runs its VMs.
pub mod Util
pub mod Manager
pub mod Lifecycle
pub mod Teardown
pub mod Snapshot
pub mod Frame
pub mod RowRules
pub mod Outcomes
pub mod Deletion
pub mod Clone
pub mod Reconcile
pub mod Service
