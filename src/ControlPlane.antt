-- ===== src/ControlPlane.antt =====
-- crates/control-plane: the service that keeps the VMs of all hosts.
pub mod Scheduler
pub mod CaddyRouter
pub mod Subdomain
pub mod Events
pub mod Registration
pub mod Agents
pub mod Ops
pub mod Resize
pub mod Migration
pub mod Implementation
pub mod Admin
