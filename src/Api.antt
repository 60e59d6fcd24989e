-- ===== src/Api.antt =====
-- crates/api/src/lib.rs: the requests of an account about its VMs. `VmOps` is what the handlers have
-- of the control plane.
pub mod Responses
pub mod Owned
pub mod Handlers
pub mod Tokens
pub mod Owners
