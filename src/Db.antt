-- ===== src/Db.antt =====
-- crates/db: the tables, and the statements on them.
pub mod Json
pub mod Rows
pub mod Vms
pub mod Hosts
pub mod Quota
pub mod Tokens
pub mod Accounts
pub mod Images
pub mod Keys
pub mod Passkeys
pub mod Audit
