-- ===== src/Db/Rows.antt =====
-- crates/db/src/lib.rs: the rows of the tables. Those of accounts and logins are in Login.
mod Statuses
mod Login
pub use Statuses.*
pub use Login.*
use spwn.Base.{ℕ, String, Bool, Option, List}
use spwn.Base.Int.{ℤ}
use spwn.Db.Json.{Json}

pub record VmRow : Type 0 where
  pub id : String
  pub account_id : String
  pub name : String
  pub status : VmStatus
  pub subdomain : String
  pub vcpus : ℤ
  pub memory_mb : ℤ
  pub disk_mb : ℤ
  pub bandwidth_mbps : ℤ
  pub kernel_path : String
  pub rootfs_path : String
  pub overlay_path : Option String
  pub real_init : String
  pub ip_address : String
  pub exposed_port : ℤ
  pub tap_device : Option String
  pub pid : Option ℤ
  pub socket_path : Option String
  pub host_id : Option String
  pub base_image : String
  pub cloned_from : Option String
  pub disk_usage_mb : ℤ
  pub created_at : ℤ
  pub last_started_at : Option ℤ
  pub placement_strategy : String
  pub required_labels : Option Json
  pub region : Option String
  pub is_public : Bool
  pub share_token : Option String

pub record NewVm : Type 0 where
  pub id : String
  pub account_id : String
  pub name : String
  pub subdomain : String
  pub vcpus : ℤ
  pub memory_mb : ℤ
  pub disk_mb : ℤ
  pub bandwidth_mbps : ℤ
  pub kernel_path : String
  pub rootfs_path : String
  pub overlay_path : String
  pub real_init : String
  pub ip_address : String
  pub exposed_port : ℤ
  pub base_image : String
  pub cloned_from : Option String
  pub placement_strategy : String
  pub required_labels : Option Json
  pub region : Option String

pub record HostRow : Type 0 where
  pub id : String
  pub name : String
  pub address : String
  pub vcpu_total : ℤ
  pub mem_total_mb : ℤ
  pub images_dir : String
  pub overlay_dir : String
  pub snapshot_dir : String
  pub kernel_path : String
  pub last_seen_at : ℤ
  pub status : HostStatus
  pub vcpu_used : ℤ
  pub mem_used_mb : ℤ
  pub labels : Json
  pub snapshot_addr : String

pub record NewHost : Type 0 where
  pub id : String
  pub name : String
  pub address : String
  pub vcpu_total : ℤ
  pub mem_total_mb : ℤ
  pub images_dir : String
  pub overlay_dir : String
  pub snapshot_dir : String
  pub kernel_path : String
  pub snapshot_addr : String

pub record VmMigrationRow : Type 0 where
  pub id : String
  pub vm_id : String
  pub from_host : String
  pub to_host : String
  pub status : MigrationStatus
  pub started_at : ℤ
  pub finished_at : Option ℤ

pub record NewVmMigration : Type 0 where
  pub id : String
  pub vm_id : String
  pub from_host : String
  pub to_host : String

pub record SnapshotRow : Type 0 where
  pub id : String
  pub vm_id : String
  pub label : Option String
  pub snapshot_path : String
  pub mem_path : String
  pub size_bytes : ℤ
  pub created_at : ℤ

pub record NewSnapshot : Type 0 where
  pub id : String
  pub vm_id : String
  pub label : Option String
  pub snapshot_path : String
  pub mem_path : String
  pub size_bytes : ℤ

pub record VmEventRow : Type 0 where
  pub id : ℕ
  pub vm_id : String
  pub event : String
  pub metadata : Option String
  pub created_at : ℤ

-- images.status
pub data ImageStatus : Type 0 where
  building ready failed_build : ImageStatus

pub record ImageRow : Type 0 where
  pub id : String
  pub name : String
  pub tag : String
  pub source : String
  pub status : ImageStatus
  pub size_bytes : ℤ
  pub error : Option String
  pub created_at : ℤ

pub record AuditEntry : Type 0 where
  pub id : ℕ
  pub account_id : String
  pub action : String
  pub resource : String
  pub resource_id : Option String
  pub detail : Option Json
  pub ip : Option String
  pub created_at : ℤ

-- The tables. `vm_events` and `audit_log` are kept newest first.
pub record Db : Type 0 where
  pub vms : List VmRow
  pub hosts : List HostRow
  pub vm_migrations : List VmMigrationRow
  pub snapshots : List SnapshotRow
  pub accounts : List AccountRow
  pub sessions : List SessionRow
  pub vm_auth_tokens : List VmAuthToken
  pub cli_auth_codes : List CliAuthCode
  pub api_tokens : List ApiTokenRow
  pub vm_events : List VmEventRow
  pub images : List ImageRow
  pub ssh_keys : List SshKeyRow
  pub audit_log : List AuditEntry
  pub passkeys : List PasskeyRow
  pub passkey_challenges : List PasskeyChallenge
  pub pending_auth_tokens : List PendingAuthToken
