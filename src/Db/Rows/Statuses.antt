-- ===== src/Db/Rows/Statuses.antt =====
-- crates/db/src/lib.rs: the values that the code writes to the columns `status` and `auth_mode`,
-- which are literals throughout the program.
use spwn.Base.{Bool, true, false}

-- vms.status. "snapshotting" is tested by the code and never written.
pub data VmStatus : Type 0 where
  stopped starting running stopping snapshotting error : VmStatus

infix 50 ◌is◌
abbrev pub ◌is◌ : VmStatus → VmStatus → Bool
stopped is stopped = true
starting is starting = true
running is running = true
stopping is stopping = true
snapshotting is snapshotting = true
error is error = true
_ is _ = false

-- hosts.status. The administrator's handler admits these three texts only.
pub data HostStatus : Type 0 where
  active draining offline : HostStatus

-- vm_migrations.status
pub data MigrationStatus : Type 0 where
  pending failed completed : MigrationStatus

-- accounts.auth_mode
pub data AuthMode : Type 0 where
  password passkey password_passkey : AuthMode

-- cli_auth_codes.status
pub data CodeStatus : Type 0 where
  pending authorized denied : CodeStatus
