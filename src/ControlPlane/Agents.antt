-- ===== src/ControlPlane/Agents.antt =====
-- The agents as the control plane sees them: one service for each host. A call fails when the
-- transport does; otherwise the reply says whether the agent's manager succeeded.
use spwn.Base.{String, Bool, Option}
use spwn.Base.Int.{ℤ}
use spwn.Db.Rows.{VmRow, HostRow}
use spwn.Db.Vms.{get_vm}
use spwn.Db.Hosts.{get_host}
use spwn.World.{
  Exec, Done, Failure, message, Result, ok, err, pure, fail, ok_or, ◌>>=◌, ◌>>◌, external,
}

-- agent.proto: the requests for a new VM
pub record CreateVmRequest : Type 0 where
  pub vm_id : String
  pub account_id : String
  pub name : String
  pub subdomain : String
  pub image : String
  pub vcpus : ℤ
  pub memory_mb : ℤ
  pub disk_mb : ℤ
  pub bandwidth_mbps : ℤ
  pub exposed_port : ℤ
  pub ip_address : String

pub record CloneVmRequest : Type 0 where
  pub source_vm_id : String
  pub new_vm_id : String
  pub account_id : String
  pub name : String
  pub subdomain : String
  pub ip_address : String
  pub exposed_port : ℤ
  pub include_memory : Bool

pub record AgentService : Type 0 where
  pub create_vm : CreateVmRequest → Exec (Result Done)
  pub clone_vm : CloneVmRequest → Exec (Result Done)
  pub start_vm : String → Exec (Result Done)
  pub stop_vm : String → Exec (Result Done)
  pub delete_vm : String → Exec (Result Done)
  pub take_snapshot : String → Option String → Exec (Result String)
  pub restore_snapshot : String → String → Exec (Result Done)
  pub delete_snapshot : String → String → Exec (Result Done)
  pub resize_cpu : String → ℤ → Exec (Result Done)
  pub resize_bandwidth : String → ℤ → Exec (Result Done)
  -- the VM, the snapshot and the source's snapshot address
  pub migrate_vm : VmRow → String → String → Exec (Result Done)

-- The agents by host.
abbrev pub Agents : Type 0
Agents = HostRow → AgentService

unfoldable pub unknown_vm : Failure
unknown_vm = message "vm not found"

unfoldable pub known_vm : String → Exec VmRow
known_vm vm_id = do vm ← get_vm vm_id; ok_or vm unknown_vm

unfoldable pub known_host : String → Exec HostRow
known_host host_id = do host ← get_host host_id; ok_or host (message "host not found")

-- tls::agent_channel
unfoldable pub connect : Agents → HostRow → Exec AgentService
connect agents host = do external (message "agent channel"); pure (agents host)

unfoldable pub agent_client : Agents → String → Exec AgentService
unfolding connect
agent_client agents vm_id = do
  vm ← known_vm vm_id
  host_id ← ok_or vm.host_id (message "vm has no host assignment")
  host ← known_host host_id
  connect agents host

-- `if !resp.ok { return Err(…) }`
unfoldable pub accepted : {A : Type 0} → Result A → String → Exec A
accepted (ok a) what = pure a
accepted (err e) what = fail (message what)
