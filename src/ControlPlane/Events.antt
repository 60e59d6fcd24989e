-- ===== src/ControlPlane/Events.antt =====
-- crates/control-plane/src/events.rs: what the control plane does with one event of an agent's
-- stream. An event that is not one of the three is only logged.
use spwn.Base.{String, Option, none, some, [], ◌∷◌, ◌++◌}
use spwn.Base.Int.{ℤ, pos, low_bits}
use spwn.Db.Rows.{VmRow, VmStatus, running, stopped, error}
use spwn.Db.Vms.{get_vm, set_vm_status}
use spwn.Db.Hosts.{log_event}
use spwn.World.{
  CaddyCall, Exec, Done, Result, ok, err, pure, modify, ◌>>=◌, ◌>>◌, attempt, ignore, on_option,
}
use spwn.ControlPlane.CaddyRouter.{CaddyRouter, CaddyClient, caddy_for_vm, request, fqdn}

pub data AgentEvent : Type 0 where
  started stopped_event crashed other : AgentEvent

-- `exposed_port as u16`
abbrev pub port_of : ℤ → ℤ
port_of p = pos (low_bits 65536 p)

abbrev pub running_route : String → VmRow → CaddyClient → CaddyCall
running_route base_domain vm client =
    CaddyCall.set_vm_route client (fqdn vm.subdomain base_domain) vm.ip_address
      (port_of vm.exposed_port)

abbrev pub stopped_route : String → VmRow → CaddyClient → CaddyCall
stopped_route base_domain vm client =
    CaddyCall.set_stopped_route client (fqdn vm.subdomain base_domain)

abbrev found_vm : Result (Option VmRow) → Option VmRow
found_vm (ok vm) = vm
found_vm (err e) = none

-- `if let Ok(Some(vm)) = get_vm(…)`: the status, then the route; failures are dropped or logged.
unfoldable pub follow :
    CaddyRouter → String → VmStatus → (VmRow → CaddyClient → CaddyCall) → Exec Done
follow router vm_id status route = do
  r ← attempt (get_vm vm_id)
  on_option (found_vm r)
      (λ vm. do
        ignore (set_vm_status vm_id status)
        client ← caddy_for_vm router vm
        ignore (request (route vm client)))
      (pure tt)

unfoldable pub broadcast_status : String → VmStatus → Exec Done
broadcast_status vm_id status =
    modify (λ w. record w { broadcast = w.broadcast ++ (vm_id, status) ∷ [] })

unfoldable pub react : CaddyRouter → String → AgentEvent → String → Exec Done
unfolding follow broadcast_status
react router base_domain started vm_id = do
  follow router vm_id running (running_route base_domain)
  broadcast_status vm_id running
react router base_domain stopped_event vm_id = do
  follow router vm_id stopped (stopped_route base_domain)
  broadcast_status vm_id stopped
react router base_domain crashed vm_id = do
  follow router vm_id error (stopped_route base_domain)
  broadcast_status vm_id error
react router base_domain other vm_id = pure tt

abbrev event_name : AgentEvent → String → String
event_name started name = "started"
event_name stopped_event name = "stopped"
event_name crashed name = "crashed"
event_name other name = name

-- One turn of the loop of connect_and_stream.
unfoldable pub on_event : CaddyRouter → String → AgentEvent → String → String → String → Exec Done
unfolding react
on_event router base_domain event name vm_id detail = do
  ignore (log_event vm_id (event_name event name) (some detail))
  react router base_domain event vm_id
