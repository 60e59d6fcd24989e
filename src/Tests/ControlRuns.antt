-- ===== src/Tests/ControlRuns.antt =====
-- The control plane at concrete states.
use spwn.Networking.Tap.{allocate_tap, apply_tc_shaping}
use spwn.HostAgent.Service.{service}
use spwn.HostAgent.Manager.{exists, provision_overlay, send}
use spwn.Base.Text.{drop_past, parse_unsigned, take_until}
use spwn.Db.Quota.{check_quota_and_reserve}
use spwn.Db.Hosts.{get_host, log_event}
use spwn.ControlPlane.Agents.{agent_client, known_host, known_vm}
use spwn.Base.{arith, [], any, find, none, refl, select, some, update_where, ◌∷◌, ◌≡◌, ◌⊎◌}
use spwn.Base.Int.{pos, wrap_i32, wrap_i64, ◌+ℤ◌}
use spwn.Db.Rows.{stopped, running}
use spwn.Db.Vms.{get_vm, has_id, set_vm_running}
use spwn.World.{
  World, after, attempt, constrained, external, gets, ignore, ok, on_option, on_result, query,
  result, update, ◌>>=◌,
}
use spwn.HostAgent.Util.{ip_to_slot, graceful_secs}
use spwn.HostAgent.Util.Shares.{Shares, launch_config-Shares}
use spwn.HostAgent.Util.Slots.{ip_to_slot_agrees}
use spwn.HostAgent.Lifecycle.{launch, launch_config, or_set_error, require_vm, start, start_inner}
use spwn.HostAgent.Outcomes.{IsRunning}
use spwn.HostAgent.RowRules.{RowWith}
use spwn.ControlPlane.Scheduler.{slot_of}
use spwn.ControlPlane.CaddyRouter.{CaddyRouter}
use spwn.ControlPlane.Registration.{contains, heartbeat}
use spwn.ControlPlane.Registration.Statuses.{expected, heartbeat_settles}
use spwn.ControlPlane.Ops.{start_vm}
use spwn.ControlPlane.Ops.Starting.{ops_with, start_vm-RowWith}
use spwn.Tests.Sample.{vm_row, db_with, world_with, manager}

abbrev pub router : CaddyRouter
router = record { region_clients = ("eu", "http://caddy-eu") ∷ []; default_client = "http://caddy" }

abbrev running_world : World
running_world = world_with (db_with (vm_row "vm1" running ∷ []))

abbrev stopped_world : World
stopped_world = world_with (db_with (vm_row "vm1" stopped ∷ []))

is_there : find (has_id "vm1") running_world.db.vms ≡ some (vm_row "vm1" running)
unfolding find
is_there = refl

-- The heartbeat of a host that lists no VM.
heartbeat_settles_example :
    RowWith "vm1"
      (λ u. (u.status ≡ running) ⊎ (u.status ≡ expected running (contains [] "vm1")))
      (after (heartbeat router "example.org" [] "idle" (pos 0) (pos 0) []) running_world).db
heartbeat_settles_example =
    heartbeat_settles router "example.org" [] "idle" (pos 0) (pos 0) [] "vm1" (vm_row "vm1" running)
      running_world (tt, tt) is_there

starts : result (start_vm (ops_with router "example.org" manager) "vm1") stopped_world ≡ ok tt
unfolding agent_client allocate_tap any apply_tc_shaping attempt check_quota_and_reserve constrained
    drop_past exists external find get_host get_vm gets ignore ip_to_slot known_host known_vm launch
    log_event on_option on_result or_set_error parse_unsigned provision_overlay query require_vm
    select send service set_vm_running start start_inner start_vm take_until update update_where
    wrap_i32 wrap_i64 ◌+ℤ◌ ◌>>=◌
starts = refl

start_vm-RowWith_example :
    RowWith "vm1" IsRunning
      (after (start_vm (ops_with router "example.org" manager) "vm1") stopped_world).db
start_vm-RowWith_example = start_vm-RowWith router "example.org" manager "vm1" stopped_world starts

launch_config-Shares_example :
    Shares 1000 512
      (launch_config (vm_row "vm1" stopped) none "fc-tap-1")
      (graceful_secs (pos 1000))
launch_config-Shares_example =
    launch_config-Shares (vm_row "vm1" stopped) none "fc-tap-1" 1000 512 refl refl (omega arith)
      (omega arith)

slot_read : ip_to_slot "172.16.7.2" ≡ some 7
unfolding drop_past ip_to_slot parse_unsigned take_until
slot_read = refl

ip_to_slot_agrees_example : slot_of "172.16.7.2" ≡ some 7
ip_to_slot_agrees_example = ip_to_slot_agrees "172.16.7.2" 7 slot_read
