-- ===== src/ControlPlane/Ops/Starting.antt =====
-- Starting a VM from the control plane, with the agents of crates/host-agent.
use spwn.Base.{String, ◌≡◌, refl, sym, ◌∙◌, subst, Option, none, some, List, [], ◌∷◌}
use spwn.Base.Int.{ℤ}
use spwn.Db.Rows.{Db, VmRow}
use spwn.Db.Vms.{get_vm, update_vms}
use spwn.Db.Hosts.{get_host}
use spwn.Db.Quota.{check_quota_and_reserve, reserved, statement, commit_on, commit}
use spwn.World.{
  World, DbError, Exec, Done, Failure, sqlx, serialization_conflict, message, quota_exceeded,
  restart_required, conflict, validation, Result, ok, err, result, after, pure, attempt, on_result,
  ◌>>=◌, and_then,
}
use spwn.World.Preserves.{
  Preserves, Preserves-bind, Preserves-fail, Preserves-attempt, Preserves-on_result, Preserves-pure,
  preserve_rules,
}
use spwn.World.Ensures.{Ensures, Ensures-from, Ensures-bind, Ensures-pure, Ensures-fail}
use spwn.HostAgent.Frame.{frame_rules}
use spwn.HostAgent.Manager.{VmManager}
use spwn.HostAgent.Lifecycle.{start}
use spwn.HostAgent.Outcomes.{IsRunning, start-Ensures, Found}
use spwn.HostAgent.RowRules.{RowWith, AnyRow, IfOk, attempt-IfOk, unit-Preserves, find-update_where}
use spwn.World.Outcomes.{ok-injective}
use spwn.HostAgent.Service.{service}
use spwn.ControlPlane.CaddyRouter.{CaddyRouter}
use spwn.ControlPlane.Agents
use spwn.ControlPlane.Agents.{Agents, AgentService, agent_client, known_host, connect}
use spwn.ControlPlane.Migration.Refusal.{connect-service, require-Found}
use spwn.ControlPlane.Ops.{ControlPlaneOps, start_vm, reserve_quota, retry_once, give_back}

-- The control plane whose agents are those of crates/host-agent.
abbrev pub ops_with : CaddyRouter → String → VmManager → ControlPlaneOps
ops_with caddy base_domain m = record {
  caddy = caddy;
  base_domain = base_domain;
  agents = λ host. service m;
}

-- What is known of the value of an action that succeeds.
record Returns {A : Type 0} (S : A → Type 0) (m : Exec A) : Type 0 where
  at : (w : World) (a : A) → (m w).0 ≡ ok a → S a

module _ {A B : Type 0} (S : B → Type 0) where
  and_then-Returns :
      (r : Result A) (f : A → Exec B) (w : World)
      → ((a : A) → Returns S (f a))
      → (b : B) → (and_then r f w).0 ≡ ok b
      → S b
  and_then-Returns (ok a) f w k b h = (k a).at w b h
  and_then-Returns (err e) f w k b h = cc

  Returns-bind : (m : Exec A) (f : A → Exec B) → ((a : A) → Returns S (f a)) → Returns S (m >>= f)
  unfolding ◌>>=◌
  Returns-bind m f k = record { at = λ w b h. let (r, w') = m w in and_then-Returns r f w' k b h }

module _ (id : String) where
  commit_on-AnyRow :
      (fs : List (Option DbError)) (w : World)
      → RowWith id AnyRow w.db
      → RowWith id AnyRow (commit_on fs (update_vms id reserved) w).1.db
  unfolding update_vms
  commit_on-AnyRow [] w (v, found, any) =
      (reserved v, find-update_where id reserved (λ u. refl) w.db.vms v found, tt)
  commit_on-AnyRow (none ∷ rest) w (v, found, any) =
      (reserved v, find-update_where id reserved (λ u. refl) w.db.vms v found, tt)
  commit_on-AnyRow (some e ∷ rest) w row = row

  commit-AnyRow : Preserves (RowWith id AnyRow) (commit (update_vms id reserved))
  unfolding commit
  commit-AnyRow = record { at = λ w row. commit_on-AnyRow w.faults w row }

  check_quota-AnyRow :
      (account_id : String) (vcpus mem_mb : ℤ)
      → Preserves (RowWith id AnyRow) (check_quota_and_reserve account_id id vcpus mem_mb)
  unfolding check_quota_and_reserve statement
  check_quota-AnyRow account_id vcpus mem_mb = search (preserve_rules, commit-AnyRow) depth 30

  retry_once-AnyRow :
      (m : Exec Done) (e : Failure)
      → Preserves (RowWith id AnyRow) m
      → Preserves (RowWith id AnyRow) (retry_once m e)
  unfolding retry_once
  retry_once-AnyRow m serialization_conflict k = k
  retry_once-AnyRow m (sqlx e) k = Preserves-fail _
  retry_once-AnyRow m (message t) k = Preserves-fail _
  retry_once-AnyRow m (quota_exceeded t) k = Preserves-fail _
  retry_once-AnyRow m (restart_required t) k = Preserves-fail _
  retry_once-AnyRow m (conflict t) k = Preserves-fail _
  retry_once-AnyRow m (validation t) k = Preserves-fail _

  agent_client-service :
      (m : VmManager) → Returns (λ agent. agent ≡ service m) (agent_client (λ h. service m) id)
  unfolding agent_client
  agent_client-service m = Returns-bind _ _ _ (λ vm. Returns-bind _ _ _ (λ host_id.
      Returns-bind _ _ _
        (λ host. record { at = λ w agent h. connect-service id m host w agent h })))

  reserve_quota-AnyRow : (vm : VmRow) → Preserves (RowWith id AnyRow) (reserve_quota vm id)
  unfolding reserve_quota
  reserve_quota-AnyRow vm =
      Preserves-bind _ _
        (Preserves-attempt _ (check_quota-AnyRow vm.account_id vm.vcpus vm.memory_mb))
        (λ r.
          Preserves-on_result r _ _ (λ _. Preserves-pure _)
            (λ e. retry_once-AnyRow _ e (check_quota-AnyRow vm.account_id vm.vcpus vm.memory_mb)))

  give_back-Ensures :
      {A : Type 0} (P R : Db → Type 0) (e : Failure) → Ensures P R (give_back {A = A} id e)
  unfolding give_back
  give_back-Ensures P R e = record {
    at = λ w p.
        (Ensures-bind {P = λ d. Unit {0}} {R = R} _ _ (unit-Preserves _) (λ _. Ensures-fail e)).at w
          tt;
  }

  -- The reply of the agent's start.
  start_call-Ensures :
      (m : VmManager)
      → Ensures (RowWith id AnyRow) (RowWith id IsRunning) (do
        resp ← (service m).start_vm id
        on_result resp (λ _. pure tt) (λ e. give_back id (message "agent start_vm failed")))
  unfolding service on_result
  start_call-Ensures m =
      Ensures-from (RowWith id AnyRow) (IfOk (RowWith id IsRunning)) (RowWith id IsRunning) _ _
        (attempt-IfOk (RowWith id AnyRow) (RowWith id IsRunning) (start m id)
          (record { at = λ w p a h. (start-Ensures id m).at w tt a h }))
        by_reply
    where
      by_reply :
          (r : Result Done)
          → Ensures
              (IfOk (RowWith id IsRunning) r)
              (RowWith id IsRunning)
              (on_result r (λ _. pure tt) (λ e. give_back id (message "agent start_vm failed")))
      by_reply (ok a) = Ensures-pure tt (λ d p. p)
      by_reply (err e) = give_back-Ensures _ _ (message "agent start_vm failed")

  abbrev IsService : VmManager → Result AgentService → Type 0
  IsService m (ok agent) = agent ≡ service m
  IsService m (err e) = Unit

  Keeps-agent_client :
      (m : VmManager) → Preserves (RowWith id AnyRow) (agent_client (λ h. service m) id)
  unfolding agent_client Agents.known_vm known_host connect get_vm get_host
  Keeps-agent_client m = search frame_rules depth 20

  attempt-IsService :
      (m : VmManager) (w : World) (r : Result AgentService)
      → (attempt (agent_client (λ h. service m) id) w).0 ≡ ok r
      → IsService m r
  unfolding attempt
  attempt-IsService m w (ok agent) h =
      (agent_client-service m).at w agent
        (ok-injective (agent_client (λ h. service m) id w).0 (ok agent) h)
  attempt-IsService m w (err e) h = tt

  agent_or_give_back :
      (m : VmManager) (client : Result AgentService) (w : World)
      → IsService m client
      → RowWith id AnyRow w.db
      → (agent : AgentService) → (on_result client pure (give_back id) w).0 ≡ ok agent
      → (agent ≡ service m) × RowWith id AnyRow (on_result client pure (give_back id) w).1.db
  unfolding on_result pure
  agent_or_give_back m (ok a) w is_service row agent h =
      (sym (ok-injective a agent h) ∙ is_service, row)
  agent_or_give_back m (err e) w is_service row agent h =
      absurd ((give_back-Ensures (λ d. Unit {0}) (λ d. ⊥) e).at w tt agent h)

  abbrev Reached : VmManager → AgentService → Db → Type 0
  Reached m agent d = (agent ≡ service m) × RowWith id AnyRow d

  abbrev asked : AgentService → Exec Done
  asked agent = do
    resp ← agent.start_vm id
    on_result resp (λ _. pure tt) (λ e. give_back id (message "agent start_vm failed"))

  asked-Ensures :
      (m : VmManager) (agent : AgentService)
      → Ensures (Reached m agent) (RowWith id IsRunning) (asked agent)
  asked-Ensures m agent = record {
    at = λ w (same, row) a h.
        (subst (λ g. Ensures (RowWith id AnyRow) (RowWith id IsRunning) (asked g)) (sym same)
            (start_call-Ensures m)).at
          w row a h;
  }

  after_reservation :
      (m : VmManager)
      → Ensures (RowWith id AnyRow) (RowWith id IsRunning) (do
        client ← attempt (agent_client (λ h. service m) id)
        agent ← on_result client pure (give_back id)
        asked agent)
  after_reservation m =
      Ensures-from (RowWith id AnyRow) (λ r d. IsService m r × RowWith id AnyRow d)
        (RowWith id IsRunning) _ _
        (λ w row r h.
          (attempt-IsService m w r h, (Preserves-attempt _ (Keeps-agent_client m)).at w row))
        (λ r.
          Ensures-from _ (Reached m) _ _ _
            (λ w (is_service, row) agent h. agent_or_give_back m r w is_service row agent h)
            (asked-Ensures m))

  start_vm-Ensures :
      (caddy : CaddyRouter) (base_domain : String) (m : VmManager)
      → Ensures (λ d. Unit {0}) (RowWith id IsRunning) (start_vm (ops_with caddy base_domain m) id)
  unfolding start_vm
  start_vm-Ensures caddy base_domain m =
      Ensures-from (λ d. Unit {0}) (Found id) (RowWith id IsRunning) _ _
        (λ w p v h. require-Found id w v h)
        (λ v. record {
          at = λ w found a h.
              (Ensures-bind {P = RowWith id AnyRow} {R = RowWith id IsRunning} _ _
                  (reserve_quota-AnyRow v) (λ _. after_reservation m)).at
                w (v, found, tt) a h;
        })

-- With the agents of crates/host-agent, a start that the control plane reports as done has left the
-- VM's row with the status `running`: the reservation, its retry, the connection, the agent's work
-- and its reply, on every path.
pub start_vm-RowWith :
    (caddy : CaddyRouter) (base_domain : String) (m : VmManager) (vm_id : String) (w : World)
    → result (start_vm (ops_with caddy base_domain m) vm_id) w ≡ ok tt
    → RowWith vm_id IsRunning (after (start_vm (ops_with caddy base_domain m) vm_id) w).db
start_vm-RowWith caddy base_domain m vm_id w h =
    (start_vm-Ensures vm_id caddy base_domain m).at w tt tt h
