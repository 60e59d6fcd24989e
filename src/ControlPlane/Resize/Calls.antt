-- ===== src/ControlPlane/Resize/Calls.antt =====
-- crates/control-plane/src/ops.rs: the calls of resize_resources to the agent leave the tables alone.
use spwn.Base.{String, ◌≡◌, refl, sym, subst, Bool, true, false, Option, none, some}
use spwn.Base.Int.{ℤ}
use spwn.Db.Rows.{Db}
use spwn.Db.Vms.{get_vm}
use spwn.Db.Hosts.{get_host}
use spwn.World.{
  Failure, Result, ok, err, Exec, pure, fail, ◌>>=◌, ◌>>◌, ok_or, refuse_if, external, query,
  attempt,
}
use spwn.World.Runs.{
  Setting, Next, Runs, Runs-bind, Runs-pure, Runs-fail, Runs-attempt, Runs-ignore, Runs-query,
  Runs-external, Runs-if, Runs-weaken,
}
use spwn.ControlPlane.Agents.{agent_client, known_vm, known_host, connect, accepted}
use spwn.ControlPlane.Ops.Starting.{ops_with}
use spwn.ControlPlane.CaddyRouter.{CaddyRouter}
use spwn.ControlPlane.Resize.{resize_agent, apply_resize}
use spwn.HostAgent.Manager.{VmManager}
use spwn.HostAgent.Util.{ip_to_slot}
use spwn.HostAgent.Lifecycle.{require_vm}
use spwn.HostAgent.Teardown.{resize_cpu, resize_bandwidth}
use spwn.HostAgent.Service.{service}
use spwn.Networking.Tap.{apply_tc_shaping}

abbrev Holds : {A : Type 0} → (A → Type 0) → Result A → Type 0
Holds S (ok a) = S a
Holds S (err e) = Unit

-- An action that leaves the tables as they are, and of whose value, if there is one, this is known.
abbrev Gives : {A : Type 0} → Setting → Db → (A → Type 0) → Exec A → Type 0
Gives c d S m = Runs c d m (λ r d'. (d' ≡ d) × Holds S r)

abbrev Reads : {A : Type 0} → Setting → Db → Exec A → Type 0
Reads c d m = Gives c d (λ a. Unit) m

module _ (c : Setting) (d : Db) where
  Next-Gives :
      {A B : Type 0} (S : A → Type 0) (T : B → Type 0) (f : A → Exec B)
      → ((a : A) → S a → Gives c d T (f a))
      → (r : Result A) (d' : Db) → (d' ≡ d) × Holds S r
      → Next c f (λ r2 d2. (d2 ≡ d) × Holds T r2) r d'
  Next-Gives S T f k (ok a) d' (e, h) =
      subst (λ x. Runs c x (f a) (λ r2 d2. (d2 ≡ d) × Holds T r2)) (sym e) (k a h)
  Next-Gives S T f k (err x) d' (e, h) = (e, tt)

  Gives-bind :
      {A B : Type 0} (S : A → Type 0) (T : B → Type 0) (m : Exec A) (f : A → Exec B)
      → Gives c d S m
      → ((a : A) → S a → Gives c d T (f a))
      → Gives c d T (m >>= f)
  Gives-bind S T m f k l = Runs-bind c d _ m f (Runs-weaken c d _ _ m (Next-Gives S T f l) k)

  Reads-then :
      {A B : Type 0} {T : B → Type 0} (m : Exec A) (f : A → Exec B)
      → Reads c d m
      → ((a : A) → Gives c d T (f a))
      → Gives c d T (m >>= f)
  Reads-then m f k l = Gives-bind (λ a. Unit) _ m f k (λ a s. l a)

  Reads-query : {A : Type 0} (f : Db → A) → Reads c d (query f)
  Reads-query f = Runs-query c d _ f (refl, tt) (λ e q. (refl, tt))

  Reads-external : (e : Failure) → Reads c d (external e)
  Reads-external e = Runs-external c d _ e (refl, tt) (λ q. (refl, tt))

  Reads-ok_or : {A : Type 0} (o : Option A) (e : Failure) → Reads c d (ok_or o e)
  unfolding ok_or fail pure
  Reads-ok_or (some a) e = Runs-pure c d _ a (refl, tt)
  Reads-ok_or none e = Runs-fail c d _ e (refl, tt)

  Reads-refuse_if : (b : Bool) (e : Failure) → Reads c d (refuse_if b e)
  Reads-refuse_if true e = Runs-fail c d _ e (refl, tt)
  Reads-refuse_if false e = Runs-pure c d _ tt (refl, tt)

  Reads-accepted : {A : Type 0} (r : Result A) (what : String) → Reads c d (accepted r what)
  unfolding accepted
  Reads-accepted (ok a) what = Runs-pure c d _ a (refl, tt)
  Reads-accepted (err e) what = Runs-fail c d _ _ (refl, tt)

  attempt-Holds :
      {A : Type 0} (r : Result A) (d' : Db) → (d' ≡ d) × Holds (λ a. Unit) r → (d' ≡ d) × Unit {0}
  attempt-Holds r d' (e, h) = (e, tt)

  Reads-attempt : {A : Type 0} (m : Exec A) → Reads c d m → Reads c d (attempt m)
  Reads-attempt m k = Runs-attempt c d _ m (Runs-weaken c d _ _ m attempt-Holds k)

  read_row :
      {A : Type 0} (f : Db → Option A) (e : Failure) → Reads c d (query f >>= (λ o. ok_or o e))
  read_row f e = Reads-then _ _ (Reads-query f) (λ o. Reads-ok_or o e)

  module _ (m : VmManager) where
    agent_client-service :
        (vm_id : String)
        → Gives c d (λ agent. agent ≡ service m) (agent_client (λ host. service m) vm_id)
    unfolding agent_client known_vm get_vm known_host get_host connect
    agent_client-service vm_id = Reads-then _ _ (read_row _ _) (λ vm.
        Reads-then _ _ (Reads-ok_or vm.host_id _) (λ host_id.
          Reads-then _ _ (read_row _ _)
            (λ host. Reads-then _ _ (Reads-external _) (λ done. Runs-pure c d _ _ (refl, refl)))))

    resize_bandwidth-Reads : (vm_id : String) (b : ℤ) → Reads c d (resize_bandwidth vm_id b)
    unfolding resize_bandwidth require_vm get_vm apply_tc_shaping
    resize_bandwidth-Reads vm_id b = Reads-then _ _ (read_row _ _) (λ vm.
        Reads-then _ _ (Reads-refuse_if _ _) (λ done.
          Reads-then _ _ (Reads-ok_or (ip_to_slot vm.ip_address) _) (λ slot.
            Reads-then _ _
              (Runs-ignore c d _ _ (Runs-external c d _ _ (refl, tt) (λ q. (refl, tt))))
              (λ done2. Reads-external _))))

    cpu_call-Reads :
        (vm_id what : String) (v : ℤ)
        → Reads c d ((service m).resize_cpu vm_id v >>= (λ resp. accepted resp what))
    unfolding service resize_cpu
    cpu_call-Reads vm_id what v =
        Reads-then _ _ (Reads-attempt _ (Reads-external _)) (λ r. Reads-accepted r what)

    bandwidth_call-Reads :
        (vm_id what : String) (b : ℤ)
        → Reads c d ((service m).resize_bandwidth vm_id b >>= (λ resp. accepted resp what))
    unfolding service
    bandwidth_call-Reads vm_id what b =
        Reads-then _ _ (Reads-attempt _ (resize_bandwidth-Reads vm_id b))
          (λ r. Reads-accepted r what)

    -- Both calls to the agent, if they are due.
    resize_agent-Reads :
        (cpu bw : Bool) (vm_id : String) (v b : ℤ)
        → Reads c d (resize_agent cpu bw (service m) vm_id v b)
    unfolding resize_agent
    resize_agent-Reads cpu bw vm_id v b =
        Reads-then _ _
          (Runs-if c d _ cpu _ _ (λ due. cpu_call-Reads vm_id _ v)
            (λ none'. Runs-pure c d _ _ (refl, tt)))
          (λ done.
            Runs-if c d _ bw _ _ (λ due. bandwidth_call-Reads vm_id _ b)
              (λ none'. Runs-pure c d _ _ (refl, tt)))

    apply_resize-Reads :
        (caddy : CaddyRouter) (base_domain : String) (cpu bw : Bool) (vm_id : String) (v b : ℤ)
        → Reads c d (apply_resize (ops_with caddy base_domain m) cpu bw vm_id v b)
    unfolding apply_resize
    apply_resize-Reads caddy base_domain cpu bw vm_id v b =
        Runs-if c d _ _ _ _
          (λ due.
            Gives-bind (λ agent. agent ≡ service m) _ _ _ (agent_client-service vm_id)
              (λ agent same.
                subst (λ a. Reads c d (resize_agent cpu bw a vm_id v b)) (sym same)
                  (resize_agent-Reads cpu bw vm_id v b)))
          (λ none'. Runs-pure c d _ _ (refl, tt))

-- What comes behind the statement.
pub then_read :
    (c : Setting) (d : Db) (m : VmManager) (caddy : CaddyRouter) (base_domain id : String)
    (cpu bw : Bool) (v b : ℤ) (e : Failure)
    → Reads c d (
        apply_resize (ops_with caddy base_domain m) cpu bw id v b
        >> (get_vm id >>= (λ o. ok_or o e)))
unfolding get_vm
then_read c d m caddy base_domain id cpu bw v b e =
    Reads-then c d _ _ (apply_resize-Reads c d m caddy base_domain cpu bw id v b)
      (λ done. read_row c d _ e)
