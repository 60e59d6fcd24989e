-- ===== src/Auth/Gateway/Access.antt =====
-- auth/src/gateway.rs: whom `caddy_auth` lets through.
use spwn.Base.{
  String, ◌==◌, ◌≡◌, sym, ap, subst, ◌∙◌, some, find, Among, find-Among, find_satisfies, eq_iff,
  arith,
}
use spwn.Base.Int.{ℤ}
use spwn.Base.Text.{◌&◌, strip_suffix, strip_suffix-eq}
use spwn.Db.Rows.{Db, VmRow}
use spwn.Db.Vms.{get_vm_by_subdomain}
use spwn.World.{World, Result, ok, err, result, after}
use spwn.World.Runs.{
  Setting, Runs, Runs-bind, Runs-pure, Runs-attempt, Runs-query, Runs-on_option, Runs-weaken,
  runs_in,
}
use spwn.Auth.Http.{AuthState, Headers, Response, status}
use spwn.Auth.Gateway.Entry.{AccessQuery, requested_host, caddy_auth}
use spwn.Auth.Gateway.Opening.{Opened, Lets, vm_access-Lets}

-- The VM of the host name that the request is for.
pub record Asked (state : AuthState) (h : Headers) (vm : VmRow) (d : Db) : Type 0 where
  pub stored : Among vm d.vms
  pub named : requested_host h ≡ vm.subdomain & "." & state.base_domain

Opened-vm :
    (d : Db) (state : AuthState) (h : Headers) (q : AccessQuery) (now : ℤ) (sub : String)
    (vm : VmRow)
    → strip_suffix ("." & state.base_domain) (requested_host h) ≡ some sub
    → find (λ v. VmRow.subdomain v == sub) d.vms ≡ some vm
    → (r : Result Response) (d2 : Db) → Lets (Opened h q vm now d) r d2
    → Lets ((vm : VmRow) × Asked state h vm d × Opened h q vm now d) r d2
Opened-vm d state h q now sub vm e found_vm (err x) d2 k = tt
Opened-vm d state h q now sub vm e found_vm (ok resp) d2 k =
    let named = (eq_iff vm.subdomain sub).0 (find_satisfies _ d.vms vm found_vm) in
    λ s. (
      vm,
      record {
        stored = find-Among _ d.vms vm found_vm;
        named =
            strip_suffix-eq (requested_host h) ("." & state.base_domain) sub e
            ∙ ap (λ t. t & "." & state.base_domain) (sym named);
      },
      k s,
    )

caddy_auth-Lets :
    (c : Setting) (d : Db) (state : AuthState) (h : Headers) (q : AccessQuery)
    → Runs c d
        (caddy_auth state h q)
        (Lets ((vm : VmRow) × Asked state h vm d × Opened h q vm c.now d))
unfolding caddy_auth get_vm_by_subdomain
caddy_auth-Lets c d state h q =
    let missing =
      Runs-pure c d (Lets ((vm : VmRow) × Asked state h vm d × Opened h q vm c.now d)) (status 404)
        (λ s. absurd (omega arith)) in
    Runs-on_option c d _ _ _ _
      (λ sub e. Runs-bind c d _ _ _ (
        Runs-attempt c d _ _ (
          Runs-query c d _ _
            (Runs-on_option c d _ _ _ _
              (λ vm found_vm.
                Runs-weaken c d _ _ _ (Opened-vm d state h q c.now sub vm e found_vm)
                  (vm_access-Lets c state (requested_host h) h vm q d))
              (λ e2. missing))
            (λ x loud. Runs-on_option c d _ _ _ _ (λ vm e2. cc) (λ e2. missing)))))
      (λ e. missing)

-- Whatever fails on the way, a request that is let through asks for a VM by its subdomain, and the
-- VM is public, or the request has the VM's share token, a one-time token for this VM that has not
-- run out, or the session of the VM's owner.
pub caddy_auth-Opened :
    (state : AuthState) (h : Headers) (q : AccessQuery) (w : World) (resp : Response)
    → result (caddy_auth state h q) w ≡ ok resp
    → resp.status ≡ 200
    → (vm : VmRow) × Asked state h vm w.db × Opened h q vm w.now w.db
caddy_auth-Opened state h q w resp e s =
    subst
      (λ r.
        Lets ((vm : VmRow) × Asked state h vm w.db × Opened h q vm w.now w.db) r
          (after (caddy_auth state h q) w).db)
      e (runs_in (caddy_auth state h q) _ w (caddy_auth-Lets _ w.db state h q)) s
