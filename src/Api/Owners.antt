-- ===== src/Api/Owners.antt =====
-- crates/api/src/lib.rs: the handlers that answer a VM's owner alone.
use Prim.Native.Char.{Char}
use spwn.Base.{
  ℕ, String, ◌==◌, ◌≡◌, ◌≢◌, refl, sym, ap, ◌∙◌, ◌⊎◌, inl, inr, not, Option, none, some, List, [],
  ◌∷◌, find, eq_iff, arith, Bool-cases, if◌then◌else◌,
}
use spwn.Base.Int.{ℤ}
use spwn.Db.Rows.{Db, VmRow}
use spwn.Db.Vms.{has_id, get_vm}
use spwn.World.{
  DbError, sqlx, Result, ok, err, World, Exec, result, after, pure, ◌>>=◌, attempt, on_result,
  on_option, query, transact, with_fault,
}
use spwn.Auth.Http.{Response, status}
use spwn.ControlPlane.Ops.{ControlPlaneOps}
use spwn.ControlPlane.Resize.{VmResourcePatch}
use spwn.ControlPlane.Implementation.{vm_ops}
use spwn.Api.Responses.{told}
use spwn.Api.Owned.{for_owner, patch_vm, resize_vm, vm_events}

-- The requests that are for the owner.
pub data OwnerCall : Type 0 where
  patch : Option String → Option ℤ → OwnerCall
  resize : VmResourcePatch → OwnerCall
  events : ℤ → Option ℕ → OwnerCall

pub record Owns (a vm_id : String) (d : Db) : Type 0 where
  pub vm : VmRow
  pub stored : find (has_id vm_id) d.vms ≡ some vm
  pub owner : vm.account_id ≡ a

module _ {A : Type 0} (f : Db → A) where
  with_fault_reads :
      (fs : List (Option DbError)) (w : World)
      → ((with_fault fs (λ d. (ok (f d), d)) w).1.db ≡ w.db)
        × (((with_fault fs (λ d. (ok (f d), d)) w).0 ≡ ok (f w.db))
            ⊎ ((e : DbError) × ((with_fault fs (λ d. (ok (f d), d)) w).0 ≡ err (sqlx e))))
  with_fault_reads [] w = (refl, inl refl)
  with_fault_reads (none ∷ fs) w = (refl, inl refl)
  with_fault_reads (some x ∷ fs) w = (refl, inr (x, refl))

  -- A SELECT changes nothing, and reads the tables or fails.
  query_reads :
      (w : World)
      → ((query f w).1.db ≡ w.db)
        × (((query f w).0 ≡ ok (f w.db)) ⊎ ((e : DbError) × ((query f w).0 ≡ err (sqlx e))))
  unfolding query transact
  query_reads w = with_fault_reads w.faults w

-- The answer behind `for_owner`, once the VM has been asked for.
abbrev decided : String → Exec Response → Result (Option VmRow) → Exec Response
decided a body r =
    on_result r
      (λ row.
        on_option row (λ vm. if not (VmRow.account_id vm == a) then pure (status 403) else body)
          (pure (status 404)))
      (λ e. pure (told e))

abbrev Refuses : Exec Response → World → Type 0
Refuses m w = (resp : Response) × (m w ≡ (ok resp, w)) × (resp.status ≢ 200)

decided_owner :
    (a : String) (body : Exec Response) (r : Result (Option VmRow)) (w : World)
    → ((vm : VmRow) × (r ≡ ok (some vm)) × (vm.account_id ≡ a)) ⊎ Refuses (decided a body r) w
unfolding on_result on_option pure
decided_owner a body (err e) w = inr (told e, refl, (λ s. absurd (omega arith)))
decided_owner a body (ok none) w = inr (status 404, refl, (λ s. absurd (omega arith)))
decided_owner a body (ok (some vm)) w = elim (Bool-cases (vm.account_id == a)) [
  | inl own ↦ inl (vm, refl, (eq_iff vm.account_id a).0 own)
  | inr other ↦ inr (status 403, rw other refl, (λ s. absurd (omega arith)))
]

abbrev NotForIt : Exec Response → World → Type 0
NotForIt m w =
    (resp : Response) × (result m w ≡ ok resp) × (resp.status ≢ 200) × ((after m w).db ≡ w.db)

read_row :
    {o : Option VmRow} {vm : VmRow}
    → Path (Result (Option VmRow)) (ok o) (ok (some vm))
    → o ≡ some vm
read_row e = cc

module _ (ops : ControlPlaneOps) (draw : ℕ → Char) (a id : String) where
  for_owner_only :
      (body : Exec Response) (w : World)
      → Owns a id w.db ⊎ NotForIt (for_owner (vm_ops ops draw) a id body) w
  unfolding for_owner vm_ops get_vm attempt ◌>>=◌
  for_owner_only body w =
      let f : Db → Option VmRow = λ d. find (has_id id) d.vms in
      let reads = query_reads f w in
      elim (decided_owner a body (query f w).0 (query f w).1) [
        | inl (vm, read, own) ↦ inl (record {
          vm = vm;
          stored = elim reads.1 [
            | inl e ↦ read_row (sym e ∙ read)
            | inr (x, e) ↦ cc (sym e ∙ read)
          ];
          owner = own;
        })
        | inr (resp, e, other) ↦ inr (resp, ap (λ p. p.0) e, other, ap (λ p. p.1.db) e ∙ reads.0)
      ]

  unfoldable pub owner_call : OwnerCall → Exec Response
  owner_call (patch name exposed_port) = patch_vm (vm_ops ops draw) a id name exposed_port
  owner_call (resize p) = resize_vm (vm_ops ops draw) a id p
  owner_call (events limit before) = vm_events (vm_ops ops draw) a id limit before

  -- Whatever fails on the way: the VM is this account's, or the answer is not 200 and the tables stay
  -- as they were.
  pub owner_call_only :
      (call : OwnerCall) (w : World)
      → Owns a id w.db
        ⊎ ((resp : Response) × (result (owner_call call) w ≡ ok resp)
            × (resp.status ≢ 200)
            × ((after (owner_call call) w).db ≡ w.db))
  unfolding owner_call patch_vm resize_vm vm_events
  owner_call_only (patch name exposed_port) w = for_owner_only _ w
  owner_call_only (resize p) w = for_owner_only _ w
  owner_call_only (events limit before) w = for_owner_only _ w
