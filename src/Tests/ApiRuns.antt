-- ===== src/Tests/ApiRuns.antt =====
-- Requests about a VM from its owner and from another account, at concrete states.
use Prim.Native.Char.{Char}
use spwn.Base.{ℕ, String, ◌≡◌, ◌≢◌, ◌⊎◌, refl, none, some, [], ◌∷◌, find, any, arith}
use spwn.Base.Int.{pos, ◌+ℤ◌}
use spwn.Base.Text.{strip_suffix, ◌&◌}
use spwn.Db.Rows.{VmRow, stopped, running}
use spwn.Db.Vms.{has_id}
use spwn.ControlPlane.Resize.{VmResourcePatch, resize_resources}
use spwn.ControlPlane.Resize.Grown.{Grown, resize_resources_grows}
use spwn.Db.Tokens.{create_vm_auth_token}
use spwn.World.{World, ok, result, after, new_v4, gets, constrained, attempt, on_result, ◌>>=◌}
use spwn.Auth.Http.{Response, Headers}
use spwn.Auth.Gateway.Entry.{caddy_auth, requested_host}
use spwn.ControlPlane.Ops.{ControlPlaneOps, generate_vm_auth_token}
use spwn.ControlPlane.Ops.Starting.{ops_with}
use spwn.ControlPlane.Implementation.{vm_ops}
use spwn.Api.Handlers.{new_auth_token, token_told}
use spwn.Api.Tokens.{AnswersOk, with_token, new_auth_token-AnswersOk}
use spwn.Api.Owners.{patch, Owns, owner_call, owner_call_only}
use spwn.Tests.Sample.{vm_row, db_with, world_with, account_row, manager}
use spwn.Tests.LoginRuns.{state, no_headers}
use spwn.Tests.ControlRuns.{router}

abbrev ops : ControlPlaneOps
ops = ops_with router "example.org" manager

abbrev draw : ℕ → Char
draw i = "a"

abbrev vm1 : VmRow
vm1 = vm_row "vm1" stopped

abbrev private_world : World
private_world =
    world_with
      (record (db_with (vm1 ∷ [])) { accounts = account_row "alice" ∷ account_row "bob" ∷ [] })

abbrev vm1_headers : Headers
vm1_headers = record no_headers { host = some (vm1.subdomain & ".example.org") }

abbrev later_world : World
later_world = record (after (new_auth_token (vm_ops ops draw) "bob" "vm1") private_world) {
  now = pos 1100;
  faults = [];
}

new_auth_token-AnswersOk_example :
    (token : String) × (result (new_auth_token (vm_ops ops draw) "bob" "vm1") private_world
      ≡ ok (token_told token))
    × AnswersOk (result (caddy_auth state vm1_headers (with_token token)) later_world)
unfolding find any new_auth_token ◌>>=◌ attempt on_result vm_ops generate_vm_auth_token
    create_vm_auth_token gets new_v4 constrained ◌+ℤ◌ strip_suffix requested_host
new_auth_token-AnswersOk_example =
    new_auth_token-AnswersOk ops draw state "bob" vm1 vm1.subdomain vm1_headers private_world
      later_world refl refl refl refl refl (λ i. refl) refl refl refl (omega arith) (λ i. refl) refl

owner_call_only_example :
    Owns "bob" "vm1" private_world.db
    ⊎ ((resp : Response) × (result
            (owner_call ops draw "bob" "vm1" (patch (some "mine") none))
            private_world
          ≡ ok resp)
        × (resp.status ≢ 200)
        × ((after (owner_call ops draw "bob" "vm1" (patch (some "mine") none)) private_world).db
            ≡ private_world.db))
owner_call_only_example =
    owner_call_only ops draw "bob" "vm1" (patch (some "mine") none) private_world

abbrev growth : VmResourcePatch
growth = record {
  vcpus = some (pos 2000);
  memory_mb = none;
  disk_mb = none;
  bandwidth_mbps = some (pos 50);
}

abbrev running_world : World
running_world = world_with (db_with (vm_row "vm1" running ∷ []))

resize_resources_grows_example :
    (v : VmRow) × (find
        (has_id "vm1")
        (after (resize_resources ops "vm1" growth) running_world).db.vms
      ≡ some v)
    × Grown (vm_row "vm1" running) v
unfolding find
resize_resources_grows_example =
    resize_resources_grows router "example.org" manager "vm1" growth (vm_row "vm1" running)
      running_world refl
