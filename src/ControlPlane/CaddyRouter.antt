-- ===== src/ControlPlane/CaddyRouter.antt =====
-- crates/control-plane/src/caddy_router.rs: which Caddy serves a host. A client is its base URL; a
-- request is recorded when it has succeeded.
use spwn.Base.{String, ◌==◌, Option, none, some, List, [], ◌∷◌, ◌++◌, if◌then◌else◌}
use spwn.Db.Json.{get, as_object, as_str}
use spwn.Db.Rows.{HostRow, VmRow}
use spwn.Db.Hosts.{get_host}
use spwn.World.{
  CaddyCall, Exec, Done, message, Result, ok, err, pure, modify, external, ◌>>=◌, ◌>>◌, attempt,
  on_option,
}
use Prim.Native.String

pub record CaddyRouter : Type 0 where
  pub region_clients : List (String × String)
  pub default_client : String

abbrev pub CaddyClient : Type 0
CaddyClient = String

unfoldable pub look_up : String → List (String × String) → Option String
look_up region [] = none
look_up region ((r, client) ∷ rest) = if r == region then some client else look_up region rest

abbrev or_default : Option CaddyClient → CaddyClient → CaddyClient
or_default none d = d
or_default (some c) d = c

unfoldable pub for_region : CaddyRouter → Option String → CaddyClient
unfolding look_up
for_region router none = router.default_client
for_region router (some region) =
    or_default (look_up region router.region_clients) router.default_client

abbrev chain : {A B : Type 0} → Option A → (A → Option B) → Option B
chain none f = none
chain (some a) f = f a

-- labels.region, if it is a text
unfoldable pub region_of : HostRow → Option String
region_of host = chain (chain (as_object host.labels) (λ m. get "region" m)) as_str

unfoldable pub for_host : CaddyRouter → HostRow → CaddyClient
unfolding region_of for_region
for_host router host = for_region router (region_of host)

-- A request to Caddy.
unfoldable pub request : CaddyCall → Exec Done
request call = do
  external (message "caddy")
  modify (λ w. record w { caddy = w.caddy ++ call ∷ [] })

abbrev pub fqdn : String → String → String
fqdn subdomain base_domain = String.◌++◌ subdomain (String.◌++◌ "." base_domain)

abbrev pub client_for : CaddyRouter → Option HostRow → CaddyClient
client_for router none = for_region router none
client_for router (some host) = for_host router host

abbrev pub host_if_known : Result (Option HostRow) → Option HostRow
host_if_known (ok host) = host
host_if_known (err e) = none

-- A VM without a host, or whose host cannot be read, goes to the default client.
unfoldable pub caddy_for_vm : CaddyRouter → VmRow → Exec CaddyClient
unfolding for_region for_host
caddy_for_vm router vm =
    on_option vm.host_id
      (λ id. do host ← attempt (get_host id); pure (client_for router (host_if_known host)))
      (pure (for_region router none))
