-- ===== src/Lib.antt =====
-- spwn: a service that runs virtual machines for its users.
--
-- The program: the control plane keeps accounts, VMs and hosts in one PostgreSQL database, chooses a
-- host for each VM and asks the host's agent, over gRPC, to run it in Firecracker. The agent uses the
-- same database and keeps a set of running VMs, network devices and files of its own. Caddy routes
-- the VMs' subdomains.
--
-- What models what:
--   World          the state: the tables, the requests to Caddy, the agent's memory and files, and
--                  the environment's answers. A handler is an `Exec A`, a function from a World to a
--                  result and a World. World/Preserves, World/Leads, World/Ensures, World/Outcomes
--                  and World/Runs are the rules by which its properties are proved.
--   Db             crates/db/src/lib.rs: the rows, and one definition for each statement, of the same
--                  name. Db/Quota is check_quota_and_reserve, Db/Tokens the tokens, sessions and CLI codes.
--   Auth           crates/auth/src: Username is lib.rs, Session session.rs, Login, Cli and Profile
--                  are routes.rs, Gateway (with Entry) is gateway.rs, Webauthn and Passkey are
--                  passkey.rs. Http has the handlers' requests and responses.
--   Api            crates/api/src/lib.rs: Responses has the interface VmOps, Owned and Handlers the
--                  handlers.
--   Networking     crates/networking/src/ip.rs and tap.rs
--   ControlPlane   crates/control-plane/src: Scheduler is scheduler.rs, Subdomain subdomain.rs,
--                  CaddyRouter caddy_router.rs, Events events.rs, Registration registration.rs,
--                  Ops (with Creation and Renaming) and Resize ops.rs, Migration migration.rs, Admin
--                  admin.rs. Implementation fills the API's interface VmOps.
--                  Agents is the interface that these have to the hosts' agents.
--   HostAgent      crates/host-agent/src: Util is manager/util.rs, Lifecycle and Teardown are
--                  manager/mod.rs, Snapshot manager/snapshot.rs, Clone manager/clone.rs, Reconcile
--                  reconcile.rs and health.rs. Service is agent.rs: it fills the interface Agents.
--   Base           shared names, lists, integers, sorting and texts
--   Tests          runs at concrete states
--
-- How the code is read:
--   - A statement of the database either has its whole effect or fails, with an error that the
--     World's list `faults` holds, and then has none. A transaction is one such step, but for
--     check_quota_and_reserve, whose statements and commit fail one by one, since only the commit's
--     serialization failure is retried. The constraints of crates/db/migrations are tests before a
--     statement's effect.
--   - Rows of a SELECT without ORDER BY come in the order of the table.
--   - Status columns hold the literals that the code writes, as data types.
--   - External commands, Firecracker and HTTP calls succeed or fail as the list `outcomes` says.
--   - The clock stands still within one operation. uuid values come from a function of the World.
--   - The i64 sum of the quota test and the i64 numbers of the virtual CPUs that a VM is launched
--     with wrap, as do i32 results. Other i64 results, such as a time and an interval, are exact.
--   - Path::join is applied to bases without a final slash. Numbers in JSON are integers.
--   - An operation runs alone: locks and interleavings of two requests are not modelled.
--   - The slot search has 65534 rounds, one for each slot.
--   - Messages of errors are shortened, but for the words that clone_vm looks for in them.
--   - A task that a handler spawns runs at once. A header that is no text counts as absent.
--   - webauthn-rs is the record Webauthn of its calls, which draw their challenges themselves. argon2,
--     sha2, base64 and the image crate are parameters, and so are the letters drawn at random.
--
-- Not modelled: HTTP and gRPC transport, TLS, metrics, start-up, how the agent builds an image, the
-- lists that the database orders by a collation (regions and the administrator's VMs), the services in
-- Go and the web client.
pub mod Base
pub mod World
pub mod Db
pub mod Networking
pub mod ControlPlane
pub mod Auth
pub mod Api
pub mod HostAgent
pub mod Tests
