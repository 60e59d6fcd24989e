-- ===== src/Db/Hosts.antt =====
-- crates/db/src/lib.rs: the statements on `hosts`, `vm_migrations`, `snapshots`, `vm_events` and
-- `audit_log`.
use spwn.Base.{
  ℕ, suc, String, ◌==◌, Bool, true, false, ◌||◌, Option, none, some, List, [], ◌∷◌, ◌++◌, length,
  select, find, any, update_where, if◌then◌else◌, ltb, take,
}
use spwn.Base.Int.{ℤ, pos, negate_ℤ}
use spwn.Base.Sort.{sort_by_key}
use spwn.Db.Json.{obj, end}
use spwn.Db.Rows.{
  Db, HostStatus, active, draining, HostRow, NewHost, VmMigrationRow, NewVmMigration,
  MigrationStatus, pending, SnapshotRow, NewSnapshot, VmEventRow,
}
use spwn.Db.Vms.{has_id, is_none}
use spwn.World.{
  unique_violation, foreign_key_violation, Exec, Done, ◌>>=◌, ◌>>◌, pure, gets, query, update,
  constrained,
}

abbrev pub is_host : String → HostRow → Bool
is_host id h = h.id == id

-- The columns that a registration does not send have the schema's defaults.
unfoldable pub registered_host : NewHost → ℤ → HostRow
registered_host host now = record {
  id = host.id;
  name = host.name;
  address = host.address;
  vcpu_total = host.vcpu_total;
  mem_total_mb = host.mem_total_mb;
  images_dir = host.images_dir;
  overlay_dir = host.overlay_dir;
  snapshot_dir = host.snapshot_dir;
  kernel_path = host.kernel_path;
  last_seen_at = now;
  status = active;
  vcpu_used = pos 0;
  mem_used_mb = pos 0;
  labels = obj end;
  snapshot_addr = host.snapshot_addr;
}

-- ON CONFLICT (id) DO UPDATE SET …
unfoldable pub refreshed_host : NewHost → ℤ → HostRow → HostRow
refreshed_host host now h = record h {
  name = host.name;
  address = host.address;
  vcpu_total = host.vcpu_total;
  mem_total_mb = host.mem_total_mb;
  images_dir = host.images_dir;
  overlay_dir = host.overlay_dir;
  snapshot_dir = host.snapshot_dir;
  kernel_path = host.kernel_path;
  snapshot_addr = host.snapshot_addr;
  last_seen_at = now;
}

-- The row that is returned is built from the request, whatever the table holds.
unfoldable pub upsert_host : NewHost → Exec HostRow
unfolding registered_host refreshed_host
upsert_host host = do
  now ← gets (λ w. w.now)
  update (λ d.
      if any (is_host host.id) d.hosts
      then record d { hosts = update_where (is_host host.id) (refreshed_host host now) d.hosts }
      else record d { hosts = d.hosts ++ registered_host host now ∷ [] })
  pure (registered_host host now)

-- CASE WHEN status = 'draining' THEN 'draining' ELSE 'active' END
abbrev pub after_heartbeat : HostStatus → HostStatus
after_heartbeat draining = draining
after_heartbeat _ = active

unfoldable pub update_hosts : String → (HostRow → HostRow) → Db → Db
update_hosts id f d = record d { hosts = update_where (is_host id) f d.hosts }

unfoldable pub update_host_heartbeat : String → ℤ → ℤ → Exec Done
unfolding update_hosts
update_host_heartbeat host_id vcpu_used mem_used_mb = do
  now ← gets (λ w. w.now)
  update (
      update_hosts host_id (λ h. record h {
        last_seen_at = now;
        vcpu_used = vcpu_used;
        mem_used_mb = mem_used_mb;
        status = after_heartbeat h.status;
      }))

unfoldable pub list_hosts : Exec (List HostRow)
list_hosts = query (λ d. d.hosts)

unfoldable pub get_host : String → Exec (Option HostRow)
get_host id = query (λ d. find (is_host id) d.hosts)

unfoldable pub set_host_status : String → HostStatus → Exec Done
unfolding update_hosts
set_host_status host_id status = update (update_hosts host_id (λ h. record h { status = status }))

abbrev pub is_active : HostRow → Bool
is_active h = elim h.status [ active ↦ true | _ ↦ false ]

unfoldable pub list_active_hosts : Exec (List HostRow)
list_active_hosts = query (λ d. select is_active d.hosts)

unfoldable pub pending_migration : NewVmMigration → ℤ → VmMigrationRow
pending_migration m now = record {
  id = m.id;
  vm_id = m.vm_id;
  from_host = m.from_host;
  to_host = m.to_host;
  status = pending;
  started_at = now;
  finished_at = none;
}

-- The columns vm_id, from_host and to_host refer to `vms` and `hosts`.
unfoldable pub create_vm_migration : NewVmMigration → Exec VmMigrationRow
unfolding pending_migration
create_vm_migration m = do
  now ← gets (λ w. w.now)
  constrained
      (λ d.
        if any (λ r. VmMigrationRow.id r == m.id) d.vm_migrations
        then some unique_violation
        else if is_none (find (has_id m.vm_id) d.vms)
            || (is_none (find (is_host m.from_host) d.hosts)
                || is_none (find (is_host m.to_host) d.hosts))
        then some foreign_key_violation
        else none)
      (λ d. record d { vm_migrations = d.vm_migrations ++ pending_migration m now ∷ [] })
  pure (pending_migration m now)

unfoldable pub update_migration_status : String → MigrationStatus → Option ℤ → Exec Done
update_migration_status id status finished_at = update (λ d. record d {
  vm_migrations =
      update_where (λ m. VmMigrationRow.id m == id)
        (λ m. record m { status = status; finished_at = finished_at }) d.vm_migrations;
})

-- ORDER BY started_at DESC
unfoldable pub list_vm_migrations : String → Exec (List VmMigrationRow)
list_vm_migrations vm_id = query (λ d.
    sort_by_key (λ m. negate_ℤ m.started_at)
      (select (λ m. VmMigrationRow.vm_id m == vm_id) d.vm_migrations))

unfoldable pub created_snapshot : NewSnapshot → ℤ → SnapshotRow
created_snapshot snap now = record {
  id = snap.id;
  vm_id = snap.vm_id;
  label = snap.label;
  snapshot_path = snap.snapshot_path;
  mem_path = snap.mem_path;
  size_bytes = snap.size_bytes;
  created_at = now;
}

unfoldable pub create_snapshot : NewSnapshot → Exec SnapshotRow
unfolding created_snapshot
create_snapshot snap = do
  now ← gets (λ w. w.now)
  constrained
      (λ d.
        if any (λ s. SnapshotRow.id s == snap.id) d.snapshots
        then some unique_violation
        else if is_none (find (has_id snap.vm_id) d.vms)
        then some foreign_key_violation
        else none)
      (λ d. record d { snapshots = d.snapshots ++ created_snapshot snap now ∷ [] })
  pure (created_snapshot snap now)

unfoldable pub get_snapshot : String → Exec (Option SnapshotRow)
get_snapshot id = query (λ d. find (λ s. SnapshotRow.id s == id) d.snapshots)

abbrev pub of_vm : String → SnapshotRow → Bool
of_vm vm_id s = s.vm_id == vm_id

-- ORDER BY created_at DESC
unfoldable pub list_snapshots : String → Exec (List SnapshotRow)
list_snapshots vm_id =
    query (λ d. sort_by_key (λ s. negate_ℤ s.created_at) (select (of_vm vm_id) d.snapshots))

unfoldable pub count_snapshots : String → Exec ℕ
count_snapshots vm_id = query (λ d. length (select (of_vm vm_id) d.snapshots))

unfoldable pub delete_snapshot : String → Exec Done
delete_snapshot id = update (λ d. record d {
  snapshots = select (λ s. if SnapshotRow.id s == id then false else true) d.snapshots;
})

-- The id is a serial number: one more than the newest event's.
abbrev next_event_id : List VmEventRow → ℕ
next_event_id [] = 1
next_event_id (e ∷ es) = suc e.id

unfoldable pub log_event : String → String → Option String → Exec Done
log_event vm_id event metadata = do
  now ← gets (λ w. w.now)
  constrained
      (λ d. if is_none (find (has_id vm_id) d.vms) then some foreign_key_violation else none)
      (λ d. record d {
        vm_events =
            record {
              id = next_event_id d.vm_events;
              vm_id = vm_id;
              event = event;
              metadata = metadata;
              created_at = now;
            }
            ∷ d.vm_events;
      })

abbrev before_cursor : Option ℕ → ℕ → Bool
before_cursor none id = true
before_cursor (some cursor) id = ltb id cursor

-- ORDER BY id DESC LIMIT n, over a table that is kept newest first
unfoldable pub list_vm_events : String → ℕ → Option ℕ → Exec (List VmEventRow)
list_vm_events vm_id limit before = query (λ d. take limit (
    select (λ e. if before_cursor before (VmEventRow.id e) then e.vm_id == vm_id else false)
      d.vm_events))
