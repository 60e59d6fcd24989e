-- ===== src/ControlPlane/Scheduler/Candidates.antt =====
-- crates/control-plane/src/scheduler.rs: the labels of a host that may take the VM.
use spwn.Base.{◌≡◌, refl, true, Option, none, some, arith}
use spwn.Base.Int.{ℤ, ◌-ℤ◌, ◌≤ℤ◌}
use spwn.Db.Json.{Json, Fields, end, field, json_eq, get, as_object}
use spwn.Db.Rows.{HostRow}
use spwn.ControlPlane.Scheduler.{
  heartbeat_timeout_secs, free_vcpus, free_mem, same_value, has_all, in_labels, in_object,
  meets_labels,
}

-- Every required pair is among the host's labels, with an equal value.
abbrev pub HasPairs : Fields → Fields → Type 0
HasPairs end host_map = Unit {0}
HasPairs (field k v req_map) host_map =
    ((w : Json) × (get k host_map ≡ some w) × (json_eq w v ≡ true)) × HasPairs req_map host_map

abbrev pub MeetsObject : Option Fields → Json → Type 0
MeetsObject none labels = Unit {0}
MeetsObject (some req_map) labels =
    (host_map : Fields) × (as_object labels ≡ some host_map) × HasPairs req_map host_map

abbrev pub MeetsLabels : Option Json → Json → Type 0
MeetsLabels none labels = Unit {0}
MeetsLabels (some required) labels = MeetsObject (as_object required) labels

-- The host has been heard of within the timeout, has room, and carries the labels.
pub record CanHost (vcpus mem_mb : ℤ) (required : Option Json) (now : ℤ) (h : HostRow)
    : Type 0 where
  pub alive : (now -ℤ h.last_seen_at) ≤ℤ heartbeat_timeout_secs
  pub has_vcpus : vcpus ≤ℤ free_vcpus h
  pub has_mem : mem_mb ≤ℤ free_mem h
  pub has_labels : MeetsLabels required h.labels

same_value_sound :
    (o : Option Json) (v : Json)
    → same_value o v ≡ true
    → (w : Json) × (o ≡ some w) × (json_eq w v ≡ true)
same_value_sound none v h = ground arith
same_value_sound (some w) v h = (w, refl, h)

has_all_sound : (req host_map : Fields) → has_all req host_map ≡ true → HasPairs req host_map
unfolding has_all
has_all_sound end host_map h = tt
has_all_sound (field k v req) host_map h =
    (same_value_sound (get k host_map) v (ground arith), has_all_sound req host_map (ground arith))

has_all_complete : (req host_map : Fields) → HasPairs req host_map → has_all req host_map ≡ true
unfolding has_all
has_all_complete end host_map h = refl
has_all_complete (field k v req) host_map ((w, found, same), rest) =
    rw (found, same) (has_all_complete req host_map rest)

in_object_sound :
    (o : Option Fields) (labels : Json) → in_object o labels ≡ true → MeetsObject o labels
in_object_sound none labels h = tt
in_object_sound (some req) labels h = go (as_object labels) refl h
  where
    go :
        (m : Option Fields)
        → as_object labels ≡ m
        → in_labels req m ≡ true
        → (host_map : Fields) × (as_object labels ≡ some host_map) × HasPairs req host_map
    go none e h = ground arith
    go (some m) e h = (m, e, has_all_sound req m h)

in_object_complete :
    (o : Option Fields) (labels : Json) → MeetsObject o labels → in_object o labels ≡ true
in_object_complete none labels h = refl
in_object_complete (some req) labels (m, e, pairs) = rw e (has_all_complete req m pairs)

pub meets_labels_sound :
    (required : Option Json) (labels : Json)
    → meets_labels required labels ≡ true
    → MeetsLabels required labels
unfolding meets_labels
meets_labels_sound none labels h = tt
meets_labels_sound (some r) labels h = in_object_sound (as_object r) labels h

pub meets_labels_complete :
    (required : Option Json) (labels : Json)
    → MeetsLabels required labels
    → meets_labels required labels ≡ true
unfolding meets_labels
meets_labels_complete none labels h = refl
meets_labels_complete (some r) labels h = in_object_complete (as_object r) labels h
