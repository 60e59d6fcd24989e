-- ===== src/ControlPlane/Scheduler/Choice.antt =====
-- The chosen host can take the VM and is the best of those that can; there is one unless none can.
use spwn.Base.{
  String, ◌==◌, ◌≡◌, refl, ◌↔◌, inl, inr, Bool, true, false, Option, List, [], ◌∷◌, reverse, subst,
  Mem, All, select, arith, if◌then◌else◌, Bool-cases,
}
use mathlib.Core.List.{reverse-reverse, mem-cons_self, mem-cons_of_mem}
use spwn.Base.Int.{ℤ, ◌≤ℤ◌}
use spwn.Base.Sort.{
  IsSorted, All-map, All-reverse, IsSorted-reverse, sort_by_key, KeyLe, All-sort_by_key,
  All-sort_by_key_conv, sort_by_key-IsSorted,
}
use spwn.Db.Json.{Json}
use spwn.Db.Rows.{HostRow}
use spwn.World.{ok, err}
use spwn.ControlPlane.Scheduler.{
  free_mem, is_candidate, no_host, first_or_fail, in_order, select_from_hosts,
}
use spwn.ControlPlane.Scheduler.Candidates.{CanHost, meets_labels_sound, meets_labels_complete}

module _ (vcpus mem_mb : ℤ) (required : Option Json) (now : ℤ) where
  -- The filter keeps exactly the hosts that can take the VM.
  is_candidate_iff :
      (h : HostRow)
      → (is_candidate vcpus mem_mb required now h ≡ true) ↔ CanHost vcpus mem_mb required now h
  unfolding is_candidate
  is_candidate_iff h = (
    (λ e. record {
      alive = ground arith;
      has_vcpus = ground arith;
      has_mem = ground arith;
      has_labels = meets_labels_sound required h.labels (ground arith);
    }),
    (λ c. ground (arith, meets_labels_complete required h.labels c.has_labels)),
  )

  abbrev candidates : List HostRow → List HostRow
  candidates hosts = select (is_candidate vcpus mem_mb required now) hosts

  -- How the two strategies compare two hosts.
  abbrev pub PrefersAt : Bool → HostRow → HostRow → Type 0
  PrefersAt true h c = free_mem c ≤ℤ free_mem h
  PrefersAt false h c = free_mem h ≤ℤ free_mem c

  abbrev pub Prefers : String → HostRow → HostRow → Type 0
  Prefers strategy = PrefersAt (strategy == "spread")

  select-CanHost :
      (P : HostRow → Type 0) (hosts : List HostRow)
      → All P hosts
      → All (λ h. P h × CanHost vcpus mem_mb required now h) (candidates hosts)
  unfolding select
  select-CanHost P [] all = tt
  select-CanHost P (h ∷ hosts) all = elim (Bool-cases (is_candidate vcpus mem_mb required now h)) [
    | inl e ↦ rw e ((all.0, (is_candidate_iff h).0 e), select-CanHost P hosts all.1)
    | inr e ↦ rw e (select-CanHost P hosts all.1)
  ]

  All-select_conv :
      (P : HostRow → Type 0) (hosts : List HostRow)
      → All P (candidates hosts)
      → All (λ h. CanHost vcpus mem_mb required now h → P h) hosts
  unfolding select
  All-select_conv P [] all = tt
  All-select_conv P (h ∷ hosts) all = elim (Bool-cases (is_candidate vcpus mem_mb required now h)) [
    | inl e ↦
        let (p, rest) : P h × All P (candidates hosts) = rw e at all in
        ((λ c. p), All-select_conv P hosts rest)
    | inr e ↦
        let rest : All P (candidates hosts) = rw e at all in
        ((λ c. cc (e, (is_candidate_iff h).1 c)), All-select_conv P hosts rest)
  ]

  All-in_order :
      (s : String) (P : HostRow → Type 0) (cs : List HostRow) → All P cs → All P (in_order s cs)
  unfolding in_order
  All-in_order s P cs all = elim (Bool-cases (s == "spread")) [
    | inl e ↦ rw e (All-reverse P (sort_by_key free_mem cs) (All-sort_by_key free_mem P cs all))
    | inr e ↦ rw e (All-sort_by_key free_mem P cs all)
  ]

  All-in_order_conv :
      (s : String) (P : HostRow → Type 0) (cs : List HostRow) → All P (in_order s cs) → All P cs
  unfolding in_order
  All-in_order_conv s P cs all = elim (Bool-cases (s == "spread")) [
    | inl e ↦
        let rev : All P (reverse (sort_by_key free_mem cs)) = rw e at all in
        let back : All P (reverse (reverse (sort_by_key free_mem cs))) =
          All-reverse P (reverse (sort_by_key free_mem cs)) rev in
        All-sort_by_key_conv free_mem P cs (rw reverse-reverse at back)
    | inr e ↦ All-sort_by_key_conv free_mem P cs (rw e at all)
  ]

  ordered_by : Bool → List HostRow → List HostRow
  ordered_by spread cs =
      if spread then reverse (sort_by_key free_mem cs) else sort_by_key free_mem cs

  ordered_by-IsSorted :
      (spread : Bool) (cs : List HostRow) → IsSorted (PrefersAt spread) (ordered_by spread cs)
  unfolding ordered_by
  ordered_by-IsSorted true cs =
      IsSorted-reverse (KeyLe free_mem) (sort_by_key free_mem cs) (sort_by_key-IsSorted free_mem cs)
  ordered_by-IsSorted false cs = sort_by_key-IsSorted free_mem cs

  in_order-IsSorted : (s : String) (cs : List HostRow) → IsSorted (Prefers s) (in_order s cs)
  unfolding in_order ordered_by
  in_order-IsSorted s cs = ordered_by-IsSorted (s == "spread") cs

  Prefers-refl : (s : String) (h : HostRow) → Prefers s h h
  Prefers-refl s h = elim (Bool-cases (s == "spread")) [
    | inl e ↦ rw e (omega arith)
    | inr e ↦ rw e (omega arith)
  ]

  first_is_best :
      (s : String) (P : HostRow → Type 0) (l : List HostRow) (h : HostRow)
      → All P l
      → IsSorted (Prefers s) l
      → first_or_fail l ≡ ok h
      → P h × All (Prefers s h) l
  first_is_best s P [] h all sorted e = cc
  first_is_best s P (x ∷ xs) h all sorted e =
      let same : x ≡ h = ground arith in
      subst (λ y. P y × (Prefers s y x × All (Prefers s y) xs)) same
        (all.0, (Prefers-refl s x, sorted.0))

  members-All : (hosts : List HostRow) → All (λ h. Mem h hosts) hosts
  members-All [] = tt
  members-All (h ∷ hosts) = (
    mem-cons_self,
    All-map (λ a. Mem a hosts) (λ a. Mem a (h ∷ hosts)) hosts (λ a m. mem-cons_of_mem h m)
        (members-All hosts),
  )

  -- The chosen host is one of the hosts, can take the VM, and the strategy prefers it to every host
  -- that can: least free memory, or most for "spread".
  pub select_from_hosts_best :
      (hosts : List HostRow) (strategy : String) (h : HostRow)
      → select_from_hosts hosts vcpus mem_mb strategy required now ≡ ok h
      → Mem h hosts
        × CanHost vcpus mem_mb required now h
        × All (λ c. CanHost vcpus mem_mb required now c → Prefers strategy h c) hosts
  unfolding select_from_hosts
  select_from_hosts_best hosts s h e =
      let ordered : List HostRow = in_order s (candidates hosts) in
      let good =
        All-in_order s (λ c. Mem c hosts × CanHost vcpus mem_mb required now c) (candidates hosts)
          (select-CanHost (λ c. Mem c hosts) hosts (members-All hosts)) in
      let (is_good, best) =
        first_is_best s (λ c. Mem c hosts × CanHost vcpus mem_mb required now c) ordered h good
          (in_order-IsSorted s (candidates hosts)) e in
      (
        is_good.0,
        is_good.1,
        All-select_conv (Prefers s h) hosts
            (All-in_order_conv s (Prefers s h) (candidates hosts) best),
      )

  failed_is_empty : (l : List HostRow) → first_or_fail l ≡ err no_host → All (λ h. ⊥) l
  failed_is_empty [] e = tt
  failed_is_empty (x ∷ xs) e = cc

  empty_fails :
      (l : List HostRow)
      → All (λ h. (¬ CanHost vcpus mem_mb required now h) × CanHost vcpus mem_mb required now h) l
      → first_or_fail l ≡ err no_host
  empty_fails [] all = refl
  empty_fails (x ∷ xs) all = absurd (all.0.0 all.0.1)

  -- The choice fails exactly when no host can take the VM.
  pub select_from_hosts-err_iff :
      (hosts : List HostRow) (strategy : String)
      → (select_from_hosts hosts vcpus mem_mb strategy required now ≡ err no_host)
        ↔ All (λ c. ¬ CanHost vcpus mem_mb required now c) hosts
  unfolding select_from_hosts
  select_from_hosts-err_iff hosts s = (
    (λ e.
        All-select_conv (λ h. ⊥) hosts
          (All-in_order_conv s (λ h. ⊥) (candidates hosts)
            (failed_is_empty (in_order s (candidates hosts)) e))),
    (λ all. empty_fails (in_order s (candidates hosts)) (
        All-in_order s
          (λ h. (¬ CanHost vcpus mem_mb required now h) × CanHost vcpus mem_mb required now h)
          (candidates hosts)
          (select-CanHost (λ h. ¬ CanHost vcpus mem_mb required now h) hosts all))),
  )
