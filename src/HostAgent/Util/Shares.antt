-- ===== src/HostAgent/Util/Shares.antt =====
-- crates/host-agent/src/manager: what a VM of a given size is launched and shut down with.
use spwn.Base.{
  ℕ, String, Option, ◌≡◌, refl, sym, ap, subst, ◌⊎◌, inl, inr, ◌+◌, ◌*◌, ◌/◌, ◌≤◌, ◌<◌, arith,
  Bool-cases, ltb,
}
use spwn.Base.Int.{ℤ, pos, ◌+ℤ◌, wrap_i64, div_ℤ, mul_ℤ, max_ℤ, clamp}
use spwn.Base.Text.{show, show_ℤ}
use spwn.Db.Rows.{VmRow}
use spwn.World.{Launch}
use spwn.HostAgent.Util.{cpu_weight, quota, cpu_max, memory_max, vcpu_count, graceful_secs}
use spwn.HostAgent.Lifecycle.{launch_config}
use Prim.Native.String.{◌++◌}

-- `a` is `n / d` rounded down.
abbrev pub Quotient : ℕ → ℕ → ℤ → Type 0
Quotient n d a = (q : ℕ) × (a ≡ pos q) × (q * d ≤ n) × (n < q * d + d)

-- `a` is `n / d` rounded up.
abbrev pub QuotientUp : ℕ → ℕ → ℤ → Type 0
QuotientUp n d a = (q : ℕ) × (a ≡ pos q) × (n ≤ q * d) × (q * d < n + d)

-- The window of 8000 / n seconds, kept within 8 and 60.
abbrev pub Window : ℕ → ℤ → Type 0
Window n a =
    (secs : ℕ) × (a ≡ pos secs)
    × (8 ≤ secs)
    × (secs ≤ 60)
    × ((secs ≡ 8) ⊎ (secs * n ≤ 8000))
    × ((secs ≡ 60) ⊎ (8000 < secs * n + n))

cpu_weight-Quotient : (n : ℕ) → 10 ≤ n → n ≤ 100000 → Quotient n 10 (cpu_weight (pos n))
unfolding cpu_weight div_ℤ
cpu_weight-Quotient n low high = (n / 10, ground arith, omega arith, omega arith)

vcpu_count-QuotientUp : (n : ℕ) → 10 ≤ n → n ≤ 100000 → QuotientUp n 1000 (vcpu_count (pos n))
unfolding vcpu_count div_ℤ ◌+ℤ◌ wrap_i64
vcpu_count-QuotientUp n low high = ((n + 999) / 1000, ground arith, omega arith, omega arith)

quota-share : (n : ℕ) → 10 ≤ n → n ≤ 100000 → quota (pos n) ≡ pos (n * 100)
unfolding quota mul_ℤ div_ℤ wrap_i64
quota-share n low high = ground arith

memory-bytes : (m : ℕ) → max_ℤ (mul_ℤ (pos m) 1048576) (pos 0) ≡ pos (m * 1048576)
unfolding mul_ℤ
memory-bytes m = ground arith

division : (n : ℕ) → 10 ≤ n → (8000 / n * n ≤ 8000) × (8000 < 8000 / n * n + n)
division n low = (grind arith, grind arith)

mul_mono : (a b n : ℕ) → a ≤ b → a * n ≤ b * n
mul_mono a b n h = grind arith

clamp-Window :
    (n q : ℕ) → q * n ≤ 8000 → 8000 < q * n + n → Window n (clamp (pos q) (pos 8) (pos 60))
clamp-Window n q below above = elim (Bool-cases (ltb q 8)) [
  | inl e ↦ (
    8,
    ground arith,
    omega arith,
    omega arith,
    inl refl,
    inr (ground (arith, mul_mono (q + 1) 8 n)),
  )
  | inr e ↦ elim (Bool-cases (ltb 60 q)) [
    | inl f ↦ (
      60,
      ground arith,
      omega arith,
      omega arith,
      inr (ground (arith, mul_mono 60 q n)),
      inl refl,
    )
    | inr f ↦ (q, ground arith, ground arith, ground arith, inr below, inr above)
  ]
]

graceful_secs-Window : (n : ℕ) → 10 ≤ n → Window n (graceful_secs (pos n))
unfolding graceful_secs
graceful_secs-Window n low =
    let (below, above) = division n low in
    subst (Window n) (sym (ground arith)) (clamp-Window n (8000 / n) below above)

pub record Shares (n m : ℕ) (l : Launch) (secs : ℤ) : Type 0 where
  pub weight : Quotient n 10 (Launch.weight l)
  pub cores : QuotientUp n 1000 (Launch.vcpu_count l)
  pub cpu_quota : Launch.cpu_quota l ≡ show (n * 100) ++ " 100000"
  pub memory : Launch.mem_size_mib l ≡ pos m
  pub memory_max : Launch.memory_max l ≡ show (m * 1048576)
  -- of the time to shut down
  pub window : Window n secs

-- For a VM of `n` thousandths of a core, from 10 to 100000, and `m` MiB: the weight of its CPU group
-- is a tenth of `n`, rounded down; it has the fewest virtual cores that hold `n`; its quota is 100 `n`
-- microseconds of each 100000, and its memory limit `m` MiB in bytes. It gets 8000 / `n` seconds to
-- shut down, rounded down, but no fewer than 8 and no more than 60.
pub launch_config-Shares :
    (vm : VmRow) (args : Option String) (tap : String) (n m : ℕ)
    → vm.vcpus ≡ pos n
    → vm.memory_mb ≡ pos m
    → 10 ≤ n
    → n ≤ 100000
    → Shares n m (launch_config vm args tap) (graceful_secs vm.vcpus)
unfolding launch_config cpu_max memory_max mul_ℤ show_ℤ
launch_config-Shares vm args tap n m cpus mem low high = record {
  weight = rw cpus (cpu_weight-Quotient n low high);
  cores = rw cpus (vcpu_count-QuotientUp n low high);
  cpu_quota = rw (cpus, quota-share n low high) refl;
  memory = mem;
  memory_max = rw mem (ap show_ℤ (memory-bytes m));
  window = rw cpus (graceful_secs-Window n low);
}
