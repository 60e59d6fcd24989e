-- ===== src/World.antt =====
-- The state that the program runs on: the shared database, the requests sent to Caddy, the events
-- broadcast, the state of one host agent, and the environment's answers. A handler is an action
-- `Exec A`: it returns a value or a failure, and the state beside it in both cases.
pub mod Preserves
pub mod Outcomes
pub mod Leads
pub mod Ensures
pub mod Runs
use spwn.Base.{
  ℕ, suc, String, ◌≡◌, refl, Bool, true, false, Option, none, some, List, [], ◌∷◌, if◌then◌else◌,
}
use spwn.Base.Int.{ℤ}
use spwn.Db.Rows.{Db, VmStatus}

-- DbError, by what the code can tell from the message of sqlx
pub data DbError : Type 0 where
  unavailable unique_violation foreign_key_violation serialization out_of_range : DbError

-- anyhow::Error: a database error, a message of `anyhow!`, or a VmOpsError; and QuotaError, of which
-- `serialization_conflict` is Serialization.
pub data Failure : Type 0 where
  serialization_conflict : Failure
  sqlx : DbError → Failure
  message : String → Failure
  quota_exceeded restart_required conflict validation : String → Failure

pub data Result (A : Type 0) : Type 0 where
  ok : A → Result A
  err : Failure → Result A

-- The requests of router-sync's CaddyClient: the client's base URL, the host name, the upstream.
pub data CaddyCall : Type 0 where
  set_vm_route : String → String → String → ℤ → CaddyCall
  set_stopped_route delete_route : String → String → CaddyCall

-- manager/mod.rs: VmEvent
pub data VmEvent : Type 0 where
  started stopped crashed : String → VmEvent
  snapshot_taken : String → String → VmEvent

-- The configuration that Firecracker is launched with, by the jailer's cgroup settings.
pub record Launch : Type 0 where
  pub vm_id : String
  pub boot_args : Option String
  pub vcpu_count : ℤ
  pub mem_size_mib : ℤ
  pub weight : ℤ
  pub cpu_quota : String
  pub memory_max : String
  pub host_dev_name : String

-- What a VmManager holds in memory, and what its host shows it.
pub record Agent : Type 0 where
  pub running : List String
  pub monitored_vm_ids : List String
  pub events : List VmEvent
  pub taps : List String
  pub files : List String
  pub launched : List Launch

pub record World : Type 0 where
  pub db : Db
  -- the fate of the coming statements: `some e` fails with `e` and has no effect
  pub faults : List (Option DbError)
  -- the fate of the coming external commands and calls
  pub outcomes : List Bool
  pub caddy : List CaddyCall
  pub broadcast : List (String × VmStatus)
  pub agent : Agent
  -- unix_now()
  pub now : ℤ
  -- Uuid::new_v4(): the coming values
  pub ids : ℕ → String
  pub next_id : ℕ

abbrev pub Exec : Type 0 → Type 0
Exec A = World → Result A × World

abbrev pub Done : Type 0
Done = Unit {0}

module _ {A : Type 0} where
  unfoldable pub pure : A → Exec A
  pure a w = (ok a, w)

  unfoldable pub fail : Failure → Exec A
  fail e w = (err e, w)

  -- `ok_or_else`
  unfoldable pub ok_or : Option A → Failure → Exec A
  ok_or none e w = (err e, w)
  ok_or (some a) e w = (ok a, w)

module _ {A B : Type 0} where
  abbrev pub and_then : Result A → (A → Exec B) → Exec B
  and_then (ok a) f w = f a w
  and_then (err e) f w = (err e, w)

  infixl 5 ◌>>=◌ ◌>>◌
  unfoldable pub ◌>>=◌ : Exec A → (A → Exec B) → Exec B
  unfolding pure fail ok_or
  ◌>>=◌ m f w = let (r, w') = m w in and_then r f w'

  abbrev pub ◌>>◌ : Exec A → Exec B → Exec B
  m >> n = m >>= λ _. n

module _ {A B : Type 0} where
  -- `match` on a result and on an Option
  unfoldable pub on_result : Result A → (A → Exec B) → (Failure → Exec B) → Exec B
  on_result (ok a) f g = f a
  on_result (err e) f g = g e

  unfoldable pub on_option : Option A → (A → Exec B) → Exec B → Exec B
  on_option (some a) f n = f a
  on_option none f n = n

module _ {A : Type 0} where
  -- the result as a value, for a `match` on it
  unfoldable pub attempt : Exec A → Exec (Result A)
  attempt m w = let (r, w') = m w in (ok r, w')

  -- `.ok()` and `let _ =`: what was done stays done, and a failure is dropped
  unfoldable pub ignore : Exec A → Exec Done
  ignore m w = let (r, w') = m w in (ok tt, w')

  abbrev pub result : Exec A → World → Result A
  result m w = (m w).0

  abbrev pub after : Exec A → World → World
  after m w = (m w).1

-- `return Err(…)` under a test
abbrev pub refuse_if : Bool → Failure → Exec Done
refuse_if true e = fail e
refuse_if false e = pure tt

unfoldable pub gets : {A : Type 0} → (World → A) → Exec A
gets f w = (ok (f w), w)

unfoldable pub modify : (World → World) → Exec Done
modify f w = (ok tt, f w)

unfoldable pub set_agent : (Agent → Agent) → Exec Done
unfolding modify
set_agent f = modify (λ w. record w { agent = f w.agent })

unfoldable pub new_v4 : Exec String
new_v4 w = (ok (w.ids w.next_id), record w { next_id = suc w.next_id })

module _ {A : Type 0} where
  abbrev pub stored : World → Result A × Db → Result A × World
  stored w (r, d) = (r, record w { db = d })

  abbrev pub with_fault : List (Option DbError) → (Db → Result A × Db) → Exec A
  with_fault [] f w = stored w (f w.db)
  with_fault (none ∷ rest) f w = stored (record w { faults = rest }) (f w.db)
  with_fault (some e ∷ rest) f w = (err (sqlx e), record w { faults = rest })

  -- One statement or one transaction.
  unfoldable pub transact : (Db → Result A × Db) → Exec A
  transact f w = with_fault w.faults f w

  unfoldable pub query : (Db → A) → Exec A
  unfolding transact
  query f = transact (λ d. (ok (f d), d))

unfoldable pub update : (Db → Db) → Exec Done
unfolding transact
update f = transact (λ d. (ok tt, f d))

abbrev pub checked : Option DbError → Db → Db → Result Done × Db
checked none before after' = (ok tt, after')
checked (some e) before after' = (err (sqlx e), before)

-- A statement that a constraint of the schema may refuse.
unfoldable pub constrained : (Db → Option DbError) → (Db → Db) → Exec Done
unfolding transact
constrained violation f = transact (λ d. checked (violation d) d (f d))

abbrev pub with_outcome : List Bool → Failure → Exec Done
with_outcome [] e w = (ok tt, w)
with_outcome (true ∷ rest) e w = (ok tt, record w { outcomes = rest })
with_outcome (false ∷ rest) e w = (err e, record w { outcomes = rest })

-- A command or call outside the program: it succeeds, or fails with the given error.
unfoldable pub external : Failure → Exec Done
external e w = with_outcome w.outcomes e w
