-- ===== src/Auth/Cli/Views.antt =====
-- auth/src/routes.rs: what a code is, and how one statement changes it.
use spwn.Base.{
  String, ◌==◌, ◌≡◌, refl, sym, subst, ◌⊎◌, inl, inr, Bool, true, false, not, ◌||◌, Option, none,
  some, List, [], ◌∷◌, ◌++◌, find, any, update_where, any-find-none, eq_iff, arith, Bool-cases,
  if◌then◌else◌,
}
use spwn.Db.Rows.{Db, CliAuthCode, CodeStatus, pending, authorized, denied}
use spwn.Db.Tokens.{is_code}
use spwn.World.{Result}
use spwn.Auth.Cli.{is_pending_code}

-- What a code is, for the tool and its user.
pub data CodeView : Type 0 where
  absent waiting turned_down stray : CodeView
  granted : String → CodeView

abbrev granted_to : Option String → CodeView
granted_to none = stray
granted_to (some account_id) = granted account_id

abbrev status_view : CodeStatus → Option String → CodeView
status_view pending account_id = waiting
status_view denied account_id = turned_down
status_view authorized account_id = granted_to account_id

abbrev pub view_of : Option CliAuthCode → CodeView
view_of none = absent
view_of (some c) = status_view c.status c.account_id

abbrev pub view : String → Db → CodeView
view code d = view_of (find (is_code code) d.cli_auth_codes)

-- A code is asked for once, granted only while it waits, and may be denied at any time.
pub data Turn : CodeView → CodeView → Type 0 where
  stay : (v : CodeView) → Turn v v
  ask : Turn absent waiting
  grant : (account_id : String) → Turn waiting (granted account_id)
  deny : (v : CodeView) → Turn v turned_down

abbrev mapped : {A : Type 0} → (A → A) → Option A → Option A
mapped f none = none
mapped f (some a) = some (f a)

-- Changing the rows of one code, by a change that keeps the code.
pub find-update_codes :
    (k code : String) (f : CliAuthCode → CliAuthCode)
    → ((c : CliAuthCode) → CliAuthCode.code (f c) ≡ c.code)
    → (cs : List CliAuthCode)
    → find (is_code k) (update_where (is_code code) f cs)
      ≡ (if code == k then mapped f (find (is_code k) cs) else find (is_code k) cs)
unfolding find update_where
find-update_codes k code f keeps [] = elim (Bool-cases (code == k)) [
  | inl e ↦ rw e refl
  | inr e ↦ rw e refl
]
find-update_codes k code f keeps (c ∷ cs) = ground (
  arith,
  keeps c,
  eq_iff c.code code,
  eq_iff c.code k,
  eq_iff code k,
  eq_iff (f c).code k,
  find-update_codes k code f keeps cs,
)

pub find-snoc_if :
    (k : String) (c : CliAuthCode) (cs : List CliAuthCode)
    → any (is_code c.code) cs ≡ false
    → find (is_code k) (cs ++ c ∷ []) ≡ (if c.code == k then some c else find (is_code k) cs)
unfolding find any
find-snoc_if k c [] h = refl
find-snoc_if k c (x ∷ cs) h =
    ground (arith, eq_iff x.code k, eq_iff x.code c.code, eq_iff c.code k, find-snoc_if k c cs)

-- What every outcome of a handler satisfies.
abbrev pub Moves : {A : Type 0} → String → Db → Result A → Db → Type 0
Moves k d r d' = Turn (view k d) (view k d')

pub asked :
    (b : Bool) (k : String) (d : Db) (c : CliAuthCode)
    → b ≡ (c.code == k)
    → c.status ≡ pending
    → any (is_code c.code) d.cli_auth_codes ≡ false
    → Turn (view k d) (view_of (if b then some c else find (is_code k) d.cli_auth_codes))
unfolding find
asked true k d c e p fresh =
    let here : c.code ≡ k = (eq_iff c.code k).0 (sym e) in
    let gone : find (is_code k) d.cli_auth_codes ≡ none =
      any-find-none (is_code k) d.cli_auth_codes
        (subst (λ t. any (is_code t) d.cli_auth_codes ≡ false) here fresh) in
    rw gone (rw p ask)
asked false k d c e p fresh = stay _

pub denied_turn :
    (b : Bool) (o : Option CliAuthCode)
    → Turn (view_of o) (view_of (if b then mapped (λ c. record c { status = denied }) o else o))
denied_turn true none = stay _
denied_turn true (some c) = deny _
denied_turn false o = stay _

pub granted_turn :
    (account_id : String) (b : Bool) (o : Option CliAuthCode)
    → (b ≡ true → view_of o ≡ waiting)
    → Turn (view_of o) (
        view_of (
          if b
          then mapped (λ c. record c { status = authorized; account_id = some account_id }) o
          else o))
granted_turn account_id true none waits = stay _
granted_turn account_id true (some c) waits =
    subst (λ v. Turn v (granted account_id)) (sym (waits refl)) (grant account_id)
granted_turn account_id false o waits = stay _

pub pending_waits :
    (s : CodeStatus) (account_id : Option String)
    → is_pending_code s ≡ true
    → status_view s account_id ≡ waiting
pending_waits pending account_id e = refl
pending_waits authorized account_id e = cc
pending_waits denied account_id e = cc

pub unused_pending :
    (old : Bool) (s : CodeStatus)
    → (old || not (is_pending_code s)) ≡ false
    → is_pending_code s ≡ true
unused_pending old pending e = refl
unused_pending true authorized e = cc
unused_pending false authorized e = cc
unused_pending true denied e = cc
unused_pending false denied e = cc

pub after_turn :
    (account_id : String) (v u : CodeView)
    → Turn v u
    → (v ≡ granted account_id) ⊎ (v ≡ turned_down)
    → (u ≡ granted account_id) ⊎ (u ≡ turned_down)
after_turn account_id v u (stay _) h = h
after_turn account_id v u ask (inl e) = cc
after_turn account_id v u ask (inr e) = cc
after_turn account_id v u (grant a) (inl e) = cc
after_turn account_id v u (grant a) (inr e) = cc
after_turn account_id v u (deny _) h = inr refl
