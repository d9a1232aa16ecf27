-- ===== src/Base/Results.antt =====
-- Results and errors. A Go function that returns `(T, error)` returns a `Result T`; one that also
-- changes state is an `Action`, whose state comes back beside an error too.
use mathlib.Core.Path.{◌≡◌, refl, subst}
use mathlib.Core.Logic.{◌⊎◌, inl, inr}
use mathlib.Core.Bool.{Bool, true, false}
use mathlib.Core.Option.{Option, none, some}
use trajectory_irmrd.Base.Logic.{if◌then◌else◌}
use trajectory_irmrd.Base.Text.{Str}
use trajectory_irmrd.Base.Int.{ℤ}

-- Why `ValidateIDComponent` refuses a value.
pub data IdFault : Type 0 where
  empty not_utf8 delimiter too_long : IdFault

pub data Error : Type 0 where
  -- nodes: an identity component (its name, and why), a kind, a payload
  bad_id : Str → IdFault → Error
  unknown_kind : Str → Error
  ts_hashed : Error
  json_marshal : Error
  json_unmarshal : Error
  jcs_transform : Error
  -- the logs
  sql_failed : Error
  slot_conflict : Error
  empty_tenant : Error
  -- sandbox: the mode text; the tool and its effect
  bad_mode : Str → Error
  sandbox_forbidden : Str → Str → Error
  -- durable
  missing_key : Error
  bad_memo : Error
  use_after_close : Error
  -- resume
  blocked_needs_gate : ℤ → Str → Error
  tool_failed : Error
  model_failed : Error
  not_object : Error
  missing_tool_calls : Error
  tool_calls_not_list : Error
  missing_tool_name : Error
  unknown_tool : Str → Error
  -- graft, projector
  graft_failed : Error
  negative_budget : Error
  budget_impossible : ℤ → ℤ → Error
  -- cas
  cas_failed : Error
  cas_not_found : Error
  cas_integrity : Error
  cas_invalid : Error
  io_failed : Error
  -- tir
  tir_failed : Error
  tir_verification : Error
  tir_limit : Error
  tir_unsafe_path : Error
  tir_signature : Error
  not_int : Error
  -- mcp
  no_root : Error
  no_path : Error
  path_failed : Error
  path_escapes : Error
  no_directory : Error
  is_symlink : Error
  -- client
  missing_ids : Error
  no_history : Error

pub data Result {ℓ} (A : Type ℓ) : Type ℓ where
  ok : A → Result A
  err : Error → Result A

-- `x, err := m; if err != nil { return err }; f(x)`
abbrev pub and_then {ℓ κ} : {A : Type ℓ} {B : Type κ} → Result A → (A → Result B) → Result B
and_then (ok a) f = f a
and_then (err e) f = err e

-- A library call that fails with one error.
abbrev pub or_fail {ℓ} : {A : Type ℓ} → Error → Option A → Result A
or_fail e none = err e
or_fail e (some a) = ok a

pub and_then-eq-ok {ℓ κ} :
    {A : Type ℓ} {B : Type κ} (m : Result A) (f : A → Result B) {b : B}
    → and_then m f ≡ ok b
    → (a : A) × (m ≡ ok a) × (f a ≡ ok b)
and_then-eq-ok (ok a) f h = (a, refl, h)
and_then-eq-ok (err e) f h = cc

-- `err == nil`
abbrev pub is_ok {ℓ} : {A : Type ℓ} → Result A → Bool
is_ok (ok a) = true
is_ok (err e) = false

pub or_fail-eq-ok {ℓ} :
    {A : Type ℓ} (e : Error) (o : Option A) {a : A} → or_fail e o ≡ ok a → o ≡ some a
or_fail-eq-ok e none h = cc
or_fail-eq-ok e (some a) h = cc

pub Result-cases {ℓ} :
    {A : Type ℓ} (r : Result A) → ((a : A) × (r ≡ ok a)) ⊎ ((e : Error) × (r ≡ err e))
Result-cases (ok a) = inl (a, refl)
Result-cases (err e) = inr (e, refl)

-- `P` of a result that is there.
abbrev pub Ensures {ℓ κ} : {A : Type ℓ} (P : A → Type κ) → Result A → Type κ
Ensures P (ok a) = P a
Ensures P (err e) = Unit

pub Ensures-ok {ℓ κ} :
    {A : Type ℓ} (P : A → Type κ) {r : Result A} {a : A} → Ensures P r → r ≡ ok a → P a
Ensures-ok P h e = subst (Ensures P) e h

pub and_then-Ensures {ℓ κ μ} :
    {A : Type ℓ} {B : Type κ} (P : B → Type μ) (m : Result A) (f : A → Result B)
    → ((a : A) → m ≡ ok a → Ensures P (f a))
    → Ensures P (and_then m f)
and_then-Ensures P (ok a) f h = h a refl
and_then-Ensures P (err e) f h = tt

pub if-Ensures {ℓ κ} :
    {A : Type ℓ} (P : A → Type κ) (b : Bool) (r t : Result A)
    → Ensures P r
    → Ensures P t
    → Ensures P (if b then r else t)
if-Ensures P true r t hr ht = hr
if-Ensures P false r t hr ht = ht

pub Ensures-map {ℓ κ μ} :
    {A : Type ℓ} (P : A → Type κ) (Q : A → Type μ) (r : Result A)
    → ((a : A) → P a → Q a)
    → Ensures P r
    → Ensures Q r
Ensures-map P Q (ok a) f h = f a h
Ensures-map P Q (err e) f h = tt

pub ok-injective {ℓ} : {A : Type ℓ} {a b : A} → ok a ≡ ok b → a ≡ b
ok-injective h = cc
