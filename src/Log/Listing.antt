-- ===== src/Log/Listing.antt =====
-- The order and the completeness of what `ListNodes` returns.
use mathlib.Core.Path.{subst}
use trajectory_irmrd.Base.{
  ◌≡◌, ◌≢◌, ◌≤◌, ◌⊎◌, refl, ◌∙◌, inl, inr, Bool, true, false, ◌&&◌, Option, none, some, List, [],
  ◌∷◌, arith, ◌==◌, count, filter, Bool-cases, Str, str_eq, int_eq, option_eq, ℤ, pos, negsuc,
  Fields, ok, Env, sort_by, sort_by-IsSorted, IsSorted, count-sort_by, lt_int,
}
use trajectory_irmrd.Log.{Row, Db, row_less, selected, row_records, list_any, step_key}
use trajectory_irmrd.Log.Queries.{in_scope, list_any-inv}

lt_int_asymm : (a b : ℤ) → lt_int a b ≡ true → lt_int b a ≡ false
lt_int_asymm (pos a) (pos b) h = ground arith
lt_int_asymm (pos a) (negsuc b) h = cc
lt_int_asymm (negsuc a) (pos b) h = refl
lt_int_asymm (negsuc a) (negsuc b) h = ground arith

lt_int_irrefl : (a : ℤ) → lt_int a a ≡ false
lt_int_irrefl (pos a) = ground arith
lt_int_irrefl (negsuc a) = ground arith

row_less_asymm : (a b : Row) → row_less a b ≡ true → row_less b a ≡ false
unfolding row_less
row_less_asymm a b h = ground (
  arith,
  lt_int_asymm (step_key a.step_n) (step_key b.step_n),
  lt_int_asymm a.seq b.seq,
  lt_int_irrefl (step_key a.step_n),
)

count-filter :
    (p q : Row → Bool) (rows : List Row) → count p (filter q rows) ≡ count (λ r. q r && p r) rows
count-filter p q [] = refl
count-filter p q (r ∷ rows) = ground (arith, count-filter p q rows)

-- What a caller asks for: a trajectory's rows, of one tenant where a tenant is given.
abbrev pub asked_for : Str → Option Str → Row → Bool
asked_for trajectory none r = r.trajectory_id == trajectory
asked_for trajectory (some tenant) r = r.trajectory_id == trajectory && r.tenant_id == tenant

in_scope-eq :
    (trajectory : Str) (tenant : Option Str) (r : Row)
    → in_scope trajectory tenant r ≡ asked_for trajectory tenant r
in_scope-eq trajectory none r = ground arith
in_scope-eq trajectory (some tenant) r = refl

count-in_scope :
    (trajectory : Str) (tenant : Option Str) (p : Row → Bool) (rows : List Row)
    → count (λ r. in_scope trajectory tenant r && p r) rows
      ≡ count (λ r. asked_for trajectory tenant r && p r) rows
count-in_scope trajectory tenant p [] = refl
count-in_scope trajectory tenant p (r ∷ rows) =
    let rest = count-in_scope trajectory tenant p rows in
    ground (arith, rest, in_scope-eq trajectory tenant r)

-- The order of integers, and the step that a row is listed under: -1 where it has none.
abbrev pub AtMost : ℤ → ℤ → Type 0
AtMost (pos a) (pos b) = a ≤ b
AtMost (pos a) (negsuc b) = ⊥
AtMost (negsuc a) (pos b) = Unit
AtMost (negsuc a) (negsuc b) = b ≤ a

abbrev pub listed_step : Row → ℤ
listed_step r = elim r.step_n [ none ↦ negsuc 0 | some n ↦ n ]

-- The one row may stand before the other in a listing: its step is smaller, or the steps are equal
-- and its sequence number is not larger.
abbrev pub MayPrecede : Row → Row → Type 0
MayPrecede a b =
    (AtMost (listed_step a) (listed_step b) × (listed_step a ≢ listed_step b))
    ⊎ ((listed_step a ≡ listed_step b) × AtMost a.seq b.seq)

abbrev pub InOrder : List Row → Type 0
InOrder [] = Unit
InOrder (r ∷ []) = Unit
InOrder (r ∷ s ∷ rows) = MayPrecede r s × InOrder (s ∷ rows)

AtMost-of : (a b : ℤ) → lt_int b a ≡ false → AtMost a b
AtMost-of (pos a) (pos b) h = ground arith
AtMost-of (pos a) (negsuc b) h = cc
AtMost-of (negsuc a) (pos b) h = tt
AtMost-of (negsuc a) (negsuc b) h = ground arith

listed_step-eq : (r : Row) → step_key r.step_n ≡ listed_step r
unfolding step_key
listed_step-eq r = elim r.step_n [ none ↦ refl | some n ↦ refl ]

MayPrecede-of : (a b : Row) → row_less b a ≡ false → MayPrecede a b
unfolding row_less
MayPrecede-of a b h =
    let ea = listed_step-eq a in
    let eb = listed_step-eq b in
    let le = AtMost-of (step_key a.step_n) (step_key b.step_n) (ground (arith, h)) in
    elim (Bool-cases (step_key b.step_n == step_key a.step_n)) [
      | inl same ↦
          inr (ground (arith, same, ea, eb), AtMost-of a.seq b.seq (ground (arith, same, h)))
      | inr other ↦ inl (
        subst (λ n. AtMost n (listed_step b)) ea (subst (AtMost (step_key a.step_n)) eb le),
        λ e. ground (arith, other, e, ea, eb),
      )
    ]

InOrder-of : (rows : List Row) → IsSorted row_less rows → InOrder rows
InOrder-of [] h = tt
InOrder-of (r ∷ []) h = tt
InOrder-of (r ∷ s ∷ rows) h = (MayPrecede-of r s h.0, InOrder-of (s ∷ rows) h.1)

selected-InOrder :
    (trajectory : Str) (tenant : Option Str) (rows : List Row)
    → InOrder (selected trajectory tenant rows)
unfolding selected
selected-InOrder trajectory tenant rows =
    InOrder-of (sort_by row_less (filter (in_scope trajectory tenant) rows))
      (sort_by-IsSorted row_less row_less_asymm (filter (in_scope trajectory tenant) rows))

count-selected :
    (trajectory : Str) (tenant : Option Str) (p : Row → Bool) (rows : List Row)
    → count p (selected trajectory tenant rows)
      ≡ count (λ r. asked_for trajectory tenant r && p r) rows
unfolding selected
count-selected trajectory tenant p rows =
    count-sort_by row_less p (filter (in_scope trajectory tenant) rows)
    ∙ count-filter p (in_scope trajectory tenant) rows
    ∙ count-in_scope trajectory tenant p rows

module _ (E : Env) where
  -- The rows behind the records of a listing.
  pub record IsListing (trajectory : Str) (tenant : Option Str) (table : List Row)
      (ms : List Fields) : Type 0 where
    pub rows : List Row
    pub records : row_records E rows ≡ ok ms
    pub ordered : InOrder rows
    pub complete :
        (p : Row → Bool) → count p rows ≡ count (λ r. asked_for trajectory tenant r && p r) table

  -- A listing that succeeds, with or without a tenant, gives the records of rows that stand in
  -- the order of their steps, -1 where a row has none, and of their sequence numbers within a
  -- step, and that are the table's rows of the trajectory and of the tenant, each as often as the
  -- table holds it.
  pub list_any-IsListing :
      (trajectory : Str) (tenant : Option Str) (db : Db) {ms : List Fields}
      → (list_any E trajectory tenant db).0 ≡ ok ms
      → IsListing trajectory tenant db.rows ms
  list_any-IsListing trajectory tenant db h = record {
    rows = selected trajectory tenant db.rows;
    records = list_any-inv E trajectory tenant db h;
    ordered = selected-InOrder trajectory tenant db.rows;
    complete = λ p. count-selected trajectory tenant p db.rows;
  }
