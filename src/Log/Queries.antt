-- ===== src/Log/Queries.antt =====
-- The read methods `ListNodes` and `Has`.
use mathlib.Core.Path.{subst}
use trajectory_irmrd.Base.{
  ◌≡◌, refl, ap, ◌∙◌, inl, inr, Bool, true, ◌&&◌, Option, some, List, [], ◌∷◌, arith, if◌then◌else◌,
  ◌==◌, any, filter, All, Bool-cases, Str, str, str_eq, int_eq, option_eq, ℤ, Fields, ok, err,
  ◌>>=◌, Env, get, text, and_then-eq-ok, sql_failed, sort_by-All, empty_tenant,
}
use trajectory_irmrd.Log.{
  Row, Db, statement, row_less, selected, matches, has_row, is_claimed, has, row_record,
  row_records, list_any, list_nodes,
}

filter-All : (p : Row → Bool) (rows : List Row) → All (λ r. p r ≡ true) (filter p rows)
filter-All p [] = tt
filter-All p (r ∷ rows) = elim (Bool-cases (p r)) [
  | inl pass ↦ rw pass (pass, filter-All p rows)
  | inr fail ↦ rw fail (filter-All p rows)
]

-- The rows in the scope of a listing.
abbrev pub in_scope : Str → Option Str → Row → Bool
in_scope trajectory tenant r = r.trajectory_id == trajectory && matches tenant r.tenant_id

any_has_claimed :
    (trajectory tenant : Str) (step_n seq : ℤ) (rows : List Row)
    → any (has_row trajectory (some tenant) step_n (str "TOOL_CALL") (some seq)) rows
      ≡ any (is_claimed step_n trajectory tenant seq) rows
unfolding has_row is_claimed
any_has_claimed trajectory tenant step_n seq [] = refl
any_has_claimed trajectory tenant step_n seq (r ∷ rows) =
    ground (arith, any_has_claimed trajectory tenant step_n seq rows)

-- A record that names its trajectory and its tenant.
abbrev pub IsScoped : Str → Str → Fields → Type 0
IsScoped trajectory tenant m =
    (get (str "trajectory_id") m ≡ some (text trajectory))
    × (get (str "tenant_id") m ≡ some (text tenant))

scope_eqs :
    (trajectory tenant : Str) (r : Row)
    → in_scope trajectory (some tenant) r ≡ true
    → (r.trajectory_id ≡ trajectory) × (r.tenant_id ≡ tenant)
scope_eqs trajectory tenant r h = (ground arith, ground arith)

module _ (E : Env) where
  row_record-IsScoped :
      (r : Row) {m : Fields} → row_record E r ≡ ok m → IsScoped r.trajectory_id r.tenant_id m
  unfolding row_record get
  row_record-IsScoped r h = ground arith

  row_records-All :
      (trajectory tenant : Str) (rows : List Row) {ms : List Fields}
      → All (λ r. in_scope trajectory (some tenant) r ≡ true) rows
      → row_records E rows ≡ ok ms
      → All (IsScoped trajectory tenant) ms
  unfolding row_records
  row_records-All trajectory tenant [] {ms} s h =
      let e : [] ≡ ms = cc in subst (All (IsScoped trajectory tenant)) e tt
  row_records-All trajectory tenant (r ∷ rows) {ms} s h =
      let a = and_then-eq-ok (row_record E r) _ h in
      let b = and_then-eq-ok (row_records E rows) _ a.2 in
      let e : a.0 ∷ b.0 ≡ ms = cc b.2 in
      let (tr, te) = scope_eqs trajectory tenant r s.0 in
      subst (All (IsScoped trajectory tenant)) e (
        (
          (row_record-IsScoped r a.1).0 ∙ ap (λ x. some (text x)) tr,
          (row_record-IsScoped r a.1).1 ∙ ap (λ x. some (text x)) te,
        ),
        row_records-All trajectory tenant rows s.1 b.1,
      )

  pub list_any-inv :
      (trajectory : Str) (tenant : Option Str) (db : Db) {ms : List Fields}
      → (list_any E trajectory tenant db).0 ≡ ok ms
      → row_records E (selected trajectory tenant db.rows) ≡ ok ms
  unfolding list_any statement ◌>>=◌
  list_any-inv trajectory tenant db h = ground arith

  -- Every record that ListNodes returns is of the trajectory and of the tenant asked for.
  pub list_nodes-IsScoped :
      (trajectory tenant : Str) (db : Db) {ms : List Fields}
      → (list_nodes E trajectory tenant db).0 ≡ ok ms
      → All (IsScoped trajectory tenant) ms
  unfolding list_nodes selected
  list_nodes-IsScoped trajectory tenant db h =
      row_records-All trajectory tenant (selected trajectory (some tenant) db.rows)
        (sort_by-All (λ r. in_scope trajectory (some tenant) r ≡ true) row_less
          (filter (in_scope trajectory (some tenant)) db.rows)
          (filter-All (in_scope trajectory (some tenant)) db.rows))
        (list_any-inv trajectory (some tenant) db h)

  -- Has for TOOL_CALL at a sequence number answers what the query of ClaimToolCall answers; it
  -- refuses an empty tenant and reports a failed statement.
  pub has_tool_call :
      (trajectory tenant : Str) (step_n seq : ℤ) (db : Db)
      → (has E trajectory tenant step_n (str "TOOL_CALL") (some seq) db).0 ≡ (
          if tenant == []
          then err empty_tenant
          else if E.sql_fails db.clock
          then err sql_failed
          else ok (any (is_claimed step_n trajectory tenant seq) db.rows))
  unfolding has statement ◌>>=◌
  has_tool_call trajectory tenant step_n seq db =
      ground (arith, any_has_claimed trajectory tenant step_n seq db.rows)
