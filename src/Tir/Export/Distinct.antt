-- ===== src/Tir/Export/Distinct.antt =====
-- The ids of the nodes that `Export` lists from a log.
use mathlib.Core.Path.{subst}
use trajectory_irmrd.Base.{
  ◌≤◌, ◌≡◌, sym, refl, inl, inr, Bool, false, ◌&&◌, Bool-cases, Option, none, some, List, [], ◌∷◌,
  map, arith, any, count, contains, ◌==◌, Str, str, str_eq, Fields, get, get_text, ok,
  and_then-eq-ok, ok-injective, Env,
}
use trajectory_irmrd.Log.{
  Row, Db, conflicts, row_record, row_records, list_any, list_nodes, list_nodes_all_tenants,
}
use trajectory_irmrd.Log.AppendOnly.{Separated}
use trajectory_irmrd.Log.Listing.{asked_for, list_any-IsListing}
use trajectory_irmrd.Tir.Export.{listed}
use trajectory_irmrd.Tir.Export.Reload.{DistinctIds}

abbrev is_at : Str → Row → Bool
is_at id r = r.id == id

count-conflicts :
    (r : Row) (rows : List Row) → any (conflicts r) rows ≡ false → count (is_at r.id) rows ≡ 0
unfolding conflicts
count-conflicts r [] h = refl
count-conflicts r (x ∷ rows) h = ground (arith, count-conflicts r rows)

-- A table with unique keys holds an id at most once.
count-Separated : (id : Str) (rows : List Row) → Separated rows → count (is_at id) rows ≤ 1
count-Separated id [] h = omega arith
count-Separated id (r ∷ rows) h = elim (Bool-cases (r.id == id)) [
  | inl here ↦
      let same : r.id ≡ id = ground (arith, here) in
      let none_left = subst (λ i. count (is_at i) rows ≡ 0) same (count-conflicts r rows h.0) in
      ground (arith, here, none_left)
  | inr elsewhere ↦ ground (arith, elsewhere, count-Separated id rows h.1)
]

count-both : (p q : Row → Bool) (rows : List Row) → count (λ r. q r && p r) rows ≤ count p rows
count-both p q [] = omega arith
count-both p q (r ∷ rows) = ground (arith, count-both p q rows)

module _ (E : Env) where
  row_record-id : (r : Row) {m : Fields} → row_record E r ≡ ok m → get_text (str "id") m ≡ r.id
  unfolding row_record get_text get str_eq
  row_record-id r h = ground arith

  row_records-cons :
      (r : Row) (rows : List Row) {ms : List Fields}
      → row_records E (r ∷ rows) ≡ ok ms
      → (m : Fields) × (rest : List Fields) × (get_text (str "id") m ≡ r.id)
        × (row_records E rows ≡ ok rest)
        × (m ∷ rest ≡ ms)
  unfolding row_records
  row_records-cons r rows h =
      let (m, made, e) = and_then-eq-ok (row_record E r) _ h in
      let (rest, others, e1) = and_then-eq-ok (row_records E rows) _ e in
      (m, rest, row_record-id r made, others, ok-injective e1)

  row_records-nil : {ms : List Fields} → row_records E [] ≡ ok ms → [] ≡ ms
  unfolding row_records
  row_records-nil h = ok-injective h

  -- An id that no row has, no record has.
  contains-records :
      (id : Str) (rows : List Row) {ms : List Fields}
      → count (is_at id) rows ≡ 0
      → row_records E rows ≡ ok ms
      → contains id (map (get_text (str "id")) ms) ≡ false
  contains-records id [] {ms} absent h =
      subst (λ l. contains id (map (get_text (str "id")) l) ≡ false) (row_records-nil h) refl
  contains-records id (r ∷ rows) {ms} absent h =
      let (m, rest, named, others, same) = row_records-cons r rows h in
      let later = contains-records id rows (ground (arith, absent)) others in
      subst (λ l. contains id (map (get_text (str "id")) l) ≡ false) same
        (ground (arith, later, named, absent))

  DistinctIds-records :
      (rows : List Row) {ms : List Fields}
      → ((id : Str) → count (is_at id) rows ≤ 1)
      → row_records E rows ≡ ok ms
      → DistinctIds ms
  DistinctIds-records [] {ms} once h = subst DistinctIds (row_records-nil h) tt
  DistinctIds-records (r ∷ rows) {ms} once h =
      let (m, rest, named, others, same) = row_records-cons r rows h in
      let absent : count (is_at r.id) rows ≡ 0 = ground (arith, once r.id) in
      let fresh =
        subst (λ id. contains id (map (get_text (str "id")) rest) ≡ false) (sym named)
          (contains-records r.id rows absent others) in
      subst DistinctIds same
        (fresh, DistinctIds-records rows (λ id. ground (arith, once id)) others)

  list_any-DistinctIds :
      (trajectory : Str) (tenant : Option Str) (db : Db) {ms : List Fields}
      → Separated db.rows
      → (list_any E trajectory tenant db).0 ≡ ok ms
      → DistinctIds ms
  list_any-DistinctIds trajectory tenant db separated h =
      let l = list_any-IsListing E trajectory tenant db h in
      DistinctIds-records l.rows
        (λ id. omega (
          arith,
          l.complete (is_at id),
          count-both (is_at id) (asked_for trajectory tenant) db.rows,
          count-Separated id db.rows separated,
        ))
        l.records

  -- The nodes that are listed from a table with unique keys have different ids.
  pub listed-DistinctIds :
      (trajectory : Str) (tenant : Option Str) (db : Db) {ms : List Fields}
      → Separated db.rows
      → (listed E trajectory tenant db).0 ≡ ok ms
      → DistinctIds ms
  unfolding list_nodes list_nodes_all_tenants
  listed-DistinctIds trajectory none db separated h =
      list_any-DistinctIds trajectory none db separated h
  listed-DistinctIds trajectory (some tenant) db separated h =
      list_any-DistinctIds trajectory (some tenant) db separated h
