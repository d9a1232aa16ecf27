-- ===== src/Log/Stored.antt =====
-- What an accepted `Append` and a won claim leave in the table, whichever statements fail.
use mathlib.Core.Path.{subst}
use trajectory_irmrd.Base.{
  ◌≡◌, ◌≢◌, sym, ap, ◌∙◌, ◌⊎◌, inl, inr, Bool, true, false, Option, List, [], ◌∷◌, ◌++◌, arith,
  ◌==◌, any, All, All-append, Bool-cases, Str, str_eq, ℤ, Fields, ok, ◌>>=◌, Env,
}
use trajectory_irmrd.Nodes.{Node}
use trajectory_irmrd.Log.{
  Row, Db, has_id, slot_eq, slot_of, conflicts, row_of, owner_in, statement, store_node, append,
}
use trajectory_irmrd.Log.AppendOnly.{Extends}
use trajectory_irmrd.Log.Replay.{append_inv}

-- The table holds a node of this id.
abbrev pub Holds : Str → List Row → Type 0
Holds id rows = any (has_id id) rows ≡ true

any_append_left : (p : Row → Bool) (xs ys : List Row) → any p xs ≡ true → any p (xs ++ ys) ≡ true
any_append_left p [] ys h = cc
any_append_left p (x ∷ xs) ys h = ground (arith, any_append_left p xs ys)

any_last : (p : Row → Bool) (r : Row) (rows : List Row) → p r ≡ true → any p (rows ++ r ∷ []) ≡ true
any_last p r [] h = ground arith
any_last p r (x ∷ rows) h = ground (arith, any_last p r rows)

-- What a table holds, every extension of it holds.
pub Extends-Holds : (id : Str) {old new : List Row} → Extends old new → Holds id old → Holds id new
Extends-Holds id {old} x h = subst (Holds id) (sym x.eq) (any_append_left (has_id id) old x.added h)

-- A slot with an owner holds the owner.
owner-Holds :
    (row : Row) (rows : List Row)
    → owner_in (slot_of row) rows ≡ row.id
    → row.id ≢ []
    → Holds row.id rows
unfolding owner_in
owner-Holds row [] h ne = absurd (ne (sym h))
owner-Holds row (x ∷ rows) h ne = ground (arith, owner-Holds row rows)

-- Every row has an id.
abbrev pub HaveIds : List Row → Type 0
HaveIds = All (λ r. r.id ≢ [])

-- A conflict at a slot that nobody owns is with a row of the same id.
unowned-Holds :
    (row : Row) (rows : List Row)
    → HaveIds rows
    → any (conflicts row) rows ≡ true
    → owner_in (slot_of row) rows ≡ []
    → Holds row.id rows
unfolding conflicts owner_in
unowned-Holds row [] ids h k = cc
unowned-Holds row (x ∷ rows) ids h k = elim (Bool-cases (slot_of x == slot_of row)) [
  | inl here ↦ absurd (ids.0 (ground (arith, here)))
  | inr elsewhere ↦ ground (arith, elsewhere, unowned-Holds row rows ids.1)
]

module _ (E : Env) (n : Node) (json : Str) (db : Db) where
  stored_free :
      any (conflicts (row_of n json)) db.rows ≡ false
      → (store_node E n json db).0 ≡ ok n
      → (store_node E n json db).1.rows ≡ db.rows ++ row_of n json ∷ []
  unfolding store_node statement ◌>>=◌
  stored_free free e = ground (arith, free, e)

  stored_taken :
      any (conflicts (row_of n json)) db.rows ≡ true
      → (store_node E n json db).0 ≡ ok n
      → ((store_node E n json db).1.rows ≡ db.rows)
        × ((owner_in (slot_of (row_of n json)) db.rows ≡ [])
            ⊎ (owner_in (slot_of (row_of n json)) db.rows ≡ n.id))
  unfolding store_node statement ◌>>=◌
  stored_taken taken e = ground (arith, taken, e)

  store_node-Holds :
      HaveIds db.rows
      → (store_node E n json db).0 ≡ ok n
      → n.id ≢ []
      → Holds n.id (store_node E n json db).1.rows
  unfolding row_of
  store_node-Holds ids e ne = elim (Bool-cases (any (conflicts (row_of n json)) db.rows)) [
    | inl taken ↦
        let t = stored_taken taken e in
        rw t.0 (elim t.1 [
          | inl unowned ↦ unowned-Holds (row_of n json) db.rows ids taken unowned
          | inr owner ↦ owner-Holds (row_of n json) db.rows owner ne
        ])
    | inr free ↦
        rw (stored_free free e) (any_last (has_id n.id) (row_of n json) db.rows (ground arith))
  ]

  -- An accepted node leaves rows with ids only.
  store_node-HaveIds :
      HaveIds db.rows
      → (store_node E n json db).0 ≡ ok n
      → n.id ≢ []
      → HaveIds (store_node E n json db).1.rows
  unfolding row_of
  store_node-HaveIds ids e ne = elim (Bool-cases (any (conflicts (row_of n json)) db.rows)) [
    | inl taken ↦ rw (stored_taken taken e).0 ids
    | inr free ↦ rw (stored_free free e) (All-append _ db.rows (row_of n json ∷ []) ids (ne, tt))
  ]

module _ (E : Env) (kind : Str) (step_n : Option ℤ) (payload : Option Fields)
    (trajectory tenant : Str) (seq : ℤ) (db : Db) {n : Node} where
  pub append-HaveIds :
      HaveIds db.rows
      → n.id ≢ []
      → (append E kind step_n payload trajectory tenant seq db).0 ≡ ok n
      → HaveIds (append E kind step_n payload trajectory tenant seq db).1.rows
  append-HaveIds ids ne e =
      let (json, built, encoded, eq) =
        append_inv E kind step_n payload trajectory tenant seq db e in
      rw eq (store_node-HaveIds E n json db ids (ap (λ p. p.0) (sym eq) ∙ e) ne)

-- After an append that succeeded, whichever statements failed, the table holds a row with the
-- returned node's id, if that id is not empty and no row's id is.
pub append_stores :
    (E : Env) (kind : Str) (step_n : Option ℤ) (payload : Option Fields) (trajectory tenant : Str)
    (seq : ℤ) (db : Db) {n : Node}
    → HaveIds db.rows
    → n.id ≢ []
    → (append E kind step_n payload trajectory tenant seq db).0 ≡ ok n
    → Holds n.id (append E kind step_n payload trajectory tenant seq db).1.rows
append_stores E kind step_n payload trajectory tenant seq db {n} ids ne e =
    let (json, built, encoded, eq) = append_inv E kind step_n payload trajectory tenant seq db e in
    rw eq (store_node-Holds E n json db ids (ap (λ p. p.0) (sym eq) ∙ e) ne)
