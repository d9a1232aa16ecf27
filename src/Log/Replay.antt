-- ===== src/Log/Replay.antt =====
-- `Append` where no SQL statement fails.
use mathlib.Core.Path.{subst}
use trajectory_irmrd.Base.{
  ℕ, suc, ◌≡◌, ◌≢◌, refl, sym, ap, ◌∙◌, inl, inr, Bool, true, false, ◌&&◌, not, Option, some, List,
  [], ◌∷◌, ◌++◌, arith, if◌then◌else◌, ◌==◌, any, Bool-cases, Str, str_eq, ℤ, Fields, ok, err, lift,
  gets, >>=-eq-ok, ◌>>=◌, Env, obj, or_fail-eq-ok, json_marshal, slot_conflict,
}
use trajectory_irmrd.Nodes.{Node, new_node}
use trajectory_irmrd.Log.{
  Row, Db, slot_eq, slot_of, conflicts, row_of, owner_in, statement, store_node, append,
}
use trajectory_irmrd.Log.AppendOnly.{any_append}

-- No SQL statement fails.
abbrev pub IsQuiet : Env → Type 0
IsQuiet E = (k : ℕ) → E.sql_fails k ≡ false

-- The test after an ignored INSERT: the slot is free or holds this very node.
unfoldable pub owns_slot : Row → List Row → Bool
owns_slot row rows =
    let owner = owner_in (slot_of row) rows in not (not (owner == []) && not (owner == row.id))

pub conflicts_self : (r : Row) → conflicts r r ≡ true
unfolding conflicts
conflicts_self r = ground arith

pub owner_in-append :
    (r : Row) (rows : List Row)
    → any (conflicts r) rows ≡ false
    → owner_in (slot_of r) (rows ++ r ∷ []) ≡ r.id
unfolding owner_in conflicts
owner_in-append r [] h = ground arith
owner_in-append r (x ∷ rows) h = ground (arith, owner_in-append r rows)

owner-any :
    (r : Row) (rows : List Row) → owner_in (slot_of r) rows ≢ [] → any (conflicts r) rows ≡ true
unfolding owner_in conflicts
owner-any r [] h = absurd (h refl)
owner-any r (x ∷ rows) h = ground (arith, owner-any r rows)

-- A node built from the same arguments at another time differs in its time alone.
pub new_node_later :
    (E : Env) (kind trajectory tenant : Str) (step_n : Option ℤ) (seq : ℤ) (payload : Option Fields)
    (now later : ℕ) {n : Node}
    → new_node E kind trajectory tenant step_n seq payload now ≡ ok n
    → new_node E kind trajectory tenant step_n seq payload later ≡ ok (record n { ts = later })
unfolding new_node
new_node_later E kind trajectory tenant step_n seq payload now later h = ground arith

module _ (E : Env) (n : Node) (json : Str) where
  -- What `Append` returns, where it returns a node, is the node that it built.
  store_node-eq : (db : Db) {m : Node} → (store_node E n json db).0 ≡ ok m → n ≡ m
  unfolding store_node statement ◌>>=◌
  store_node-eq db h = ground arith

  module _ (quiet : IsQuiet E) (db : Db) where
    pub store_node_free :
        any (conflicts (row_of n json)) db.rows ≡ false
        → ((store_node E n json db).0 ≡ ok n)
          × ((store_node E n json db).1.rows ≡ db.rows ++ row_of n json ∷ [])
    unfolding store_node statement ◌>>=◌
    store_node_free free = ground (arith, quiet db.clock, quiet (suc db.clock))

    pub store_node_taken :
        any (conflicts (row_of n json)) db.rows ≡ true
        → ((store_node E n json db).0
            ≡ (if owns_slot (row_of n json) db.rows then ok n else err slot_conflict))
          × ((store_node E n json db).1.rows ≡ db.rows)
    unfolding store_node statement ◌>>=◌ owns_slot row_of
    store_node_taken taken =
        ground (arith, quiet db.clock, quiet (suc db.clock), quiet (suc (suc db.clock)))

conflicts_later :
    (n : Node) (json : Str) (later : ℕ) (rows : List Row)
    → any (conflicts (row_of (record n { ts = later }) json)) rows
      ≡ any (conflicts (row_of n json)) rows
unfolding conflicts row_of
conflicts_later n json later rows = refl

owns_slot_later :
    (n : Node) (json : Str) (later : ℕ) (rows : List Row)
    → owns_slot (row_of (record n { ts = later }) json) rows ≡ owns_slot (row_of n json) rows
unfolding owns_slot row_of
owns_slot_later n json later rows = refl

module _ (E : Env) (kind : Str) (step_n : Option ℤ) (payload : Option Fields)
    (trajectory tenant : Str) (seq : ℤ) where
  pub append_inv :
      (db : Db) {n : Node}
      → (append E kind step_n payload trajectory tenant seq db).0 ≡ ok n
      → (json : Str) × (new_node E kind trajectory tenant step_n seq payload (E.now db.clock)
          ≡ ok n)
        × (E.marshal (obj n.payload) ≡ some json)
        × (append E kind step_n payload trajectory tenant seq db ≡ store_node E n json db)
  unfolding append gets lift
  append_inv db {n} h =
      let a = >>=-eq-ok _ _ db h in
      let b = >>=-eq-ok _ _ db (ap (λ p. p.0) (sym a.2) ∙ h) in
      let whole = a.2 ∙ b.2 in
      let same = store_node-eq E a.0 b.0 db (ap (λ p. p.0) (sym whole) ∙ h) in
      (
        b.0,
        subst (λ m. new_node E kind trajectory tenant step_n seq payload (E.now db.clock) ≡ ok m)
            same a.1,
        subst (λ m. E.marshal (obj m.payload) ≡ some b.0) same (or_fail-eq-ok json_marshal _ b.1),
        subst (λ m. append E kind step_n payload trajectory tenant seq db ≡ store_node E m b.0 db)
            same whole,
      )

  append_eq :
      (db : Db) {n : Node} {json : Str}
      → new_node E kind trajectory tenant step_n seq payload (E.now db.clock) ≡ ok n
      → E.marshal (obj n.payload) ≡ some json
      → append E kind step_n payload trajectory tenant seq db ≡ store_node E n json db
  unfolding append ◌>>=◌
  append_eq db built encoded = rw (built, encoded)

  module _ (quiet : IsQuiet E) (db : Db) {n : Node}
      (first : (append E kind step_n payload trajectory tenant seq db).0 ≡ ok n) where
    -- The row that an accepted append wrote or found stands in the table that it left.
    accepted_taken :
        (json : Str)
        → append E kind step_n payload trajectory tenant seq db ≡ store_node E n json db
        → let rows = (append E kind step_n payload trajectory tenant seq db).1.rows in
          (any (conflicts (row_of n json)) rows ≡ true) × (owns_slot (row_of n json) rows ≡ true)
    accepted_taken json e = elim (Bool-cases (any (conflicts (row_of n json)) db.rows)) [
      | inl taken ↦
          let t = store_node_taken E n json quiet db taken in
          rw (e, t.1) (taken, ground (arith, t.0, ap (λ p. p.0) e))
      | inr free ↦
          let t = store_node_free E n json quiet db free in
          rw (e, t.1)
            (
              any_append (row_of n json) (row_of n json) db.rows
                  ∙ ground (arith, conflicts_self (row_of n json)),
              unfold owns_slot in rw (owner_in-append (row_of n json) db.rows free) (ground arith),
            )
    ]

    -- Where no statement fails, an accepted append that is repeated later, on the rows that the
    -- first left, succeeds, gives a node with the same id, and adds no row.
    pub append_replay :
        (later : Db)
        → later.rows ≡ (append E kind step_n payload trajectory tenant seq db).1.rows
        → (m : Node) × ((append E kind step_n payload trajectory tenant seq later).0 ≡ ok m)
          × (m.id ≡ n.id)
          × ((append E kind step_n payload trajectory tenant seq later).1.rows ≡ later.rows)
    append_replay later same =
        let (json, built, encoded, e) = append_inv db first in
        let again =
          new_node_later E kind trajectory tenant step_n seq payload _ (E.now later.clock) built in
        let m : Node = record n { ts = E.now later.clock } in
        let facts = accepted_taken json e in
        let whole = append_eq later {n = m} {json = json} again encoded in
        let rows_eq = ap (λ rows. any (conflicts (row_of n json)) rows) same ∙ facts.0 in
        let owns_eq = ap (λ rows. owns_slot (row_of n json) rows) same ∙ facts.1 in
        let t =
          store_node_taken E m json quiet later
            (conflicts_later n json (E.now later.clock) later.rows ∙ rows_eq) in
        (
          m,
          ap (λ p. p.0) whole
              ∙ t.0
              ∙ ap (λ b. if b then ok m else err slot_conflict)
                  (owns_slot_later n json (E.now later.clock) later.rows ∙ owns_eq),
          refl,
          ap (λ p. p.1.rows) whole ∙ t.1,
        )

  module _ (quiet : IsQuiet E) (db : Db) {n : Node} {json : Str}
      (built : new_node E kind trajectory tenant step_n seq payload (E.now db.clock) ≡ ok n)
      (encoded : E.marshal (obj n.payload) ≡ some json) where
    -- Where no statement fails and another node holds the slot, an append fails with a slot
    -- conflict and leaves the table as it was.
    pub append_conflict :
        owner_in (slot_of (row_of n json)) db.rows ≢ []
        → owner_in (slot_of (row_of n json)) db.rows ≢ n.id
        → ((append E kind step_n payload trajectory tenant seq db).0 ≡ err slot_conflict)
          × ((append E kind step_n payload trajectory tenant seq db).1.rows ≡ db.rows)
    unfolding owns_slot row_of
    append_conflict occupied other =
        let t = store_node_taken E n json quiet db (owner-any (row_of n json) db.rows occupied) in
        rw (append_eq db built encoded) (ground (arith, t.0, t.1))

    -- Where no statement fails and neither the slot nor the id is taken, an append returns the
    -- node that it built and adds its row, and no other, at the end.
    pub append_fresh :
        any (conflicts (row_of n json)) db.rows ≡ false
        → ((append E kind step_n payload trajectory tenant seq db).0 ≡ ok n)
          × ((append E kind step_n payload trajectory tenant seq db).1.rows
              ≡ db.rows ++ row_of n json ∷ [])
    append_fresh free = rw (append_eq db built encoded) (store_node_free E n json quiet db free)
