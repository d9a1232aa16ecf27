-- ===== src/Postgres/Refinement.antt =====
-- The PostgreSQL log against the SQLite log, where no statement fails.
use trajectory_irmrd.Base.{
  ℕ, suc, ◌≡◌, ◌≢◌, refl, inl, inr, true, false, Option, some, List, [], ◌∷◌, arith, ◌==◌, any,
  Bool-cases, Result-cases, Option-cases, Str, str, str_eq, ℤ, Fields, Result, ◌>>=◌, Env, obj,
}
use trajectory_irmrd.Nodes.{Node, new_node}
use trajectory_irmrd.Nodes.Construct.{new_node-IsBuiltFrom}
use trajectory_irmrd.Log.{
  has_id, Row, Db, slot_eq, slot_of, conflicts, row_of, owner_in, statement, store_node,
  insert_and_commit, append, claim_slot, claim_tool_call, is_claimed,
}
use trajectory_irmrd.Log.Replay.{
  IsQuiet, owns_slot, owner_in-append, store_node_free, store_node_taken,
}
use trajectory_irmrd.Postgres.{
  transaction, is_int32, fits_step, pg_statement, insert_unless_id, pg_slot_owner, commit_owner,
  recover_owner, pg_store_node, pg_append, pg_insert, pg_claim_slot, pg_claim_tool_call,
}

-- A step and a sequence number that the columns hold.
abbrev pub Fits : Option ℤ → ℤ → Type 0
Fits step_n seq = (fits_step step_n ≡ true) × (is_int32 seq ≡ true)

-- The same outcome and the same rows; the two engines count statements differently.
pub record Agrees {A : Type 0} (p q : Result A × Db) : Type 0 where
  pub outcome : p.0 ≡ q.0
  pub rows : p.1.rows ≡ q.1.rows

has_id-conflicts :
    (row : Row) (rows : List Row)
    → any (has_id row.id) rows ≡ true
    → any (conflicts row) rows ≡ true
unfolding conflicts
has_id-conflicts row [] h = cc
has_id-conflicts row (x ∷ rows) h = ground (arith, has_id-conflicts row rows)

no_conflict-no_id :
    (row : Row) (rows : List Row)
    → any (conflicts row) rows ≡ false
    → any (has_id row.id) rows ≡ false
unfolding conflicts
no_conflict-no_id row [] h = refl
no_conflict-no_id row (x ∷ rows) h = ground (arith, no_conflict-no_id row rows)

-- A conflict with no row of the same id is with the slot's owner, which is another node.
foreign_owner :
    (row : Row) (rows : List Row)
    → any (has_id row.id) rows ≡ false
    → any (conflicts row) rows ≡ true
    → owner_in (slot_of row) rows ≢ row.id
unfolding conflicts owner_in
foreign_owner row [] h k = cc
foreign_owner row (x ∷ rows) h k = elim (Bool-cases (slot_of x == slot_of row)) [
  | inl here ↦ rw here (λ e. ground (arith, e))
  | inr elsewhere ↦ rw elsewhere (foreign_owner row rows (ground arith) (ground (arith, elsewhere)))
]

-- The statements of one method.
quiet_five :
    (E : Env)
    → IsQuiet E
    → (c : ℕ)
    → (E.sql_fails c ≡ false)
      × (E.sql_fails (suc c) ≡ false)
      × (E.sql_fails (suc (suc c)) ≡ false)
      × (E.sql_fails (suc (suc (suc c))) ≡ false)
      × (E.sql_fails (suc (suc (suc (suc c)))) ≡ false)
quiet_five E quiet c = (
  quiet c,
  quiet (suc c),
  quiet (suc (suc c)),
  quiet (suc (suc (suc c))),
  quiet (suc (suc (suc (suc c)))),
)

module _ (E : Env) (quiet : IsQuiet E) (n : Node) (json : Str) (db : Db)
    (fits : Fits n.step_n n.seq) where
  free_Agrees :
      any (conflicts (row_of n json)) db.rows ≡ false
      → Agrees (transaction (pg_store_node E n (row_of n json)) db) (store_node E n json db)
  unfolding transaction pg_store_node insert_unless_id commit_owner pg_slot_owner pg_statement
      statement ◌>>=◌ row_of
  free_Agrees free =
      let s = store_node_free E n json quiet db free in
      let i = no_conflict-no_id (row_of n json) db.rows free in
      let o = owner_in-append (row_of n json) db.rows free in
      let q = quiet_five E quiet db.clock in
      record {
        outcome = ground (arith, s.0, i, o, fits.0, fits.1);
        rows = ground (arith, s.1, i, o, fits.0, fits.1);
      }

  taken_Agrees :
      any (conflicts (row_of n json)) db.rows ≡ true
      → Agrees (transaction (pg_store_node E n (row_of n json)) db) (store_node E n json db)
  unfolding transaction pg_store_node insert_unless_id commit_owner recover_owner pg_slot_owner
      pg_statement statement ◌>>=◌ row_of owns_slot
  taken_Agrees taken =
      let s = store_node_taken E n json quiet db taken in
      let q = quiet_five E quiet db.clock in
      elim (Bool-cases (any (has_id n.id) db.rows)) [
        | inl known ↦ record {
          outcome = ground (arith, s.0, known, fits.0, fits.1);
          rows = ground (arith, s.1, known, fits.0, fits.1);
        }
        | inr unknown ↦
            let f = foreign_owner (row_of n json) db.rows unknown taken in
            record {
              outcome = ground (arith, s.0, unknown, taken, f, fits.0, fits.1);
              rows = ground (arith, s.1, unknown, taken, f, fits.0, fits.1);
            }
      ]

  store_Agrees :
      Agrees (transaction (pg_store_node E n (row_of n json)) db) (store_node E n json db)
  store_Agrees = elim (Bool-cases (any (conflicts (row_of n json)) db.rows)) [
    | inl taken ↦ taken_Agrees taken
    | inr free ↦ free_Agrees free
  ]

module _ (E : Env) (step_n : ℤ) (n : Node) (json : Str) (db : Db)
    (fits : Fits (some step_n) n.seq) where
  claim_slot-Agrees :
      Agrees
        (transaction (pg_claim_slot E step_n n (row_of n json)) db)
        (claim_slot E step_n n json db)
  unfolding transaction pg_claim_slot pg_insert claim_slot insert_and_commit pg_statement statement
      ◌>>=◌
  claim_slot-Agrees =
      elim (Bool-cases (any (is_claimed step_n n.trajectory_id n.tenant_id n.seq) db.rows)) [
        | inl taken ↦ record { outcome = ground (arith, taken); rows = ground (arith, taken) }
        | inr free ↦ record { outcome = ground (arith, free); rows = ground (arith, free) }
      ]

module _ (E : Env) (payload : Option Fields) (trajectory tenant : Str) (seq : ℤ) (db : Db) where
  -- Where no statement fails and the step and the sequence number fit 32 bits, Append on
  -- PostgreSQL has the outcome of Append on SQLite, errors included, and leaves the same rows.
  pub pg_append-Agrees :
      (kind : Str) (step_n : Option ℤ)
      → IsQuiet E
      → Fits step_n seq
      → Agrees
          (pg_append E kind step_n payload trajectory tenant seq db)
          (append E kind step_n payload trajectory tenant seq db)
  unfolding pg_append append ◌>>=◌
  pg_append-Agrees kind step_n quiet fits =
      elim (Result-cases (new_node E kind trajectory tenant step_n seq payload (E.now db.clock))) [
        | inl (n, built) ↦ elim (Option-cases (E.marshal (obj n.payload))) [
          | inl broken ↦ rw (built, broken) (record { outcome = refl; rows = refl })
          | inr (json, encoded) ↦
              let b =
                new_node-IsBuiltFrom E kind trajectory tenant step_n seq payload (E.now db.clock)
                  built in
              rw (built, encoded)
                (store_Agrees E quiet n json db (ground (arith, fits, b.step_eq, b.seq_eq)))
        ]
        | inr (x, refused) ↦ rw refused (record { outcome = refl; rows = refl })
      ]

  -- Where the step and the sequence number fit 32 bits, ClaimToolCall on PostgreSQL has the
  -- outcome of ClaimToolCall on SQLite and leaves the same rows, whichever statements fail.
  pub pg_claim-Agrees :
      (step_n : ℤ)
      → Fits (some step_n) seq
      → Agrees
          (pg_claim_tool_call E step_n payload trajectory tenant seq db)
          (claim_tool_call E step_n payload trajectory tenant seq db)
  unfolding pg_claim_tool_call claim_tool_call ◌>>=◌
  pg_claim-Agrees step_n fits =
      elim (Result-cases (
        new_node E (str "TOOL_CALL") trajectory tenant (some step_n) seq payload
          (E.now db.clock))) [
            | inl (n, built) ↦ elim (Option-cases (E.marshal (obj n.payload))) [
              | inl broken ↦ rw (built, broken) (record { outcome = refl; rows = refl })
              | inr (json, encoded) ↦
                  let b =
                    new_node-IsBuiltFrom E (str "TOOL_CALL") trajectory tenant (some step_n) seq
                      payload (E.now db.clock) built in
                  rw (built, encoded)
                    (claim_slot-Agrees E step_n n json db (ground (arith, fits, b.seq_eq)))
            ]
            | inr (x, refused) ↦ rw refused (record { outcome = refl; rows = refl })
          ]
