-- ===== src/Postgres/Loss.antt =====
-- `Append` on PostgreSQL where its INSERT alone fails.
use trajectory_irmrd.Base.{
  ℕ, suc, ◌≡◌, true, false, Option, some, [], arith, Str, str_eq, ℤ, Fields, ok, ◌>>=◌, Env, obj,
}
use trajectory_irmrd.Nodes.{Node, new_node}
use trajectory_irmrd.Nodes.Construct.{new_node-IsBuiltFrom}
use trajectory_irmrd.Log.{Db, slot_of, row_of, owner_in, statement}
use trajectory_irmrd.Postgres.{
  transaction, fits_step, is_int32, pg_statement, insert_unless_id, pg_slot_owner, recover_owner,
  pg_store_node, pg_append,
}
use trajectory_irmrd.Postgres.Refinement.{Fits}

-- The INSERT, the third statement after a time, fails; the others of the method do not.
pub record InsertFails (E : Env) (c : ℕ) : Type 0 where
  pub begun : E.sql_fails c ≡ false
  pub saved : E.sql_fails (suc c) ≡ false
  pub fails : E.sql_fails (suc (suc c)) ≡ true
  pub back : E.sql_fails (suc (suc (suc c))) ≡ false
  pub asked : E.sql_fails (suc (suc (suc (suc c)))) ≡ false

module _ (E : Env) (n : Node) (json : Str) (db : Db) where
  lost_node :
      InsertFails E db.clock
      → fits_step n.step_n ≡ true
      → is_int32 n.seq ≡ true
      → owner_in (slot_of (row_of n json)) db.rows ≡ []
      → ((transaction (pg_store_node E n (row_of n json)) db).0 ≡ ok n)
        × ((transaction (pg_store_node E n (row_of n json)) db).1.rows ≡ db.rows)
  unfolding transaction pg_store_node insert_unless_id recover_owner pg_slot_owner pg_statement
      statement ◌>>=◌ row_of
  lost_node f s q free = ground (arith, f.begun, f.saved, f.fails, f.back, f.asked)

module _ (E : Env) (kind : Str) (step_n : Option ℤ) (payload : Option Fields)
    (trajectory tenant : Str) (seq : ℤ) (db : Db) {n : Node} {json : Str} where
  -- Where the INSERT of Append on PostgreSQL fails alone, and the slot is free, the step and the
  -- sequence number fit and the node builds and encodes, the append reports success and the table
  -- is as it was.
  pub pg_append_lost :
      new_node E kind trajectory tenant step_n seq payload (E.now db.clock) ≡ ok n
      → E.marshal (obj n.payload) ≡ some json
      → Fits step_n seq
      → InsertFails E db.clock
      → owner_in (slot_of (row_of n json)) db.rows ≡ []
      → ((pg_append E kind step_n payload trajectory tenant seq db).0 ≡ ok n)
        × ((pg_append E kind step_n payload trajectory tenant seq db).1.rows ≡ db.rows)
  unfolding pg_append ◌>>=◌
  pg_append_lost built encoded fits fails free =
      let b =
        new_node-IsBuiltFrom E kind trajectory tenant step_n seq payload (E.now db.clock) built in
      rw (built, encoded)
        (lost_node E n json db fails (ground (arith, fits, b.step_eq))
          (ground (arith, fits, b.seq_eq)) free)
