-- ===== src/Postgres.antt =====
-- The node log on PostgreSQL, go/trajir/postgres/log.go: the same table and methods as the SQLite log,
-- with transactions and with columns `step_n` and `seq` of 32 bits. The mutex makes each method of a
-- handle one step.
pub mod Refinement
pub mod Loss
mod Tests
use trajectory_irmrd.Base.{
  ℕ, suc, ◌^◌, Bool, true, false, ◌&&◌, ◌||◌, not, Option, none, some, List, [], ◌∷◌, ◌++◌,
  if◌then◌else◌, ◌==◌, ltb, leb, any, Str, str, str_eq, ℤ, pos, negsuc, obj, Fields, Result, ok,
  err, or_fail, Action, pure, raise, lift, gets, ◌>>=◌, ◌>>◌, Env, sql_failed, slot_conflict,
  json_marshal, empty_tenant,
}
use trajectory_irmrd.Nodes.{Node, new_node}
use trajectory_irmrd.Log.{
  Db, Row, has_id, conflicts, row_of, owner_in, slot_of, is_claimed, statement, has_any, list_any,
}

-- What a method did in a transaction: its value, and whether it was committed.
pub record Ended (A : Type 0) : Type 0 where
  pub value : A
  pub committed : Bool

abbrev pub settle : {A : Type 0} → List Row → Result (Ended A) → Db → Result A × Db
settle rows (ok e) db = (ok e.value, if e.committed then db else record db { rows = rows })
settle rows (err x) db = (err x, record db { rows = rows })

-- `defer tx.Rollback()`: what is not committed is undone.
unfoldable pub transaction : {A : Type 0} → Action Db (Ended A) → Action Db A
transaction m db = settle db.rows (m db).0 (m db).1

-- The range of INTEGER.
unfoldable pub is_int32 : ℤ → Bool
is_int32 (pos n) = ltb n (2 ^ 31)
is_int32 (negsuc n) = ltb n (2 ^ 31)

unfoldable pub fits_step : Option ℤ → Bool
unfolding is_int32
fits_step none = true
fits_step (some n) = is_int32 n

module _ (E : Env) where
  -- A statement with a step and a sequence number among its parameters.
  unfoldable pub pg_statement : Option ℤ → ℤ → Action Db (Unit {0})
  pg_statement step_n seq db = (
    if E.sql_fails db.clock
        then err sql_failed
        else if fits_step step_n && is_int32 seq
        then ok tt
        else err sql_failed,
    record db { clock = suc db.clock },
  )

  -- INSERT ... ON CONFLICT (id) DO NOTHING, and whether it succeeded: a row of the same id is left,
  -- and a row of another id at the slot makes it fail.
  unfoldable pub insert_unless_id : Option ℤ → ℤ → Row → Action Db Bool
  insert_unless_id step_n seq row db =
      if E.sql_fails db.clock
      then (ok false, record db { clock = suc db.clock })
      else if not (fits_step step_n && is_int32 seq)
      then (ok false, record db { clock = suc db.clock })
      else if any (has_id row.id) db.rows
      then (ok true, record db { clock = suc db.clock })
      else if any (conflicts row) db.rows
      then (ok false, record db { clock = suc db.clock })
      else (ok true, record { rows = db.rows ++ row ∷ []; clock = suc db.clock })

  unfoldable pub pg_slot_owner : Row → Action Db Str
  pg_slot_owner row = do
    pg_statement row.step_n row.seq
    gets (λ db. ok (owner_in (slot_of row) db.rows))

  -- After the INSERT succeeded: the owner of the slot, and COMMIT.
  unfoldable pub commit_owner : Node → Row → Action Db (Ended Node)
  commit_owner n row = do
    owner ← pg_slot_owner row
    if not (owner == []) && not (owner == n.id)
        then raise slot_conflict
        else (do statement E; pure (record { value = n; committed = true }))

  -- After it failed: back to the savepoint, and the owner of the slot. Nothing is committed.
  unfoldable pub recover_owner : Node → Row → Action Db (Ended Node)
  recover_owner n row = do
    statement E
    owner ← pg_slot_owner row
    if not (owner == []) && not (owner == n.id)
        then raise slot_conflict
        else pure (record { value = n; committed = false })

  -- BEGIN, SAVEPOINT, INSERT and what follows it.
  unfoldable pub pg_store_node : Node → Row → Action Db (Ended Node)
  pg_store_node n row = do
    statement E
    statement E
    inserted ← insert_unless_id row.step_n row.seq row
    if inserted then commit_owner n row else recover_owner n row

  unfoldable pub pg_append : Str → Option ℤ → Option Fields → Str → Str → ℤ → Action Db Node
  pg_append kind step_n payload trajectory tenant seq = do
    n ← gets (λ db. new_node E kind trajectory tenant step_n seq payload (E.now db.clock))
    payload_json ← lift (or_fail json_marshal (E.marshal (obj n.payload)))
    transaction (pg_store_node n (row_of n payload_json))

  -- INSERT without a conflict clause: a failure counts as a lost race.
  unfoldable pub pg_insert : Row → Action Db (Ended Bool)
  pg_insert row db =
      if E.sql_fails db.clock || any (conflicts row) db.rows
      then (ok (record { value = false; committed = false }), record db { clock = suc db.clock })
      else if E.sql_fails (suc db.clock)
      then (err sql_failed, record db { clock = suc (suc db.clock) })
      else (
        ok (record { value = true; committed = true }),
        record { rows = db.rows ++ row ∷ []; clock = suc (suc db.clock) },
      )

  -- BEGIN, the query, and COMMIT or INSERT and COMMIT.
  unfoldable pub pg_claim_slot : ℤ → Node → Row → Action Db (Ended Bool)
  pg_claim_slot step_n n row = do
    statement E
    pg_statement (some step_n) n.seq
    taken ← gets λ db. ok (any (is_claimed step_n n.trajectory_id n.tenant_id n.seq) db.rows)
    if taken
        then (do statement E; pure (record { value = false; committed = true }))
        else pg_insert row

  unfoldable pub pg_claim_tool_call : ℤ → Option Fields → Str → Str → ℤ → Action Db Bool
  pg_claim_tool_call step_n payload trajectory tenant seq = do
    n ← gets λ db.
        new_node E (str "TOOL_CALL") trajectory tenant (some step_n) seq payload (E.now db.clock)
    payload_json ← lift (or_fail json_marshal (E.marshal (obj n.payload)))
    transaction (pg_claim_slot step_n n (row_of n payload_json))

  -- The optional sequence number is a parameter of the query where it is given.
  abbrev pub seq_or_zero : Option ℤ → ℤ
  seq_or_zero none = pos 0
  seq_or_zero (some seq) = seq

  -- The query sees the rows as the SQLite log's query does, and its parameters must fit.
  unfoldable pub pg_has_any : Str → Option Str → ℤ → Str → Option ℤ → Action Db Bool
  pg_has_any trajectory tenant step_n kind seq =
      if fits_step (some step_n) && is_int32 (seq_or_zero seq)
      then has_any E trajectory tenant step_n kind seq
      else raise sql_failed

  unfoldable pub pg_has : Str → Str → ℤ → Str → Option ℤ → Action Db Bool
  pg_has trajectory tenant step_n kind seq =
      if tenant == []
      then raise empty_tenant
      else pg_has_any trajectory (some tenant) step_n kind seq

  unfoldable pub pg_has_all_tenants : Str → ℤ → Str → Option ℤ → Action Db Bool
  pg_has_all_tenants trajectory = pg_has_any trajectory none

  unfoldable pub pg_list_any : Str → Option Str → Action Db (List Fields)
  pg_list_any = list_any E

  unfoldable pub pg_list_nodes : Str → Str → Action Db (List Fields)
  pg_list_nodes trajectory tenant = pg_list_any trajectory (some tenant)

  unfoldable pub pg_list_nodes_all_tenants : Str → Action Db (List Fields)
  pg_list_nodes_all_tenants trajectory = pg_list_any trajectory none
