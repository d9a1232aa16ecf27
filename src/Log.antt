-- ===== src/Log.antt =====
-- The append-only SQLite node log, go/trajir/log/log.go: the table `nodes` with its two unique keys,
-- and the methods of `NodeLog` on an open handle. The mutex makes each method one step.
pub mod Table
pub mod AppendOnly
pub mod Replay
pub mod Claim
pub mod Stored
pub mod Queries
pub mod Listing
mod Tests
use trajectory_irmrd.Base.{
  ℕ, zero, suc, ◌+◌, ◌≡◌, refl, Bool, true, false, ◌&&◌, ◌||◌, not, Option, none, some, List, [],
  ◌∷◌, ◌++◌, map, arith, if◌then◌else◌, Eq, ◌==◌, any, filter, count, Str, str, str_eq, ℤ, int_eq,
  option_eq, minus_one, lt_int, Value, null, int, float, text, obj, Fields, field, end, sort_by,
  Error, Result, ok, err, and_then, or_fail, Action, pure, raise, lift, gets, ◌>>=◌, ◌>>◌, Env,
  sql_failed, slot_conflict, json_marshal, json_unmarshal, empty_tenant,
}
unfoldable pub use Table.*
use trajectory_irmrd.Nodes.{Node, new_node}

module _ (E : Env) where
  -- One SQL statement: it may fail, and it has no other effect here.
  unfoldable pub statement : Action Db (Unit {0})
  statement db =
      (if E.sql_fails db.clock then err sql_failed else ok tt, record db { clock = suc db.clock })

  unfoldable pub slot_owner : Slot → Action Db Str
  unfolding statement
  slot_owner s = do statement; gets (λ db. ok (owner_in s db.rows))

  -- The statements of `Append`, once the node is built and its payload encoded.
  unfoldable pub store_node : Node → Str → Action Db Node
  unfolding insert_or_ignore slot_owner
  store_node n payload_json = do
    statement
    inserted ← insert_or_ignore (row_of n payload_json)
    statement
    if inserted then pure n else do
      owner ← slot_owner (slot_of (row_of n payload_json))
      if not (owner == []) && not (owner == n.id) then raise slot_conflict else pure n

  unfoldable pub append : Str → Option ℤ → Option Fields → Str → Str → ℤ → Action Db Node
  append kind step_n payload trajectory tenant seq = do
    n ← gets (λ db. new_node E kind trajectory tenant step_n seq payload (E.now db.clock))
    payload_json ← lift (or_fail json_marshal (E.marshal (obj n.payload)))
    store_node n payload_json

  -- INSERT and COMMIT. A failed INSERT counts as a lost race; a failed COMMIT rolls the row back.
  unfoldable pub insert_and_commit : Row → Action Db Bool
  insert_and_commit row db =
      if E.sql_fails db.clock || any (conflicts row) db.rows
      then (ok false, record db { clock = suc db.clock })
      else if E.sql_fails (suc db.clock)
      then (err sql_failed, record db { clock = suc (suc db.clock) })
      else (ok true, record { rows = db.rows ++ row ∷ []; clock = suc (suc db.clock) })

  -- The transaction of `ClaimToolCall`: BEGIN, the query, then COMMIT or INSERT and COMMIT.
  unfoldable pub claim_slot : ℤ → Node → Str → Action Db Bool
  unfolding statement is_claimed insert_and_commit
  claim_slot step_n n payload_json = do
    statement
    statement
    taken ← gets λ db. ok (any (is_claimed step_n n.trajectory_id n.tenant_id n.seq) db.rows)
    if taken then (do statement; pure false) else insert_and_commit (row_of n payload_json)

  unfoldable pub claim_tool_call : ℤ → Option Fields → Str → Str → ℤ → Action Db Bool
  claim_tool_call step_n payload trajectory tenant seq = do
    n ← gets λ db.
        new_node E (str "TOOL_CALL") trajectory tenant (some step_n) seq payload (E.now db.clock)
    payload_json ← lift (or_fail json_marshal (E.marshal (obj n.payload)))
    claim_slot step_n n payload_json

  unfoldable pub has_any : Str → Option Str → ℤ → Str → Option ℤ → Action Db Bool
  unfolding statement has_row
  has_any trajectory tenant step_n kind seq = do
    statement
    gets (λ db. ok (any (has_row trajectory tenant step_n kind seq) db.rows))

  unfoldable pub has : Str → Str → ℤ → Str → Option ℤ → Action Db Bool
  unfolding has_any
  has trajectory tenant step_n kind seq =
      if tenant == [] then raise empty_tenant else has_any trajectory (some tenant) step_n kind seq

  unfoldable pub has_all_tenants : Str → ℤ → Str → Option ℤ → Action Db Bool
  unfolding has_any
  has_all_tenants trajectory = has_any trajectory none

  unfoldable pub count_id : Str → Action Db ℕ
  unfolding statement
  count_id id = do statement; gets (λ db. ok (count (λ r. r.id == id) db.rows))

  -- The map that `listNodes` builds from a row.
  unfoldable pub row_record : Row → Result Fields
  row_record r = and_then (or_fail json_unmarshal (E.unmarshal r.payload_json)) (λ v.
      and_then (decoded_map v) (λ payload. ok (
        field (str "id") (text r.id) (
          field (str "trajectory_id") (text r.trajectory_id) (
            field (str "tenant_id") (text r.tenant_id) (
              field (str "seq") (int r.seq) (
                field (str "kind") (text r.kind) (
                  field (str "payload") (obj payload) (
                    field (str "ts") (float r.ts)
                      (field (str "step_n") (step_value r.step_n) end))))))))))

  unfoldable pub row_records : List Row → Result (List Fields)
  unfolding row_record
  row_records [] = ok []
  row_records (r ∷ rows) =
      and_then (row_record r) (λ m. and_then (row_records rows) (λ ms. ok (m ∷ ms)))

  unfoldable pub list_any : Str → Option Str → Action Db (List Fields)
  unfolding statement selected row_records
  list_any trajectory tenant = do
    statement
    gets (λ db. row_records (selected trajectory tenant db.rows))

  unfoldable pub list_nodes : Str → Str → Action Db (List Fields)
  unfolding list_any
  list_nodes trajectory tenant = list_any trajectory (some tenant)

  unfoldable pub list_nodes_all_tenants : Str → Action Db (List Fields)
  unfolding list_any
  list_nodes_all_tenants trajectory = list_any trajectory none
