-- ===== src/Log/Tests.antt =====
-- The log's theorems at concrete tables.
use trajectory_irmrd.Base.{
  sort_by, ◌≡◌, ◌≢◌, refl, All, Fields, Value, minus_one, field, text, int, float, obj, null, true,
  none, some, [], ◌∷◌, ok, err, pos, str, str_eq, nat_eq, int_eq, option_eq, ℕ, Str, end, ◌>>=◌,
  contains_any, itoa, get, slot_conflict,
}
use trajectory_irmrd.Nodes.{
  Node, new_node, node_id, payload_hash, validate_id_component, preimage, step_text, known_kind,
}
use trajectory_irmrd.Nodes.Utf8.{valid_utf8}
use trajectory_irmrd.Log.{
  Db, claim_tool_call, claim_slot, append, store_node, slot_eq, conflicts, step_key, row_of,
  slot_owner, insert_or_ignore, owner_in, statement, is_claimed, insert_and_commit, list_nodes,
  has_row, selected, row_record, row_less,
}
use trajectory_irmrd.Log.Replay.{append_conflict, append_replay}
use trajectory_irmrd.Log.Queries.{IsScoped, list_nodes-IsScoped}
use trajectory_irmrd.Log.Listing.{IsListing, list_any-IsListing}
use trajectory_irmrd.Log.AppendOnly.{Extends-refl, IsGrown, append_only, claim_only}
use trajectory_irmrd.Log.Claim.{claim_exclusive}
use trajectory_irmrd.Samples.{calm, empty_db, run_id, tenant}

abbrev claimed : Db
claimed = (claim_tool_call calm (pos 1) none run_id tenant (pos 2) empty_db).1

claim_exclusive_example :
    (claim_tool_call calm (pos 1) (some end) run_id tenant (pos 2) claimed).0 ≢ ok true
unfolding claim_tool_call claim_slot ◌>>=◌ new_node node_id payload_hash validate_id_component
    valid_utf8 contains_any preimage itoa get str_eq nat_eq int_eq known_kind
claim_exclusive_example =
    claim_exclusive calm (pos 1) run_id tenant (pos 2) none (some end) empty_db claimed refl
      (Extends-refl claimed.rows)

append_only_example :
    IsGrown claimed.rows
      (append calm (str "DECISION") (some (pos 1)) none run_id tenant (pos 1) claimed).1
unfolding claim_tool_call claim_slot ◌>>=◌ new_node node_id payload_hash validate_id_component
    valid_utf8 contains_any preimage itoa get str_eq nat_eq int_eq known_kind
append_only_example =
    append_only calm (str "DECISION") (some (pos 1)) none run_id tenant (pos 1) claimed (refl, tt)

claim_only_example :
    IsGrown claimed.rows (claim_tool_call calm (pos 3) none run_id tenant (pos 2) claimed).1
unfolding claim_tool_call claim_slot ◌>>=◌ new_node node_id payload_hash validate_id_component
    valid_utf8 contains_any preimage itoa get str_eq nat_eq int_eq known_kind
claim_only_example = claim_only calm (pos 3) none run_id tenant (pos 2) claimed (refl, tt)

-- One DECISION without a step.
abbrev decided : Db
decided = (append calm (str "DECISION") none none run_id tenant (pos 1) empty_db).1

-- A step of -1 stands at the slot of no step, though the two nodes have different ids.
append_conflict_example :
    ((append calm (str "DECISION") (some minus_one) none run_id tenant (pos 1) decided).0
      ≡ err slot_conflict)
    × ((append calm (str "DECISION") (some minus_one) none run_id tenant (pos 1) decided).1.rows
        ≡ decided.rows)
unfolding append claim_tool_call claim_slot store_node slot_owner ◌>>=◌ new_node node_id
    payload_hash validate_id_component valid_utf8 contains_any preimage itoa get str_eq nat_eq
    int_eq option_eq slot_eq conflicts known_kind step_key step_text insert_or_ignore owner_in
    statement is_claimed insert_and_commit row_of
append_conflict_example =
    append_conflict calm (str "DECISION") (some minus_one) none run_id tenant (pos 1) (λ n. refl)
      decided refl refl (λ e. cc) (λ e. cc)

append_replay_example :
    (m : Node) × ((append calm (str "DECISION") none none run_id tenant (pos 1) decided).0 ≡ ok m)
    × (m.id ≡ str "acme|run|None|1|DECISION|{}")
    × ((append calm (str "DECISION") none none run_id tenant (pos 1) decided).1.rows ≡ decided.rows)
unfolding append claim_tool_call claim_slot store_node slot_owner ◌>>=◌ new_node node_id
    payload_hash validate_id_component valid_utf8 contains_any preimage itoa get str_eq nat_eq
    int_eq option_eq slot_eq conflicts known_kind step_key step_text insert_or_ignore owner_in
    statement is_claimed insert_and_commit row_of
append_replay_example =
    append_replay calm (str "DECISION") none none run_id tenant (pos 1) (λ n. refl) empty_db refl
      decided refl

list_nodes-IsScoped_example : All (IsScoped run_id tenant) (
    field (str "id") (text (str "acme|run|None|1|DECISION|{}")) (
      field (str "trajectory_id") (text run_id) (
        field (str "tenant_id") (text tenant) (
          field (str "seq") (int (pos 1)) (
            field (str "kind") (text (str "DECISION")) (
              field
                (str "payload")
                (obj end)
                (field (str "ts") (float 0) (field (str "step_n") null end)))))))
    ∷ [])
unfolding append claim_tool_call claim_slot store_node slot_owner ◌>>=◌ new_node node_id
    payload_hash validate_id_component valid_utf8 contains_any preimage itoa get str_eq nat_eq
    int_eq option_eq slot_eq conflicts known_kind step_key step_text insert_or_ignore owner_in
    statement is_claimed insert_and_commit row_of list_nodes has_row selected row_record sort_by
list_nodes-IsScoped_example = list_nodes-IsScoped calm run_id tenant decided refl

-- A later step that was appended first, and the DECISION without a step.
abbrev two_rows : Db
two_rows =
    (append calm (str "DECISION") none none run_id tenant (pos 1)
      (append calm (str "DECISION") (some (pos 0)) none run_id tenant (pos 1) empty_db).1).1

abbrev decision_record : Str → ℕ → Value → Fields
decision_record id ts step = field (str "id") (text id) (
    field (str "trajectory_id") (text run_id) (
      field (str "tenant_id") (text tenant) (
        field (str "seq") (int (pos 1)) (
          field (str "kind") (text (str "DECISION")) (
            field (str "payload") (obj end)
              (field (str "ts") (float ts) (field (str "step_n") step end)))))))

list_any-IsListing_example : IsListing calm run_id none two_rows.rows (
    decision_record (str "acme|run|None|1|DECISION|{}") 2 null
    ∷ decision_record (str "acme|run|0|1|DECISION|{}") 0 (int (pos 0))
    ∷ [])
unfolding append claim_tool_call claim_slot store_node slot_owner ◌>>=◌ new_node node_id
    payload_hash validate_id_component valid_utf8 contains_any preimage itoa get str_eq nat_eq
    int_eq option_eq slot_eq conflicts known_kind step_key step_text insert_or_ignore owner_in
    statement is_claimed insert_and_commit row_of list_nodes has_row selected row_record sort_by
    row_less
list_any-IsListing_example = list_any-IsListing calm run_id none two_rows refl
