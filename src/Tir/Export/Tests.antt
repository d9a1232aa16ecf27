-- ===== src/Tir/Export/Tests.antt =====
-- The export of a log with one node.
use trajectory_irmrd.Base.{sort_by}
use trajectory_irmrd.Base.{
  Fields, field, end, text, int, float, obj, null, refl, none, some, [], ◌∷◌, ◌++◌, Str, str,
  str_eq, nat_eq, int_eq, option_eq, pos, Env, get, get_text, itoa, contains_any, ◌>>=◌,
}
use trajectory_irmrd.Nodes.{payload_hash, node_id, validate_id_component, preimage, step_text}
use trajectory_irmrd.Nodes.Utf8.{valid_utf8}
use trajectory_irmrd.Log.{Db, list_nodes, selected, row_record, row_less}
use trajectory_irmrd.Samples.{calm, run_id, tenant}
use trajectory_irmrd.Tir.{
  as_int, as_step_n, expected_id, verify_node_record, seals_from_nodes, seal_of, seal_fields,
  is_decision, wrong_payload_hash,
}
use trajectory_irmrd.Tir.Export.{
  ExportOptions, export, export_mode, check_sign_key, tenant_of, check_nodes, embedded_artifacts,
  encode_members, marshal_pretty, marshal_line, encode_nodes, package_nodes,
}
use trajectory_irmrd.Tir.Export.Consistent.{IsConsistent, export-IsConsistent}

abbrev hashing : Env
hashing = record calm { sha256_hex = λ s. 97 ∷ s }

abbrev logged : Db
logged = record {
  rows =
      record {
        id = str "aacme|run|None|1|DECISION|a{}";
        trajectory_id = run_id;
        tenant_id = tenant;
        step_n = none;
        seq = pos 1;
        kind = str "DECISION";
        payload_json = str "{}";
        ts = 0;
      }
      ∷ [];
  clock = 0;
}

abbrev thin_export : ExportOptions
thin_export = record {
  mode = [];
  tenant_id = some tenant;
  artifacts = [];
  artifact_bytes = [];
  sign_key = [];
  signer_meta = record { id = []; signed_at = [] };
}

abbrev listed_node : Fields
listed_node = field (str "id") (text (str "aacme|run|None|1|DECISION|a{}")) (
    field (str "trajectory_id") (text run_id) (
      field (str "tenant_id") (text tenant) (
        field (str "seq") (int (pos 1)) (
          field (str "kind") (text (str "DECISION")) (
            field (str "payload") (obj end)
              (field (str "ts") (float 0) (field (str "step_n") null end)))))))

abbrev braces : Str
braces = str "{}" ++ 10 ∷ []

export-IsConsistent_example : IsConsistent hashing thin_export (listed_node ∷ []) (
    (str "manifest.json", braces)
    ∷ (str "COMPAT.json", braces)
    ∷ (str "seals.json", braces)
    ∷ (str "artifacts-manifest.json", braces)
    ∷ (str "nodes.ndjson", braces)
    ∷ [])
unfolding export list_nodes selected row_record row_less export_mode check_sign_key tenant_of
    check_nodes embedded_artifacts encode_members marshal_pretty marshal_line encode_nodes
    package_nodes ◌>>=◌ verify_node_record expected_id as_step_n as_int payload_hash node_id
    validate_id_component valid_utf8 contains_any preimage step_text itoa seals_from_nodes
    is_decision seal_of seal_fields wrong_payload_hash get get_text str_eq nat_eq int_eq option_eq
    sort_by
export-IsConsistent_example =
    export-IsConsistent hashing run_id thin_export logged {nodes = listed_node ∷ []} refl (refl, tt)
      refl
