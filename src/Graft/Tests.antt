-- ===== src/Graft/Tests.antt =====
-- The theorems on grafts at a source that holds a put, a reference and a thought.
use trajectory_irmrd.Base.{
  ◌≢◌, refl, false, none, some, List, [], ◌∷◌, pos, int, text, str, str_eq, nat_eq, int_eq, field,
  end, obj, Fields, bool, true, put, option_eq, itoa, contains_any, ◌>>=◌, get, get_text, sort_by,
  Str,
}
use trajectory_irmrd.Nodes.{
  Node, new_node, node_id, payload_hash, validate_id_component, preimage, step_text, known_kind,
}
use trajectory_irmrd.Nodes.Utf8.{valid_utf8}
use trajectory_irmrd.Log.{
  append, store_node, slot_owner, insert_or_ignore, statement, conflicts, owner_in, row_of, slot_eq,
  step_key,
}
use trajectory_irmrd.Graft.{
  GraftOptions, graft_artifact_ref, graft_origin, origin_from, graft_payload, find_artifact_ref,
  is_match, is_private_match, payload_content_hash, ref_less, ref_rank, seq_of,
}
use trajectory_irmrd.Graft.Laws.{IsArtifact, find-IsArtifact}
use trajectory_irmrd.Graft.Grafted.{IsGraft, graft_artifact_ref-IsGraft}
use trajectory_irmrd.Samples.{calm, empty_db, run_id, tenant}

abbrev with_kind : Str → Fields
with_kind kind = field (str "kind") (text kind) (
    field (str "payload") (obj (field (str "hash") (text (str "abc")) end))
      (field (str "seq") (int (pos 3)) end))

abbrev source : List Fields
source = with_kind (str "ARTIFACT_PUT") ∷ with_kind (str "ARTIFACT_REF") ∷ []

find-IsArtifact_example : (str "abc" ≢ []) × IsArtifact (str "abc") (with_kind (str "ARTIFACT_REF"))
unfolding find_artifact_ref is_match ref_less sort_by get get_text str_eq nat_eq int_eq
    payload_content_hash ref_rank seq_of
find-IsArtifact_example = find-IsArtifact calm source (str "abc") refl

abbrev opts : GraftOptions
opts = record {
  content_hash = str "abc";
  target_trajectory_id = run_id;
  target_tenant_id = tenant;
  seq = pos 1;
  step_n = none;
  source_nodes = some source;
  logical_path = [];
  uri = [];
  source_trajectory_id = [];
  has_logical_path = false;
  has_uri = false;
  has_source_trajectory = false;
}

abbrev grafted : Node
grafted = record {
  kind = str "ARTIFACT_REF";
  trajectory_id = run_id;
  tenant_id = tenant;
  step_n = none;
  seq = pos 1;
  payload = field (str "content_hash") (text (str "abc")) (field (str "grafted") (bool true) end);
  ts = 0;
  phash = str "{}";
  id = str "acme|run|None|1|ARTIFACT_REF|{}";
}

graft_artifact_ref-IsGraft_example : IsGraft calm opts source grafted
unfolding graft_artifact_ref graft_origin origin_from graft_payload is_match is_private_match
    find_artifact_ref ref_less ref_rank seq_of payload_content_hash sort_by get put get_text str_eq
    nat_eq int_eq option_eq append store_node slot_owner insert_or_ignore statement conflicts
    owner_in row_of slot_eq step_key new_node known_kind validate_id_component valid_utf8
    contains_any payload_hash node_id preimage step_text itoa ◌>>=◌
graft_artifact_ref-IsGraft_example = graft_artifact_ref-IsGraft calm opts source empty_db refl refl
