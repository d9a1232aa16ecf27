-- ===== src/Projector/Tests.antt =====
-- The projector's theorems on two nodes, of which one is required and the other does not fit.
use trajectory_irmrd.Base.{
  ◌≡◌, ◌≤◌, int, pos, refl, none, some, List, [], ◌∷◌, map, ok, text, str, str_eq, nat_eq, int_eq,
  slice, list_to_items, get, get_text, field, end, obj, Fields, sort_by,
}
use trajectory_irmrd.Redact.{redact_projection_context}
use trajectory_irmrd.Projector.{
  total_size, sort_nodes, project_context, projection_of, item_of, id_text, pack, node_size_units,
  is_required, optional_nodes, dropped, node_less, position, Packed, size_metric,
}
use trajectory_irmrd.Projector.Partition.{IsPartitioned, project_context-IsPartitioned}
use trajectory_irmrd.Projector.Budget.{project_context_within}
use trajectory_irmrd.Projector.Leak.{redact_projection_unscrubbed}
use trajectory_irmrd.Samples.{calm}

abbrev rule : Fields
rule = field (str "id") (text (str "a")) (field (str "kind") (text (str "CONSTRAINT")) end)

abbrev thought : Fields
thought = field (str "id") (text (str "b")) (
    field (str "kind") (text (str "THOUGHT"))
      (field (str "payload") (obj (field (str "password") (text (str "hunter2")) end)) end))

project_context_within_example :
    (2 ≤ 3)
    × ((included : List Fields) × (total_size calm included ≡ ok 2)
        × ((str "a" ∷ []) ≡ map id_text (sort_nodes calm included)))
unfolding project_context get str_eq nat_eq int_eq total_size node_size_units is_required sort_by
    node_less position get_text dropped pack sort_nodes optional_nodes
project_context_within_example = project_context_within calm (thought ∷ rule ∷ []) 3 none refl

project_context-IsPartitioned_example : IsPartitioned (thought ∷ rule ∷ []) [] (str "a") (record {
  included_ids = str "a" ∷ [];
  dropped_ids = str "b" ∷ [];
  context = field (str "items") (slice (list_to_items (item_of rule ∷ []))) (
      field (str "included_ids") (slice (list_to_items (text (str "a") ∷ []))) (
        field
          (str "budget")
          (int (pos 3))
          (field (str "size_units") (int (pos 2)) (field (str "metric") (text size_metric) end))));
  size_units = 2;
  budget = 3;
  metric = size_metric;
})
unfolding project_context get str_eq nat_eq int_eq total_size node_size_units is_required sort_by
    node_less position get_text dropped pack sort_nodes optional_nodes
project_context-IsPartitioned_example =
    project_context-IsPartitioned calm (thought ∷ rule ∷ []) 3 none (str "a") (λ e. cc) refl

abbrev packed : Packed
packed = record { included = thought ∷ []; ids = str "b" ∷ []; used = 2 }

redact_projection_unscrubbed_example :
    get
      (str "items")
      (redact_projection_context (some (projection_of calm (thought ∷ []) 5 packed).context))
    ≡ some (slice (list_to_items (map item_of (sort_nodes calm packed.included))))
redact_projection_unscrubbed_example = redact_projection_unscrubbed calm (thought ∷ []) 5 packed
