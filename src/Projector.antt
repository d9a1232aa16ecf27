-- ===== src/Projector.antt =====
-- The default context projector, go/trajir/projector/projector.go: required nodes first, then the
-- others in order as long as they fit the budget. Sizes and their sums are far below 2^63.
pub mod Budget
pub mod Partition
pub mod Leak
mod Tests
use trajectory_irmrd.Base.{
  lt_str, ℕ, zero, suc, ◌+◌, Bool, true, false, ◌&&◌, ◌||◌, not, Option, none, some, List, [], ◌∷◌,
  ◌++◌, map, if◌then◌else◌, ◌==◌, ltb, length, contains, filter, Str, str, str_eq, nat_eq, ℤ, pos,
  negsuc, int_eq, lt_int, Value, null, int, float, text, slice, obj, Items, list_to_items, Fields,
  end, field, get, get_text, or_null, as_text, sort_by, Error, Result, ok, err, and_then, or_fail,
  json_marshal, jcs_transform, negative_budget, budget_impossible, Env,
}

abbrev pub no_position : ℤ
no_position = pos 1_000_000_000

-- `n["payload"]`, with nil read as the empty map.
abbrev pub payload_or_empty : Value → Value
payload_or_empty null = obj end
payload_or_empty v = v

-- `n["id"].(string)`
abbrev pub id_of : Fields → Option Str
id_of n = as_text (or_null (get (str "id") n))

abbrev pub id_text : Fields → Str
id_text n = get_text (str "id") n

-- CONSTRAINT, or pinned by its id.
unfoldable pub is_required : List Str → Fields → Bool
is_required pinned n = get_text (str "kind") n == str "CONSTRAINT" || contains (id_text n) pinned

-- The loop that collects `must`: the first node of each non-empty id.
unfoldable pub must_from : List Str → List Str → List Fields → List Fields
unfolding is_required
must_from pinned seen [] = []
must_from pinned seen (n ∷ nodes) =
    let takes = is_required pinned n && not (id_text n == []) && not (contains (id_text n) seen) in
    let rest = must_from pinned (if takes then id_text n ∷ seen else seen) nodes in
    if takes then n ∷ rest else rest

-- The ids that are strings.
unfoldable pub ids_of : List Fields → List Str
ids_of [] = []
ids_of (n ∷ nodes) = elim (id_of n) [ none ↦ ids_of nodes | some id ↦ id ∷ ids_of nodes ]

-- What has been included, its ids, and its size.
pub record Packed : Type 0 where
  pub included : List Fields
  pub ids : List Str
  pub used : ℕ

unfoldable pub include : Fields → ℕ → Packed → Packed
include n size p = record {
  included = p.included ++ n ∷ [];
  ids = elim (id_of n) [ none ↦ p.ids | some id ↦ id ∷ p.ids ];
  used = p.used + size;
}

pub record Projection : Type 0 where
  pub included_ids : List Str
  pub dropped_ids : List Str
  pub context : Fields
  pub size_units : ℕ
  pub budget : ℕ
  pub metric : Str

abbrev pub size_metric : Str
size_metric = str "rfc8785_bytes"

abbrev pub item_of : Fields → Value
item_of n = obj (
    field (str "id") (or_null (get (str "id") n)) (
      field (str "kind") (or_null (get (str "kind") n)) (
        field (str "payload") (or_null (get (str "payload") n)) (
          field (str "step_n") (or_null (get (str "step_n") n))
            (field (str "seq") (or_null (get (str "seq") n)) end)))))

unfoldable pub optional_nodes : List Str → List Fields → List Fields
optional_nodes included nodes = filter (λ n. not (contains (id_text n) included)) nodes

-- The ids of the nodes that were left out.
unfoldable pub dropped : List Str → List Fields → List Str
unfolding lt_str
dropped ids nodes =
    sort_by lt_str (filter (λ id. not (id == []) && not (contains id ids)) (map id_text nodes))

module _ (E : Env) where
  -- `n[k].(int)`, else `int(n[k].(float64))`, else the default.
  unfoldable pub position : Value → ℤ
  position (int v) = v
  position (float x) = E.float_to_int x
  position _ = no_position

  unfoldable pub node_less : Fields → Fields → Bool
  unfolding position lt_str
  node_less a b =
      let step_a = position (or_null (get (str "step_n") a)) in
      let step_b = position (or_null (get (str "step_n") b)) in
      let seq_a = position (or_null (get (str "seq") a)) in
      let seq_b = position (or_null (get (str "seq") b)) in
      if not (step_a == step_b)
      then lt_int step_a step_b
      else if not (seq_a == seq_b)
      then lt_int seq_a seq_b
      else lt_str (id_text a) (id_text b)

  unfoldable pub sort_nodes : List Fields → List Fields
  sort_nodes = sort_by node_less

  unfoldable pub node_size_units : Fields → Result ℕ
  node_size_units n =
      let payload = payload_or_empty (or_null (get (str "payload") n)) in
      let kind = text (get_text (str "kind") n) in
      and_then
        (or_fail json_marshal
          (E.marshal (obj (field (str "kind") kind (field (str "payload") payload end)))))
        (λ raw. and_then (or_fail jcs_transform (E.transform raw)) (λ canon. ok (length canon)))

  unfoldable pub total_size : List Fields → Result ℕ
  total_size [] = ok 0
  total_size (n ∷ nodes) =
      and_then (node_size_units n) (λ size. and_then (total_size nodes) (λ rest. ok (size + rest)))

  -- The loop over the optional nodes: one that does not fit is passed over.
  unfoldable pub pack : ℕ → List Fields → Packed → Result Packed
  unfolding include
  pack budget [] p = ok p
  pack budget (n ∷ nodes) p =
      and_then (node_size_units n)
        (λ size. pack budget nodes (if ltb budget (p.used + size) then p else include n size p))

  unfoldable pub select_nodes : List Fields → ℕ → List Str → Result Packed
  unfolding must_from ids_of pack
  select_nodes nodes budget pinned =
      let must = sort_nodes (must_from pinned [] nodes) in
      and_then (total_size must) (λ must_size.
        if ltb budget must_size
        then err (budget_impossible (pos must_size) (pos budget))
        else pack budget (sort_nodes (optional_nodes (ids_of must) nodes))
            (record { included = must; ids = ids_of must; used = must_size }))

  unfoldable pub projection_of : List Fields → ℕ → Packed → Projection
  unfolding dropped
  projection_of nodes budget p =
      let included = sort_nodes p.included in
      let included_ids = map id_text included in
      record {
        included_ids = included_ids;
        dropped_ids = dropped p.ids nodes;
        context = field (str "items") (slice (list_to_items (map item_of included))) (
            field (str "included_ids") (slice (list_to_items (map (λ id. text id) included_ids))) (
              field (str "budget") (int (pos budget)) (
                field (str "size_units") (int (pos p.used))
                  (field (str "metric") (text size_metric) end))));
        size_units = p.used;
        budget = budget;
        metric = size_metric;
      }

  -- A nil set of pinned ids is `none`.
  unfoldable pub project_context : List Fields → ℤ → Option (List Str) → Result Projection
  unfolding select_nodes projection_of
  project_context nodes (negsuc n) pinned = err negative_budget
  project_context nodes (pos budget) none =
      and_then (select_nodes nodes budget []) (λ p. ok (projection_of nodes budget p))
  project_context nodes (pos budget) (some pinned) =
      and_then (select_nodes nodes budget pinned) (λ p. ok (projection_of nodes budget p))
