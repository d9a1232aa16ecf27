-- ===== src/Projector/Partition.antt =====
-- Which ids a projection includes and drops.
use mathlib.Core.Path.{subst}
use trajectory_irmrd.Base.{
  ℕ, ◌+◌, ◌≡◌, ◌≢◌, refl, sym, ap, ◌∙◌, Bool, true, false, ◌&&◌, ◌||◌, not, Option, none, some,
  List, [], ◌∷◌, ◌++◌, map, arith, ltb, ◌==◌, any, count, filter, contains, Str, str_eq, Bool-cases,
  Option-cases, inl, inr, Fields, pos, ok, and_then-eq-ok, ok-injective, Env, sort_by,
  count-sort_by, lt_str, get_text,
}
use trajectory_irmrd.Projector.{
  Packed, Projection, node_size_units, total_size, pack, include, must_from, sort_nodes,
  select_nodes, projection_of, project_context, ids_of, id_of, optional_nodes, id_text, is_required,
  dropped, node_less,
}

module _ {A : Type 0} (f : A → Str) (id : Str) where
  -- Whether an id is among those of some elements, by counting.
  contains-count : (xs : List A) → contains id (map f xs) ≡ ltb 0 (count (λ x. id == f x) xs)
  contains-count [] = ground arith
  contains-count (x ∷ xs) = ground (arith, contains-count xs)

  contains-sort :
      (less : A → A → Bool) (xs : List A)
      → contains id (map f (sort_by less xs)) ≡ contains id (map f xs)
  contains-sort less xs =
      contains-count (sort_by less xs)
      ∙ ap (ltb 0) (count-sort_by less (λ x. id == f x) xs)
      ∙ sym (contains-count xs)

  contains-append :
      (xs : List A) (x : A)
      → contains id (map f (xs ++ x ∷ [])) ≡ (contains id (map f xs) || id == f x)
  contains-append [] x = ground arith
  contains-append (y ∷ xs) x = ground (arith, contains-append xs x)

-- A node of this id is required.
abbrev pub requires : List Str → Str → List Fields → Bool
requires pinned id nodes = any (λ n. id_text n == id && is_required pinned n) nodes

must_from-required :
    (pinned seen : List Str) (id : Str) (nodes : List Fields)
    → id ≢ []
    → contains id seen ≡ false
    → requires pinned id nodes ≡ true
    → contains id (map id_text (must_from pinned seen nodes)) ≡ true
unfolding must_from
must_from-required pinned seen id [] ne new h = cc
must_from-required pinned seen id (n ∷ nodes) ne new h =
    elim (Bool-cases
      (is_required pinned n && not (id_text n == []) && not (contains (id_text n) seen))) [
        | inl takes ↦ elim (Bool-cases (id == id_text n)) [
          | inl here ↦ ground (arith, takes, here)
          | inr there ↦
              let r =
                must_from-required pinned (id_text n ∷ seen) id nodes ne
                  (ground (arith, there, new)) (ground (arith, h, there)) in
              ground (arith, takes, there, r)
        ]
        | inr skips ↦
            let r =
              must_from-required pinned seen id nodes ne new (ground (arith, h, skips, new, ne)) in
            ground (arith, skips, r)
      ]

-- The recorded ids are those of the included nodes, the empty id aside.
abbrev Synced : Str → Packed → Type 0
Synced id p = contains id p.ids ≡ contains id (map id_text p.included)

contains-ids_of :
    (id : Str) (nodes : List Fields)
    → id ≢ []
    → contains id (ids_of nodes) ≡ contains id (map id_text nodes)
unfolding ids_of get_text
contains-ids_of id [] ne = refl
contains-ids_of id (n ∷ nodes) ne = elim (Option-cases (id_of n)) [
  | inl none_there ↦ ground (arith, none_there, contains-ids_of id nodes ne, ne)
  | inr (i, there) ↦ ground (arith, there, contains-ids_of id nodes ne)
]

include-Synced :
    (id : Str) (n : Fields) (size : ℕ) (p : Packed)
    → id ≢ []
    → Synced id p
    → Synced id (include n size p)
unfolding include get_text
include-Synced id n size p ne h =
    let grown = contains-append id_text id p.included n in
    elim (Option-cases (id_of n)) [
      | inl none_there ↦ ground (arith, none_there, grown, h, ne)
      | inr (i, there) ↦ ground (arith, there, grown, h)
    ]

-- What packing keeps: the ids stay in step, and what is included stays so.
record IsPacked (id : Str) (from : Packed) (to : Packed) : Type 0 where
  synced : Synced id to
  kept : contains id from.ids ≡ true → contains id to.ids ≡ true

include-kept :
    (id : Str) (n : Fields) (size : ℕ) (p : Packed)
    → contains id p.ids ≡ true
    → contains id (include n size p).ids ≡ true
unfolding include
include-kept id n size p h = elim (Option-cases (id_of n)) [
  | inl none_there ↦ ground (arith, none_there, h)
  | inr (i, there) ↦ ground (arith, there, h)
]

module _ (E : Env) (id : Str) (ne : id ≢ []) where
  pack-IsPacked :
      (budget : ℕ) (nodes : List Fields) (p : Packed) {q : Packed}
      → Synced id p
      → pack E budget nodes p ≡ ok q
      → IsPacked id p q
  unfolding pack
  pack-IsPacked budget [] p {q} h e =
      let same : p ≡ q = ok-injective e in
      subst (IsPacked id p) same (record { synced = h; kept = λ k. k })
  pack-IsPacked budget (n ∷ nodes) p {q} h e =
      let (size, _, e1) = and_then-eq-ok (node_size_units E n) _ e in
      elim (Bool-cases (ltb budget (p.used + size))) [
        | inl large ↦ pack-IsPacked budget nodes p h (ground (arith, large, e1))
        | inr fits ↦
            let more : pack E budget nodes (include n size p) ≡ ok q = ground (arith, fits, e1) in
            let r =
              pack-IsPacked budget nodes (include n size p) (include-Synced id n size p ne h)
                more in
            record { synced = r.synced; kept = λ k. r.kept (include-kept id n size p k) }
      ]

  select_nodes-partition :
      (nodes : List Fields) (budget : ℕ) (pinned : List Str) {q : Packed}
      → select_nodes E nodes budget pinned ≡ ok q
      → Synced id q × (requires pinned id nodes ≡ true → contains id q.ids ≡ true)
  unfolding select_nodes sort_nodes
  select_nodes-partition nodes budget pinned {q} e =
      let must = sort_nodes E (must_from pinned [] nodes) in
      let (size, _, e1) = and_then-eq-ok (total_size E must) _ e in
      elim (Bool-cases (ltb budget size)) [
        | inl t ↦ ground (arith, t, e1)
        | inr t ↦
            let start : Packed = record { included = must; ids = ids_of must; used = size } in
            let others = sort_nodes E (optional_nodes (ids_of must) nodes) in
            let packs : pack E budget others start ≡ ok q = ground (arith, t, e1) in
            let r = pack-IsPacked budget others start (contains-ids_of id must ne) packs in
            (
              r.synced,
              λ required. r.kept (
                  contains-ids_of id must ne
                  ∙ contains-sort id_text id (node_less E) (must_from pinned [] nodes)
                  ∙ must_from-required pinned [] id nodes ne refl required),
            )
      ]

map_same : (xs : List Str) → map (λ x. x) xs ≡ xs
map_same [] = refl
map_same (x ∷ xs) = ap (λ ys. x ∷ ys) (map_same xs)

contains-sorted : (id : Str) (xs : List Str) → contains id (sort_by lt_str xs) ≡ contains id xs
contains-sorted id xs =
    ap (contains id) (sym (map_same (sort_by lt_str xs)))
    ∙ contains-sort (λ x. x) id lt_str xs
    ∙ ap (contains id) (map_same xs)

contains-filter :
    (id : Str) (p : Str → Bool) (xs : List Str)
    → contains id (filter p xs) ≡ (contains id xs && p id)
contains-filter id p [] = refl
contains-filter id p (x ∷ xs) = elim (Bool-cases (id == x)) [
  | inl same ↦
      let e : x ≡ id = ground (arith, same) in
      subst (λ y. contains id (filter p (y ∷ xs)) ≡ (contains id (y ∷ xs) && p id)) (sym e)
        (ground (arith, contains-filter id p xs))
  | inr other ↦ ground (arith, other, contains-filter id p xs)
]

-- What is dropped of an id: listed, and not included.
dropped-eq :
    (id : Str) (ids : List Str) (nodes : List Fields)
    → id ≢ []
    → contains id (dropped ids nodes) ≡ (contains id (map id_text nodes) && not (contains id ids))
unfolding dropped
dropped-eq id ids nodes ne =
    let keep : Str → Bool = λ i. not (i == []) && not (contains i ids) in
    let sorted = contains-sorted id (filter keep (map id_text nodes)) in
    let filtered = contains-filter id keep (map id_text nodes) in
    ground (arith, sorted, filtered, ne)

-- What a projection says of an id.
abbrev pub IsPartitioned : List Fields → List Str → Str → Projection → Type 0
IsPartitioned nodes pinned id r =
    (requires pinned id nodes ≡ true → contains id r.included_ids ≡ true)
    × (contains id r.dropped_ids
        ≡ (contains id (map id_text nodes) && not (contains id r.included_ids)))

module _ (E : Env) (id : Str) (ne : id ≢ []) (nodes : List Fields) (budget : ℕ) where
  projection-IsPartitioned :
      (pinned : List Str) (q : Packed)
      → select_nodes E nodes budget pinned ≡ ok q
      → IsPartitioned nodes pinned id (projection_of E nodes budget q)
  unfolding projection_of sort_nodes
  projection-IsPartitioned pinned q e =
      let s = select_nodes-partition E id ne nodes budget pinned e in
      let listed = contains-sort id_text id (node_less E) q.included in
      (
        (λ required. listed ∙ sym s.0 ∙ s.1 required),
        dropped-eq id q.ids nodes ne
            ∙ ap (λ b. contains id (map id_text nodes) && not b) (s.0 ∙ sym listed),
      )

abbrev pub given : Option (List Str) → List Str
given none = []
given (some pinned) = pinned

-- A projection that succeeds includes every id, the empty one aside, that a CONSTRAINT or a pinned
-- node has, and it drops exactly the listed ids that it does not include.
pub project_context-IsPartitioned :
    (E : Env) (nodes : List Fields) (budget : ℕ) (pinned : Option (List Str)) (id : Str)
    {r : Projection}
    → id ≢ []
    → project_context E nodes (pos budget) pinned ≡ ok r
    → IsPartitioned nodes (given pinned) id r
unfolding project_context
project_context-IsPartitioned E nodes budget none id {r} ne e =
    let (q, selected, same) = and_then-eq-ok (select_nodes E nodes budget []) _ e in
    subst (IsPartitioned nodes [] id) (ok-injective same)
      (projection-IsPartitioned E id ne nodes budget [] q selected)
project_context-IsPartitioned E nodes budget (some pinned) id {r} ne e =
    let (q, selected, same) = and_then-eq-ok (select_nodes E nodes budget pinned) _ e in
    subst (IsPartitioned nodes pinned id) (ok-injective same)
      (projection-IsPartitioned E id ne nodes budget pinned q selected)
