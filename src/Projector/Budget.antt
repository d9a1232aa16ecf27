-- ===== src/Projector/Budget.antt =====
-- The sizes of a projection.
use mathlib.Core.Path.{subst}
use trajectory_irmrd.Base.{
  ℕ, ◌+◌, ◌≤◌, ◌≡◌, refl, false, Option, none, some, List, [], ◌∷◌, ◌++◌, map, arith, ltb,
  Bool-cases, inl, inr, Fields, pos, Str, ok, and_then-eq-ok, Env,
}
use trajectory_irmrd.Projector.{
  Packed, Projection, node_size_units, total_size, pack, include, must_from, sort_nodes,
  select_nodes, projection_of, project_context, ids_of, optional_nodes, id_text,
}

module _ (E : Env) where
  -- What is included has the size that is used, and fits.
  pub record Fits (budget : ℕ) (p : Packed) : Type 0 where
    pub measured : total_size E p.included ≡ ok p.used
    pub within : p.used ≤ budget

  total_size-append :
      (nodes : List Fields) (n : Fields) {used size : ℕ}
      → total_size E nodes ≡ ok used
      → node_size_units E n ≡ ok size
      → total_size E (nodes ++ n ∷ []) ≡ ok (used + size)
  unfolding total_size
  total_size-append [] n {used} {size} h k = ground arith
  total_size-append (m ∷ nodes) n h k =
      let a = and_then-eq-ok (node_size_units E m) _ h in
      let b = and_then-eq-ok (total_size E nodes) _ a.2 in
      let r = total_size-append nodes n b.1 k in ground (arith, a.1, b.1, b.2, r)

  include-Fits :
      (budget : ℕ) (n : Fields) (size : ℕ) (p : Packed)
      → node_size_units E n ≡ ok size
      → Fits budget p
      → ltb budget (p.used + size) ≡ false
      → Fits budget (include n size p)
  unfolding include
  include-Fits budget n size p h f g = record {
    measured = total_size-append p.included n f.measured h;
    within = ground arith;
  }

  pub pack-Fits :
      (budget : ℕ) (nodes : List Fields) (p : Packed) {q : Packed}
      → Fits budget p
      → pack E budget nodes p ≡ ok q
      → Fits budget q
  unfolding pack include
  pack-Fits budget [] p {q} h e = let s : p ≡ q = cc in subst (Fits budget) s h
  pack-Fits budget (n ∷ nodes) p h e =
      let a = and_then-eq-ok (node_size_units E n) _ e in
      elim (Bool-cases (ltb budget (p.used + a.0))) [
        | inl t ↦ pack-Fits budget nodes p h (ground (arith, t, a.2))
        | inr t ↦
            pack-Fits budget nodes (include n a.0 p) (include-Fits budget n a.0 p a.1 h t)
              (ground (arith, t, a.2))
      ]

  -- Whatever is selected fits.
  pub select_nodes-Fits :
      (nodes : List Fields) (budget : ℕ) (pinned : List Str) {q : Packed}
      → select_nodes E nodes budget pinned ≡ ok q
      → Fits budget q
  unfolding select_nodes
  select_nodes-Fits nodes budget pinned e =
      let must = sort_nodes E (must_from pinned [] nodes) in
      let a = and_then-eq-ok (total_size E must) _ e in
      elim (Bool-cases (ltb budget a.0)) [
        | inl t ↦ ground (arith, t, a.2)
        | inr t ↦
            pack-Fits budget (sort_nodes E (optional_nodes (ids_of must) nodes))
              (record { included = must; ids = ids_of must; used = a.0 })
              (record { measured = a.1; within = ground (arith, t) }) (ground (arith, t, a.2))
      ]

  -- A projection that succeeds reports a size that is at most its budget, and that is the sum of
  -- the sizes of nodes of which it lists exactly the ids, in the projector's order.
  pub project_context_within :
      (nodes : List Fields) (budget : ℕ) (pinned : Option (List Str)) {r : Projection}
      → project_context E nodes (pos budget) pinned ≡ ok r
      → (r.size_units ≤ budget)
        × ((included : List Fields) × (total_size E included ≡ ok r.size_units)
            × (r.included_ids ≡ map id_text (sort_nodes E included)))
  unfolding project_context projection_of
  project_context_within nodes budget none {r} e =
      let a = and_then-eq-ok (select_nodes E nodes budget []) _ e in
      let f = select_nodes-Fits nodes budget [] a.1 in
      let same : projection_of E nodes budget a.0 ≡ r = cc in
      subst
        (λ r.
          (r.size_units ≤ budget)
          × ((included : List Fields) × (total_size E included ≡ ok r.size_units)
              × (r.included_ids ≡ map id_text (sort_nodes E included))))
        same (f.within, (a.0.included, f.measured, refl))
  project_context_within nodes budget (some ids) {r} e =
      let a = and_then-eq-ok (select_nodes E nodes budget ids) _ e in
      let f = select_nodes-Fits nodes budget ids a.1 in
      let same : projection_of E nodes budget a.0 ≡ r = cc in
      subst
        (λ r.
          (r.size_units ≤ budget)
          × ((included : List Fields) × (total_size E included ≡ ok r.size_units)
              × (r.included_ids ≡ map id_text (sort_nodes E included))))
        same (f.within, (a.0.included, f.measured, refl))
