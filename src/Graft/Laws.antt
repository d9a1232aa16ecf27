-- ===== src/Graft/Laws.antt =====
-- The node that a graft takes its reference from, and what is refused.
use mathlib.Core.Path.{subst}
use trajectory_irmrd.Base.{
  ℕ, ◌≤◌, ◌≡◌, ◌≢◌, refl, Bool, true, false, inl, inr, Bool-cases, List, [], ◌∷◌, arith, ◌==◌,
  contains, filter, count, count-sort_by, sym, ◌∙◌, insert_by-All, All, Str, str, str_eq, nat_eq,
  int_eq, Fields, sort_by, insert_by, sort_by-All, ok, ◌⊎◌, Env,
}
use trajectory_irmrd.Graft.{
  is_match, ref_rank, ref_less, find_artifact_ref, first_match, kind_of, payload_content_hash,
  payload_of,
}

-- What a source node must satisfy to be grafted from.
pub record IsArtifact (content_hash : Str) (n : Fields) : Type 0 where
  pub kind : contains (kind_of n) (str "ARTIFACT_PUT" ∷ str "ARTIFACT_REF" ∷ []) ≡ true
  pub not_thought : kind_of n ≢ str "THOUGHT"
  pub content : payload_content_hash (payload_of n) ≡ content_hash

filter-All :
    {A : Type 0} (P : A → Type 0) (p : A → Bool) (xs : List A)
    → ((x : A) → p x ≡ true → P x)
    → All P (filter p xs)
filter-All P p [] h = tt
filter-All P p (x ∷ xs) h = elim (Bool-cases (p x)) [
  | inl t ↦ rw t (h x t, filter-All P p xs h)
  | inr f ↦ rw f (filter-All P p xs h)
]

-- The node is one of the list.
abbrev pub In : Fields → List Fields → Type 0
In n [] = ⊥
In n (x ∷ xs) = (n ≡ x) ⊎ In n xs

All-later : (x : Fields) (xs ys : List Fields) → All (λ n. In n ys) xs → All (λ n. In n (x ∷ ys)) xs
All-later x [] ys h = tt
All-later x (n ∷ xs) ys h = (inr h.0, All-later x xs ys h.1)

All-In : (xs : List Fields) → All (λ n. In n xs) xs
All-In [] = tt
All-In (x ∷ xs) = (inl refl, All-later x xs xs (All-In xs))

All-filter :
    (P : Fields → Type 0) (p : Fields → Bool) (xs : List Fields) → All P xs → All P (filter p xs)
All-filter P p [] h = tt
All-filter P p (x ∷ xs) h = elim (Bool-cases (p x)) [
  | inl t ↦ rw t (h.0, All-filter P p xs h.1)
  | inr f ↦ rw f (All-filter P p xs h.1)
]

module _ (E : Env) where
  ref_less-rank : (a b : Fields) → ref_less E a b ≡ true → ref_rank a ≤ ref_rank b
  unfolding ref_less nat_eq ref_rank
  ref_less-rank a b h = ground arith

  ref_less-rank_not : (a b : Fields) → ref_less E a b ≡ false → ref_rank b ≤ ref_rank a
  unfolding ref_less nat_eq ref_rank
  ref_less-rank_not a b h = ground arith

  -- Every element ranks at least as high as the first.
  abbrev Leads : List Fields → Type 0
  Leads [] = Unit
  Leads (n ∷ rest) = All (λ m. ref_rank n ≤ ref_rank m) rest

  All-weaken :
      (a b : ℕ) (xs : List Fields)
      → a ≤ b
      → All (λ m. b ≤ ref_rank m) xs
      → All (λ m. a ≤ ref_rank m) xs
  All-weaken a b [] le h = tt
  All-weaken a b (x ∷ xs) le h = (omega (arith, h.0), All-weaken a b xs le h.1)

  Leads-insert_by : (x : Fields) (xs : List Fields) → Leads xs → Leads (insert_by (ref_less E) x xs)
  unfolding insert_by
  Leads-insert_by x [] h = tt
  Leads-insert_by x (y ∷ ys) h = elim (Bool-cases (ref_less E y x)) [
    | inl lt ↦
        rw lt
          (insert_by-All (λ m. ref_rank y ≤ ref_rank m) (ref_less E) x ys (ref_less-rank y x lt) h)
    | inr ge ↦
        let le = ref_less-rank_not y x ge in
        rw ge (le, All-weaken (ref_rank x) (ref_rank y) ys le h)
  ]

  Leads-sort_by : (xs : List Fields) → Leads (sort_by (ref_less E) xs)
  unfolding sort_by
  Leads-sort_by [] = tt
  Leads-sort_by (x ∷ xs) = Leads-insert_by x (sort_by (ref_less E) xs) (Leads-sort_by xs)

  first_match-All :
      (P : Fields → Type 0) (xs : List Fields) {n : Fields} → All P xs → first_match xs ≡ ok n → P n
  first_match-All P [] h e = cc
  first_match-All P (x ∷ xs) {n} h e = let s : x ≡ n = cc in subst P s h.0

  matches-IsArtifact :
      (nodes : List Fields) (content_hash : Str)
      → All (IsArtifact content_hash) (filter (is_match content_hash) nodes)
  unfolding is_match
  matches-IsArtifact nodes content_hash =
      filter-All (IsArtifact content_hash) (is_match content_hash) nodes
        (λ x t. record { kind = ground arith; not_thought = ground arith; content = ground arith })

  -- What FindArtifactRef finds has the wanted content, which is not empty, and is an ARTIFACT_PUT
  -- or an ARTIFACT_REF and no THOUGHT.
  pub find-IsArtifact :
      (nodes : List Fields) (content_hash : Str) {n : Fields}
      → find_artifact_ref E nodes content_hash ≡ ok n
      → (content_hash ≢ []) × IsArtifact content_hash n
  unfolding find_artifact_ref
  find-IsArtifact nodes content_hash {n} h = (
    ground arith,
    first_match-All (IsArtifact content_hash)
        (sort_by (ref_less E) (filter (is_match content_hash) nodes))
        (sort_by-All (IsArtifact content_hash) (ref_less E) _
          (matches-IsArtifact nodes content_hash))
        (ground arith),
  )

  -- It is one of the source's nodes.
  pub find-In :
      (nodes : List Fields) (content_hash : Str) {n : Fields}
      → find_artifact_ref E nodes content_hash ≡ ok n
      → In n nodes
  unfolding find_artifact_ref
  find-In nodes content_hash {n} h =
      first_match-All (λ m. In m nodes)
        (sort_by (ref_less E) (filter (is_match content_hash) nodes))
        (sort_by-All (λ m. In m nodes) (ref_less E) _
          (All-filter (λ m. In m nodes) (is_match content_hash) nodes (All-In nodes)))
        (ground arith)

  no_refs :
      (xs : List Fields) (a : ℕ)
      → a ≢ 0
      → All (λ m. a ≤ ref_rank m) xs
      → count (λ m. kind_of m == str "ARTIFACT_REF") xs ≡ 0
  unfolding ref_rank
  no_refs [] a z h = refl
  no_refs (x ∷ xs) a z h = ground (arith, no_refs xs a z h.1, h.0)

  first_match-ref :
      (xs : List Fields) {n : Fields}
      → Leads xs
      → first_match xs ≡ ok n
      → count (λ m. kind_of m == str "ARTIFACT_REF") xs ≢ 0
      → kind_of n ≡ str "ARTIFACT_REF"
  unfolding ref_rank
  first_match-ref [] h e c = cc
  first_match-ref (x ∷ xs) {n} h e c = elim (Bool-cases (kind_of x == str "ARTIFACT_REF")) [
    | inl is_ref ↦ ground (arith, is_ref, e)
    | inr other ↦
        absurd (c (no_refs (x ∷ xs) (ref_rank x) (ground (arith, other)) (omega arith, h)))
  ]

  -- Where any node with the wanted content is an ARTIFACT_REF, FindArtifactRef finds an
  -- ARTIFACT_REF.
  pub find_prefers_ref :
      (nodes : List Fields) (content_hash : Str) {n : Fields}
      → find_artifact_ref E nodes content_hash ≡ ok n
      → count (λ m. kind_of m == str "ARTIFACT_REF") (filter (is_match content_hash) nodes) ≢ 0
      → kind_of n ≡ str "ARTIFACT_REF"
  unfolding find_artifact_ref
  find_prefers_ref nodes content_hash h some_ref =
      let found = filter (is_match content_hash) nodes in
      let same = count-sort_by (ref_less E) (λ m. kind_of m == str "ARTIFACT_REF") found in
      first_match-ref (sort_by (ref_less E) found) (Leads-sort_by found) (ground arith)
        (λ none. some_ref (sym same ∙ none))
