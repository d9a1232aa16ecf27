-- ===== src/Tir/Export/Reload.antt =====
-- The seals of an export, against the check that `Load` makes of seals.
use mathlib.Core.Path.{subst}
use mathlib.Core.List.{append_assoc}
use trajectory_irmrd.Base.{
  ℤ, ◌≡◌, refl, sym, ap, ◌∙◌, inl, inr, true, false, Bool-cases, none, some, List, [], ◌∷◌, ◌++◌,
  map, arith, contains, Str, str, str_eq, option_eq, Fields, get, get_text, as_text, ok, and_then,
  and_then-eq-ok, ok-injective, Env,
}
use trajectory_irmrd.Nodes.{payload_hash}
use trajectory_irmrd.Tir.{
  is_decision, seal_of, seal_fields, seals_from_nodes, as_payload, as_int, at_key,
}
use trajectory_irmrd.Tir.Load.Checks.{find_seal, check_seals}

-- No two nodes have one id.
abbrev pub DistinctIds : List Fields → Type 0
DistinctIds [] = Unit
DistinctIds (n ∷ nodes) =
    (contains (get_text (str "id") n) (map (get_text (str "id")) nodes) ≡ false) × DistinctIds nodes

find_seal-append :
    (id : Str) (pre seals : List Fields) {s : Fields}
    → find_seal id seals ≡ some s
    → find_seal id (pre ++ seals) ≡ some s
unfolding find_seal
find_seal-append id [] seals h = h
find_seal-append id (p ∷ pre) seals h = ground (arith, find_seal-append id pre seals h)

seal_id :
    (n : Fields) (ph : Str) (seq : ℤ)
    → (get_text (str "node_id") (seal_fields n ph seq) ≡ get_text (str "id") n)
      × (as_text (at_key (str "node_id") (seal_fields n ph seq)) ≡ some (get_text (str "id") n))
unfolding seal_fields get_text get str_eq
seal_id n ph seq = (refl, refl)

module _ (E : Env) where
  -- A seal names the node that it is of.
  seal_of-id :
      (n : Fields) {s : Fields}
      → seal_of E n ≡ ok s
      → (get_text (str "node_id") s ≡ get_text (str "id") n)
        × (as_text (at_key (str "node_id") s) ≡ some (get_text (str "id") n))
  unfolding seal_of
  seal_of-id n {s} e =
      let (payload, _, e1) = and_then-eq-ok (as_payload (at_key (str "payload") n)) _ e in
      let (ph, _, e2) = and_then-eq-ok (payload_hash E (some payload)) _ e1 in
      let (seq, _, e3) = and_then-eq-ok (as_int E (at_key (str "seq") n)) _ e2 in
      let same : seal_fields n ph seq ≡ s = ok-injective e3 in
      subst
        (λ s.
          (get_text (str "node_id") s ≡ get_text (str "id") n)
          × (as_text (at_key (str "node_id") s) ≡ some (get_text (str "id") n)))
        same (seal_id n ph seq)

  no_nodes : {seals : List Fields} → seals_from_nodes E [] ≡ ok seals → [] ≡ seals
  unfolding seals_from_nodes
  no_nodes e = ok-injective e

  -- The seals of a decision in front.
  seals-decision :
      (n : Fields) (nodes : List Fields) {seals : List Fields}
      → is_decision n ≡ true
      → seals_from_nodes E (n ∷ nodes) ≡ ok seals
      → (s : Fields) × (more : List Fields) × (seal_of E n ≡ ok s)
        × (seals_from_nodes E nodes ≡ ok more)
        × (s ∷ more ≡ seals)
  unfolding seals_from_nodes
  seals-decision n nodes {seals} decision e =
      let e' : and_then (seal_of E n)
            (λ s. and_then (seals_from_nodes E nodes) (λ more. ok (s ∷ more)))
          ≡ ok seals =
        ground (arith, decision, e) in
      let (s, made, e1) = and_then-eq-ok (seal_of E n) _ e' in
      let (more, rest, e2) = and_then-eq-ok (seals_from_nodes E nodes) _ e1 in
      (s, more, made, rest, ok-injective e2)

  seals-other :
      (n : Fields) (nodes : List Fields) {seals : List Fields}
      → is_decision n ≡ false
      → seals_from_nodes E (n ∷ nodes) ≡ ok seals
      → seals_from_nodes E nodes ≡ ok seals
  unfolding seals_from_nodes
  seals-other n nodes other e = ground (arith, other, e)

  -- No node of an id, no seal of it.
  no_seal :
      (id : Str) (nodes : List Fields) {seals : List Fields}
      → contains id (map (get_text (str "id")) nodes) ≡ false
      → seals_from_nodes E nodes ≡ ok seals
      → find_seal id seals ≡ none
  unfolding find_seal option_eq
  no_seal id [] {seals} absent e = subst (λ l. find_seal id l ≡ none) (no_nodes e) refl
  no_seal id (n ∷ nodes) {seals} absent e = elim (Bool-cases (is_decision n)) [
    | inr other ↦ no_seal id nodes (ground (arith, absent)) (seals-other n nodes other e)
    | inl decision ↦
        let (s, more, made, rest, same) = seals-decision n nodes decision e in
        let named = seal_of-id n made in
        let absent_rest : contains id (map (get_text (str "id")) nodes) ≡ false =
          ground (arith, absent) in
        let r = no_seal id nodes absent_rest rest in
        subst (λ l. find_seal id l ≡ none) same (ground (arith, r, named.1, absent))
  ]

  found_first :
      (s : Fields) (more : List Fields)
      → as_text (at_key (str "node_id") s) ≡ some (get_text (str "node_id") s)
      → find_seal (get_text (str "node_id") s) more ≡ none
      → find_seal (get_text (str "node_id") s) (s ∷ more) ≡ some s
  unfolding find_seal option_eq
  found_first s more named absent = ground (arith, named, absent)

  -- Every wanted seal is found, behind any others.
  pub check_seals-own :
      (pre nodes : List Fields) {seals : List Fields}
      → DistinctIds nodes
      → seals_from_nodes E nodes ≡ ok seals
      → check_seals (pre ++ seals) seals ≡ ok tt
  unfolding check_seals
  check_seals-own pre [] {seals} distinct e =
      subst (λ l. check_seals (pre ++ l) l ≡ ok tt) (no_nodes e) refl
  check_seals-own pre (n ∷ nodes) {seals} distinct e = elim (Bool-cases (is_decision n)) [
    | inr other ↦ check_seals-own pre nodes distinct.1 (seals-other n nodes other e)
    | inl decision ↦
        let (s, more, made, rest, same) = seals-decision n nodes decision e in
        let named = seal_of-id n made in
        let first : find_seal (get_text (str "node_id") s) (s ∷ more) ≡ some s =
          found_first s more (named.1 ∙ ap some (sym named.0)) (
            ap (λ id. find_seal id more) named.0
            ∙ no_seal (get_text (str "id") n) nodes distinct.0 rest) in
        let found = find_seal-append (get_text (str "node_id") s) pre (s ∷ more) first in
        let later : check_seals (pre ++ s ∷ more) more ≡ ok tt =
          ap (λ l. check_seals l more) (sym (append_assoc pre (s ∷ []) more))
          ∙ check_seals-own (pre ++ s ∷ []) nodes distinct.1 rest in
        subst (λ l. check_seals (pre ++ l) l ≡ ok tt) same (ground (arith, found, later))
  ]
