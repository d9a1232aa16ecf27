-- ===== src/Tir/Load/Verified.antt =====
-- What a package that `Load` returns is.
use mathlib.Core.Path.{subst}
use trajectory_irmrd.Base.{
  ◌≡◌, refl, sym, ap, ◌∙◌, inl, inr, true, Bool-cases, Option, none, some, List, [], ◌∷◌, arith,
  All, Str, str, str_eq, nat_eq, option_eq, Fields, ℤ, get, get_text, Result, ok, err, and_then,
  and_then-eq-ok, Env,
}
use trajectory_irmrd.Nodes.{payload_hash, node_id}
use trajectory_irmrd.Tir.{
  at_key, as_payload, as_int, as_step_n, as_verification, expected_id, verify_node_record,
  verify_all, is_decision, seal_fields, seal_of, seals_from_nodes,
}
use trajectory_irmrd.Tir.Load.Checks.{find_seal, check_found, check_seals}

-- The fields of a record hash to its id.
pub record IsGenuine (E : Env) (rec : Fields) : Type 0 where
  pub payload : Fields
  pub is_payload : as_payload (at_key (str "payload") rec) ≡ ok payload
  pub hash : Str
  pub is_hash : payload_hash E (some payload) ≡ ok hash
  pub step_n : Option ℤ
  pub is_step : as_step_n E (at_key (str "step_n") rec) ≡ ok step_n
  pub seq : ℤ
  pub is_seq : as_int E (at_key (str "seq") rec) ≡ ok seq
  pub is_id :
      node_id E
        (get_text (str "tenant_id") rec)
        (get_text (str "trajectory_id") rec)
        step_n
        seq
        (get_text (str "kind") rec)
        hash
      ≡ ok (get_text (str "id") rec)

pub as_verification-eq-ok :
    {A : Type 0} (r : Result A) {a : A} → as_verification r ≡ ok a → r ≡ ok a
as_verification-eq-ok (ok b) h = h
as_verification-eq-ok (err e) h = cc

seal_texts :
    (n : Fields) (hash : Str) (seq : ℤ)
    → (get_text (str "node_id") (seal_fields n hash seq) ≡ get_text (str "id") n)
      × (get_text (str "content_hash") (seal_fields n hash seq) ≡ hash)
unfolding seal_fields get_text get str_eq
seal_texts n hash seq = (refl, refl)

found_checked :
    (wanted : Fields) (o : Option Fields)
    → check_found wanted o ≡ ok tt
    → (got : Fields) × (o ≡ some got)
      × (get_text (str "content_hash") got ≡ get_text (str "content_hash") wanted)
found_checked wanted none h = cc
found_checked wanted (some got) h = (got, refl, ground arith)

module _ (E : Env) where
  pub verify_node_record-IsGenuine :
      (rec : Fields) → verify_node_record E rec ≡ ok tt → IsGenuine E rec
  unfolding verify_node_record expected_id
  verify_node_record-IsGenuine rec h =
      let ((ph, id), e, checked) = and_then-eq-ok (as_verification (expected_id E rec)) _ h in
      let (payload, is_payload, e1) =
        and_then-eq-ok (as_payload (at_key (str "payload") rec)) _
          (as_verification-eq-ok (expected_id E rec) e) in
      let (hash, is_hash, e2) = and_then-eq-ok (payload_hash E (some payload)) _ e1 in
      let (step_n, is_step, e3) = and_then-eq-ok (as_step_n E (at_key (str "step_n") rec)) _ e2 in
      let (seq, is_seq, e4) = and_then-eq-ok (as_int E (at_key (str "seq") rec)) _ e3 in
      let (found, is_found, e5) =
        and_then-eq-ok
          (node_id E (get_text (str "tenant_id") rec) (get_text (str "trajectory_id") rec) step_n
            seq (get_text (str "kind") rec) hash)
          _ e4 in
      let pair : (hash, found) ≡ (ph, id) = cc in
      let same : found ≡ id = ap (λ (p : Str × Str). p.1) pair in
      let equal : get_text (str "id") rec ≡ id = ground (arith, checked) in
      record {
        payload = payload;
        is_payload = is_payload;
        hash = hash;
        is_hash = is_hash;
        step_n = step_n;
        is_step = is_step;
        seq = seq;
        is_seq = is_seq;
        is_id = is_found ∙ ap ok (same ∙ sym equal);
      }

  pub verify_all-IsGenuine :
      (nodes : List Fields) → verify_all E nodes ≡ ok tt → All (IsGenuine E) nodes
  unfolding verify_all
  verify_all-IsGenuine [] h = tt
  verify_all-IsGenuine (n ∷ nodes) h =
      let (u, first, rest) = and_then-eq-ok (verify_node_record E n) _ h in
      (verify_node_record-IsGenuine n first, verify_all-IsGenuine nodes rest)

  -- A DECISION has a seal under its id, with the hash of its payload.
  pub record IsSealed (seals : List Fields) (n : Fields) : Type 0 where
    pub seal : Fields
    pub found : find_seal (get_text (str "id") n) seals ≡ some seal
    pub payload : Fields
    pub is_payload : as_payload (at_key (str "payload") n) ≡ ok payload
    pub is_hash : payload_hash E (some payload) ≡ ok (get_text (str "content_hash") seal)

  abbrev pub SealedIfDecision : List Fields → Fields → Type 0
  SealedIfDecision seals n = is_decision n ≡ true → IsSealed seals n

  seal_checked :
      (seals : List Fields) (n wanted : Fields)
      → seal_of E n ≡ ok wanted
      → check_found wanted (find_seal (get_text (str "node_id") wanted) seals) ≡ ok tt
      → IsSealed seals n
  unfolding seal_of
  seal_checked seals n wanted made checked =
      let (payload, is_payload, e1) =
        and_then-eq-ok (as_payload (at_key (str "payload") n)) _ made in
      let (hash, is_hash, e2) = and_then-eq-ok (payload_hash E (some payload)) _ e1 in
      let (seq, is_seq, e3) = and_then-eq-ok (as_int E (at_key (str "seq") n)) _ e2 in
      let fields = seal_texts n hash seq in
      let shape : wanted ≡ seal_fields n hash seq = cc in
      let found =
        found_checked wanted (find_seal (get_text (str "node_id") wanted) seals) checked in
      record {
        seal = found.0;
        found =
            ap (λ id. find_seal id seals) (sym fields.0 ∙ ap (get_text (str "node_id")) (sym shape))
            ∙ found.1;
        payload = payload;
        is_payload = is_payload;
        is_hash =
            is_hash
            ∙ ap ok (sym fields.1 ∙ ap (get_text (str "content_hash")) (sym shape) ∙ sym found.2);
      }

  pub check_seals-Sealed :
      (seals nodes expected : List Fields)
      → seals_from_nodes E nodes ≡ ok expected
      → check_seals seals expected ≡ ok tt
      → All (SealedIfDecision seals) nodes
  unfolding seals_from_nodes check_seals
  check_seals-Sealed seals [] expected made checked = tt
  check_seals-Sealed seals (n ∷ nodes) expected made checked = elim (Bool-cases (is_decision n)) [
    | inl decision ↦
        let made' : and_then (seal_of E n)
              (λ s. and_then (seals_from_nodes E nodes) (λ more. ok (s ∷ more)))
            ≡ ok expected =
          ground (arith, decision, made) in
        let (s, made_s, e1) = and_then-eq-ok (seal_of E n) _ made' in
        let (more, made_more, e2) = and_then-eq-ok (seals_from_nodes E nodes) _ e1 in
        let shape : expected ≡ s ∷ more = cc in
        let checked' : check_seals seals (s ∷ more) ≡ ok tt =
          subst (λ l. check_seals seals l ≡ ok tt) shape checked in
        let (u, c1, c2) =
          and_then-eq-ok (check_found s (find_seal (get_text (str "node_id") s) seals)) _
            checked' in
        ((λ d. seal_checked seals n s made_s c1), check_seals-Sealed seals nodes more made_more c2)
    | inr other ↦
        let made' : seals_from_nodes E nodes ≡ ok expected = ground (arith, other, made) in
        ((λ d. cc), check_seals-Sealed seals nodes expected made' checked)
  ]
