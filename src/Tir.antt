-- ===== src/Tir.antt =====
-- Trajectory packages, go/trajir/tir/tir.go: names of zip members, the verification of a node record,
-- and seals. The modules below are the archive and its limits, loading, import, export and signatures.
pub mod Archive
pub mod Signature
pub mod Replace
pub mod Load
pub mod Import
pub mod Export
mod Tests
use trajectory_irmrd.Base.{
  ℕ, zero, suc, ◌*◌, Bool, true, false, ◌&&◌, ◌||◌, not, Option, none, some, List, [], ◌∷◌, ◌++◌,
  map, if◌then◌else◌, ◌==◌, any, Str, str, str_eq, nat_eq, has_prefix, ℤ, Value, null, int, float,
  text, obj, Fields, end, field, get, get_text, or_null, as_text, Error, Result, ok, err, and_then,
  not_int, not_object, tir_verification, tir_unsafe_path, Env,
}
use trajectory_irmrd.Nodes.{payload_hash, node_id}

abbrev pub max_zip_entries : ℕ
max_zip_entries = 10_000

abbrev pub max_uncompressed_entry_bytes : ℕ
max_uncompressed_entry_bytes = 32 * 1024 * 1024

abbrev pub max_total_uncompressed_bytes : ℕ
max_total_uncompressed_bytes = 128 * 1024 * 1024

abbrev pub max_nodes : ℕ
max_nodes = 100_000

abbrev pub max_artifacts : ℕ
max_artifacts = 10_000

abbrev pub mode_thin : Str
mode_thin = str "thin"

abbrev pub mode_fat : Str
mode_fat = str "fat"

abbrev pub required_members : List Str
required_members =
    str "manifest.json"
    ∷ str "nodes.ndjson"
    ∷ str "seals.json"
    ∷ str "artifacts-manifest.json"
    ∷ str "COMPAT.json"
    ∷ []

abbrev pub extend_first : ℕ → List Str → List Str
extend_first c [] = (c ∷ []) ∷ []
extend_first c (p ∷ parts) = (c ∷ p) ∷ parts

-- `strings.Split` at one byte.
unfoldable pub split_on : ℕ → Str → List Str
unfolding nat_eq
split_on d [] = [] ∷ []
split_on d (c ∷ s) = let rest = split_on d s in if c == d then [] ∷ rest else extend_first c rest

-- `strings.ReplaceAll(name, "\\", "/")`
unfoldable pub to_slashes : Str → Str
unfolding nat_eq
to_slashes s = map (λ c. if c == 92 then b'/' else c) s

abbrev pub is_first_empty : List Str → Bool
is_first_empty ([] ∷ parts) = true
is_first_empty _ = false

unfoldable pub safe_zip_name : Str → Result (Unit {0})
unfolding split_on to_slashes
safe_zip_name name =
    let parts = split_on b'/' (to_slashes name) in
    if name == [] || has_prefix name (str "/") || has_prefix name (92 ∷ [])
    then err tir_unsafe_path
    else if is_first_empty parts
    then err tir_unsafe_path
    else if any (λ p. p == str "..") parts
    then err tir_unsafe_path
    else if has_prefix name (str "artifacts/")
        && not (name == str "artifacts/")
        && not (has_prefix name (str "artifacts/cas/"))
    then err tir_verification
    else ok tt

-- `fmt.Errorf("%w: ...", ErrVerification, ...)`
abbrev pub as_verification {ℓ} : {A : Type ℓ} → Result A → Result A
as_verification (ok a) = ok a
as_verification (err e) = err tir_verification

abbrev pub as_payload : Value → Result Fields
as_payload null = ok end
as_payload (obj m) = ok m
as_payload _ = err not_object

-- `rec[k]` where a missing key reads as nil.
abbrev pub at_key : Str → Fields → Value
at_key k m = or_null (get k m)

-- A recorded payload hash that is a text, is not empty and differs.
unfoldable pub wrong_payload_hash : Fields → Str → Bool
wrong_payload_hash rec ph =
    let s = get_text (str "payload_hash") rec in not (s == []) && not (s == ph)

unfoldable pub is_decision : Fields → Bool
is_decision n = get_text (str "kind") n == str "DECISION"

unfoldable pub seal_fields : Fields → Str → ℤ → Fields
seal_fields n ph seq = field (str "type") (text (str "DECISION_SEAL")) (
    field (str "node_id") (text (get_text (str "id") n)) (
      field (str "step_n") (at_key (str "step_n") n)
        (field (str "seq") (int seq) (field (str "content_hash") (text ph) end))))

module _ (E : Env) where
  -- An integer of a decoded record: a number is a float64 there.
  unfoldable pub as_int : Value → Result ℤ
  as_int (int n) = ok n
  as_int (float x) = ok (E.float_to_int x)
  as_int _ = err not_int

  unfoldable pub as_step_n : Value → Result (Option ℤ)
  as_step_n null = ok none
  as_step_n v = and_then (as_int v) (λ n. ok (some n))

  -- The hash and the id that the fields of a record give.
  unfoldable pub expected_id : Fields → Result (Str × Str)
  expected_id rec = and_then (as_payload (at_key (str "payload") rec)) (λ payload.
      and_then (payload_hash E (some payload)) (λ ph.
        and_then (as_step_n (at_key (str "step_n") rec)) (λ step_n.
          and_then (as_int (at_key (str "seq") rec)) (λ seq.
            and_then
              (node_id E (get_text (str "tenant_id") rec) (get_text (str "trajectory_id") rec)
                step_n seq (get_text (str "kind") rec) ph)
              (λ id. ok (ph, id))))))

  unfoldable pub verify_node_record : Fields → Result (Unit {0})
  verify_node_record rec = and_then (as_verification (expected_id rec)) (λ p.
      if not (get_text (str "id") rec == p.1)
      then err tir_verification
      else if wrong_payload_hash rec p.0
      then err tir_verification
      else ok tt)

  -- A loop that stops at the first error.
  unfoldable pub verify_all : List Fields → Result (Unit {0})
  verify_all [] = ok tt
  verify_all (n ∷ nodes) = and_then (verify_node_record n) (λ _. verify_all nodes)

  unfoldable pub seal_of : Fields → Result Fields
  unfolding seal_fields
  seal_of n = and_then (as_payload (at_key (str "payload") n)) (λ payload.
      and_then (payload_hash E (some payload))
        (λ ph. and_then (as_int (at_key (str "seq") n)) (λ seq. ok (seal_fields n ph seq))))

  -- A seal for each DECISION.
  unfoldable pub seals_from_nodes : List Fields → Result (List Fields)
  seals_from_nodes [] = ok []
  seals_from_nodes (n ∷ nodes) =
      let rest = seals_from_nodes nodes in
      if is_decision n
      then and_then (seal_of n) (λ s. and_then rest (λ seals. ok (s ∷ seals)))
      else rest
