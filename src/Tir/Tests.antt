-- ===== src/Tir/Tests.antt =====
-- The theorems on packages at concrete archives.
use trajectory_irmrd.Base.Space.{trim_space, to_lower}
use trajectory_irmrd.Base.{
  ltb, sym, ◌∙◌, ℕ, zero, suc, ap, arith, ◌≡◌, refl, true, false, Option, none, some, List, [], ◌∷◌,
  ◌++◌, map, if◌then◌else◌, ◌==◌, All, Str, str, str_eq, nat_eq, sort_by, lt_str, float, text, obj,
  null, arr, nil, cons, Value, Fields, field, end, get, get_text, ok, Env, itoa, option_eq, int_eq,
  ◌>>=◌, has_prefix, has_suffix, contains_any,
}
use trajectory_irmrd.Nodes.{
  payload_hash, node_id, new_node, validate_id_component, preimage, step_text, known_kind,
}
use trajectory_irmrd.Nodes.Utf8.{valid_utf8}
use trajectory_irmrd.Samples.{calm, empty_db, run_id, tenant}
use trajectory_irmrd.Tir.{
  safe_zip_name, split_on, to_slashes, as_int, as_step_n, expected_id, verify_node_record,
  verify_all, seals_from_nodes, seal_of, seal_fields, is_decision, wrong_payload_hash,
}
use trajectory_irmrd.Tir.Archive.{Member, index_members, find_member, read_member, read_named}
use trajectory_irmrd.Tir.Signature.{
  Crypto, Members, SignatureDocument, SignatureInfo, SignerMeta, no_policy, hex, hex_digit, by_name,
  signature_member_name, scheme_v1, payload_alg_v1, alg_ed25519, stream, check_names,
  payload_hash_from_members, document_of, sign_members, verify_signature_bytes, verify_document,
  check_scheme, check_signature, check_key_id, check_trust, key_id, is_trusted, verify_files,
  collect_zip_members, collect_from, verify_from_members, file_of,
}
use trajectory_irmrd.Tir.Signature.Stream.{digest_of}
use trajectory_irmrd.Tir.Signature.Binding.{covered, IsSound, signature_binds_members, verify-sign}
use trajectory_irmrd.Tir.Load.{
  Package, load, load_impl, load_files, has_required, read_contents, read_object, read_objects,
  read_nodes, decode_object, decode_objects, decode_lines, read_artifacts, store_artifact,
  check_artifact, is_hex, is_hex_byte, base_name, is_artifact_name, put_bytes, check_package,
  check_signed,
}
use trajectory_irmrd.Tir.Load.Checks.{check_contents, check_seals, find_seal, mode_of, check_mode}
use trajectory_irmrd.Tir.Load.Artifacts.{IsAddressed}
use trajectory_irmrd.Tir.Load.Accepted.{IsChecked, load-IsChecked, load_impl-IsAddressed}
use trajectory_irmrd.Tir.Load.Signed.{load_impl-signed}
use trajectory_irmrd.Tir.Import.{import_package, import_nodes, import_node, store_rebuilt}
use trajectory_irmrd.Tir.Import.Complete.{AllHeld, import_package_complete}
use trajectory_irmrd.Tir.Replace.{Files, ZipFormat, sign_path}
use trajectory_irmrd.Tir.Replace.Safe.{Signed, sign_path-Signed}
use trajectory_irmrd.Log.AppendOnly.{IsGrown}
use trajectory_irmrd.Log.{
  append, store_node, slot_eq, conflicts, step_key, row_of, slot_owner, insert_or_ignore, owner_in,
  statement,
}

-- A payload hash and an id are the letter `a` and the text that they hash.
abbrev node_record : Fields
node_record = field (str "id") (text (str "aacme|run|None|1|DECISION|a{}")) (
    field (str "trajectory_id") (text run_id) (
      field (str "tenant_id") (text tenant) (
        field (str "seq") (float 1) (
          field (str "kind") (text (str "DECISION"))
            (field (str "payload") (obj end) (field (str "step_n") null end))))))

abbrev seal_record : Fields
seal_record =
    field (str "node_id") (text (str "aacme|run|None|1|DECISION|a{}"))
      (field (str "content_hash") (text (str "a{}")) end)

abbrev parsed : Str → Option Value
parsed s =
    if s == str "node"
    then some (obj node_record)
    else if s == str "seals"
    then some (arr (cons (obj seal_record) nil))
    else if s == str "none"
    then some (arr nil)
    else some (obj end)

abbrev packing : Env
packing = record calm { unmarshal = parsed; sha256_hex = λ s. 97 ∷ s }

abbrev member : Str → Str → Member
member name body = file_of (name, body)

abbrev archive : List Member
archive =
    member (str "manifest.json") (str "manifest")
    ∷ member (str "COMPAT.json") (str "compat")
    ∷ member (str "seals.json") (str "seals")
    ∷ member (str "artifacts-manifest.json") (str "none")
    ∷ member (str "nodes.ndjson") (str "node" ++ 10 ∷ [])
    ∷ []

-- `n` bytes of one value.
abbrev fill : ℕ → ℕ → Str
fill zero c = []
fill (suc n) c = c ∷ fill n c

abbrev without_last : Str → Str
without_last [] = []
without_last (c ∷ []) = []
without_last (c ∷ d ∷ s) = c ∷ without_last (d ∷ s)

without_last-append : (s : Str) (c : ℕ) → without_last (s ++ c ∷ []) ≡ s
without_last-append [] c = refl
without_last-append (a ∷ []) c = refl
without_last-append (a ∷ b ∷ s) c = ap (λ t. a ∷ t) (without_last-append (b ∷ s) c)

abbrev document_with : Str → SignatureDocument
document_with payload_hash = record {
  scheme = scheme_v1;
  payload_alg = payload_alg_v1;
  payload_hash = payload_hash;
  alg = alg_ed25519;
  public_key = fill 32 0;
  signature = fill 64 0;
  signed_at = str "2024-01-01T00:00:00Z";
  signer_id = str "ci";
  signer_key_id = fill 16 48;
}

-- One key, one hash and one signature; a document is written as its payload hash.
abbrev one_key : Crypto
one_key = record {
  sha256 = λ s. fill 32 0;
  public_of = λ k. fill 32 0;
  ed25519_sign = λ k m. fill 64 0;
  ed25519_verify = λ k m s. true;
  base64_encode = λ s. s;
  base64_decode = λ s. some s;
  encode_document = λ d. some d.payload_hash;
  decode_document = λ s. some (document_with (without_last s));
}

abbrev signer : SignerMeta
signer = record { id = str "ci"; signed_at = str "2024-01-01T00:00:00Z" }

one_key-IsSound : IsSound one_key (fill 64 0) signer
unfolding document_of key_id hex hex_digit
one_key-IsSound = record {
  hash_bytes = λ s. ground arith;
  key_size = refl;
  signature_size = λ m. refl;
  verifies = λ m. refl;
  base64_inverse = λ s. refl;
  document_inverse = λ h raw e.
      let same : hex h ≡ raw = cc in
      ap (λ t. some (document_with (without_last (t ++ 10 ∷ [])))) (sym same)
      ∙ ap (λ t. some (document_with t)) (without_last-append (hex h) 10);
}

abbrev two_members : Members
two_members = (str "b", str "2") ∷ (str "a", str "1") ∷ []

verify-sign_example :
    (info : SignatureInfo) × (verify_signature_bytes one_key two_members
        (hex (fill 32 0) ++ 10 ∷ [])
        no_policy
      ≡ ok info)
    × (info.public_key ≡ fill 32 0)
    × (info.signer_id ≡ str "ci")
unfolding sign_members payload_hash_from_members check_names safe_zip_name split_on to_slashes
    has_prefix str_eq nat_eq by_name lt_str stream document_of hex hex_digit
verify-sign_example = verify-sign one_key (fill 64 0) signer two_members one_key-IsSound refl

abbrev loaded : Package
loaded = record {
  manifest = end;
  nodes = node_record ∷ [];
  seals = seal_record ∷ [];
  artifacts_manifest = [];
  artifact_bytes = [];
  signature = none;
}

load-IsChecked_example : IsChecked packing loaded
unfolding load load_impl load_files index_members safe_zip_name split_on to_slashes has_prefix
    has_suffix str_eq nat_eq find_member has_required read_contents read_object read_objects
    read_nodes read_named read_member decode_object decode_objects decode_lines read_artifacts
    is_artifact_name check_package check_contents check_signed verify_all verify_node_record
    expected_id as_step_n as_int payload_hash node_id seals_from_nodes is_decision seal_of
    seal_fields check_seals find_seal mode_of check_mode option_eq wrong_payload_hash trim_space get
    validate_id_component get_text valid_utf8 contains_any preimage itoa
load-IsChecked_example = load-IsChecked packing one_key (some archive) refl

-- The archive with an artifact of 63 bytes, whose hash is 64 letters `a`.
abbrev fat_archive : List Member
fat_archive = archive ++ member (str "artifacts/cas/aa/" ++ fill 64 97) (fill 63 97) ∷ []

load_impl-IsAddressed_example : All (IsAddressed packing) ((fill 64 97, fill 63 97) ∷ [])
unfolding load load_impl load_files index_members safe_zip_name split_on to_slashes has_prefix
    has_suffix str_eq nat_eq find_member has_required read_contents read_object read_objects
    read_nodes read_named read_member decode_object decode_objects decode_lines read_artifacts
    is_artifact_name check_package check_contents check_signed verify_all verify_node_record
    expected_id as_step_n as_int payload_hash node_id seals_from_nodes is_decision seal_of
    seal_fields check_seals find_seal mode_of check_mode option_eq wrong_payload_hash trim_space get
    validate_id_component get_text valid_utf8 contains_any preimage itoa store_artifact
    check_artifact is_hex is_hex_byte base_name put_bytes
load_impl-IsAddressed_example =
    load_impl-IsAddressed packing one_key false (some fat_archive)
      {p = record loaded { artifact_bytes = (fill 64 97, fill 63 97) ∷ [] }} refl

-- The archive with the signature that stands for its hash.
abbrev signed_archive : List Member
signed_archive = archive ++ member signature_member_name (hex (fill 32 0) ++ 10 ∷ []) ∷ []

abbrev signed_info : SignatureInfo
signed_info = record {
  document = document_with (hex (fill 32 0));
  payload_hash = fill 32 0;
  public_key = fill 32 0;
  key_id = fill 16 48;
  signer_id = str "ci";
}

load_impl-signed_example :
    (info : SignatureInfo) × (some signed_info ≡ some info)
    × (verify_files one_key signed_archive no_policy ≡ ok (some info))
unfolding load load_impl load_files index_members safe_zip_name split_on to_slashes has_prefix
    has_suffix str_eq nat_eq find_member has_required read_contents read_object read_objects
    read_nodes read_named read_member decode_object decode_objects decode_lines read_artifacts
    is_artifact_name check_package check_contents check_signed verify_all verify_node_record
    expected_id as_step_n as_int payload_hash node_id seals_from_nodes is_decision seal_of
    seal_fields check_seals find_seal mode_of check_mode option_eq wrong_payload_hash trim_space get
    validate_id_component get_text valid_utf8 contains_any preimage itoa hex hex_digit verify_files
    collect_zip_members collect_from verify_from_members verify_signature_bytes verify_document
    check_scheme payload_hash_from_members check_names to_lower check_signature check_key_id key_id
    check_trust is_trusted
load_impl-signed_example =
    load_impl-signed packing one_key true signed_archive
      {p = record loaded { signature = some signed_info }} refl refl

same_stream :
    stream one_key (covered two_members)
    ≡ stream one_key
        (covered ((str "a", str "1") ∷ (signature_member_name, []) ∷ (str "b", str "2") ∷ []))
unfolding by_name lt_str str_eq nat_eq sort_by
same_stream = refl

-- The same members in another order, one of them the signature itself.
signature_binds_members_example :
    map (digest_of one_key) (covered two_members)
    ≡ map
        (digest_of one_key)
        (covered ((str "a", str "1") ∷ (signature_member_name, []) ∷ (str "b", str "2") ∷ []))
unfolding stream verify_signature_bytes verify_document check_scheme str_eq
    payload_hash_from_members check_names safe_zip_name has_prefix to_lower trim_space hex
    check_signature check_key_id key_id check_trust is_trusted
signature_binds_members_example =
    signature_binds_members one_key (hex (fill 32 0) ++ 10 ∷ []) two_members
      ((str "a", str "1") ∷ (signature_member_name, []) ∷ (str "b", str "2") ∷ []) no_policy
      no_policy (λ s. refl) (λ e. same_stream) (ground arith, (ground arith, tt))
      (ground arith, (ground arith, (ground arith, tt))) refl refl

import_package_complete_example :
    IsGrown [] (import_package packing one_key (some archive) empty_db).1
    × AllHeld (import_package packing one_key (some archive) empty_db).1 (node_record ∷ [])
unfolding import_package import_nodes import_node store_rebuilt ◌>>=◌ append store_node slot_owner
    new_node slot_eq conflicts known_kind step_key step_text insert_or_ignore owner_in statement
    row_of int_eq load load_impl load_files index_members safe_zip_name split_on to_slashes
    has_prefix has_suffix str_eq nat_eq find_member has_required read_contents read_object
    read_objects read_nodes read_named read_member decode_object decode_objects decode_lines
    read_artifacts is_artifact_name check_package check_contents check_signed verify_all
    verify_node_record expected_id as_step_n as_int payload_hash node_id seals_from_nodes
    is_decision seal_of seal_fields check_seals find_seal mode_of check_mode option_eq
    wrong_payload_hash trim_space get validate_id_component get_text valid_utf8 contains_any
    preimage itoa
import_package_complete_example =
    import_package_complete packing one_key (some archive) empty_db {p = loaded} (λ s e. cc) tt tt
      refl

-- A file system on which the first three operations work and the later ones fail.
abbrev failing : Env
failing = record packing { io_fails = λ n. ltb 2 n }

abbrev one_archive : ZipFormat
one_archive = record { unzip = λ s. some archive; zip = λ members. str "signed" }

abbrev unsigned : Files
unsigned = record {
  temporary_file = none;
  target_file = some (str "unsigned");
  backup_file = none;
  clock = 0;
}

sign_path-Signed_example :
    Signed one_key one_archive
      (fill 64 0)
      signer
      (str "unsigned")
      (sign_path failing one_key one_archive (fill 64 0) signer unsigned)
sign_path-Signed_example =
    sign_path-Signed failing one_key one_archive (fill 64 0) signer (str "unsigned") unsigned refl
