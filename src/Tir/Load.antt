-- ===== src/Tir/Load.antt =====
-- Loading a package, go/trajir/tir/tir.go: the members of the archive are decoded, then checked.
pub mod Checks
pub mod Verified
pub mod Artifacts
pub mod Accepted
pub mod Signed
use trajectory_irmrd.Base.{
  ℕ, suc, ◌+◌, Bool, true, false, ◌&&◌, ◌||◌, not, Option, none, some, List, [], ◌∷◌, if◌then◌else◌,
  ◌==◌, leb, ltb, length, Str, str, str_eq, nat_eq, has_prefix, Value, null, arr, Items,
  items_to_list, Fields, Result, ok, err, and_then, or_fail, tir_failed, tir_limit,
  tir_verification, Env,
}
use trajectory_irmrd.Base.Space.{trim_space}
use trajectory_irmrd.Log.{decoded_map}
use trajectory_irmrd.Tir.{required_members, max_zip_entries, max_artifacts, max_nodes, split_on}
use trajectory_irmrd.Tir.Archive.{
  Member, is_directory_name, find_member, is_member, index_members, read_member, read_named,
}
use trajectory_irmrd.Tir.Signature.{
  Crypto, SignatureInfo, signature_member_name, no_policy, verify_files,
}
use trajectory_irmrd.Tir.Load.Checks.{check_contents}

-- A loaded package.
pub record Package : Type 0 where
  pub manifest : Fields
  pub nodes : List Fields
  pub seals : List Fields
  pub artifacts_manifest : List Fields
  pub artifact_bytes : List (Str × Str)
  pub signature : Option SignatureInfo

unfoldable pub has_required : List Str → List Member → Bool
has_required [] members = true
has_required (name ∷ names) members =
    is_member (find_member name members) && has_required names members

unfoldable pub is_hex_byte : ℕ → Bool
is_hex_byte c =
    (leb b'0' c && leb c b'9') || (leb b'a' c && leb c b'f') || (leb b'A' c && leb c b'F')

unfoldable pub is_hex : Str → Bool
is_hex [] = true
is_hex (c ∷ s) = is_hex_byte c && is_hex s

abbrev pub last_or_empty : List Str → Str
last_or_empty [] = []
last_or_empty (s ∷ []) = s
last_or_empty (s ∷ t ∷ parts) = last_or_empty (t ∷ parts)

-- `filepath.Base` of a name that does not end in a slash, where the separator is a slash.
unfoldable pub base_name : Str → Str
base_name name = last_or_empty (split_on b'/' name)

unfoldable pub is_artifact_name : Str → Bool
is_artifact_name name = has_prefix name (str "artifacts/cas/") && not (is_directory_name name)

-- `artifactBytes[h] = data`
unfoldable pub put_bytes : Str → Str → List (Str × Str) → List (Str × Str)
put_bytes h bytes [] = (h, bytes) ∷ []
put_bytes h bytes (a ∷ artifacts) =
    if h == a.0 then (h, bytes) ∷ artifacts else a ∷ put_bytes h bytes artifacts

abbrev pub decoded_maps : List Value → Result (List Fields)
decoded_maps [] = ok []
decoded_maps (v ∷ vs) =
    and_then (decoded_map v) (λ m. and_then (decoded_maps vs) (λ ms. ok (m ∷ ms)))

-- A JSON value as `[]map[string]any`.
abbrev pub decoded_list : Value → Result (List Fields)
decoded_list null = ok []
decoded_list (arr items) = decoded_maps (items_to_list items)
decoded_list _ = err tir_failed

-- `fmt.Errorf("%w: ...", ErrTir, ...)`
abbrev pub as_tir : {A : Type 0} → Result A → Result A
as_tir (ok a) = ok a
as_tir (err e) = err tir_failed

module _ (E : Env) where
  unfoldable pub decode_object : Str → Result Fields
  decode_object raw = as_tir (and_then (or_fail tir_failed (E.unmarshal raw)) decoded_map)

  unfoldable pub decode_objects : Str → Result (List Fields)
  decode_objects raw = as_tir (and_then (or_fail tir_failed (E.unmarshal raw)) decoded_list)

  -- The lines of nodes.ndjson, `n` records behind it.
  unfoldable pub decode_lines : ℕ → List Str → Result (List Fields)
  unfolding decode_object
  decode_lines n [] = ok []
  decode_lines n (line ∷ lines) =
      let rest = decode_lines (suc n) lines in
      let same = decode_lines n lines in
      if trim_space line == []
      then same
      else and_then (decode_object (trim_space line)) (λ rec.
        if ltb max_nodes (suc n) then err tir_limit else and_then rest (λ nodes. ok (rec ∷ nodes)))

  -- The bytes of an artifact under the name that its member gives.
  unfoldable pub check_artifact : Str → Str → Result (Unit {0})
  unfolding nat_eq
  check_artifact h bytes =
      if not (length h == 64) || not (is_hex h)
      then err tir_verification
      else if not (E.sha256_hex bytes == h)
      then err tir_verification
      else ok tt

  -- One round of the loop: the artifacts so far, and the bytes read so far.
  unfoldable pub store_artifact : ℕ → List (Str × Str) → Member → Result (List (Str × Str) × ℕ)
  unfolding check_artifact
  store_artifact used found m = and_then (read_member used m) (λ r.
      and_then (check_artifact (base_name m.name) r.0) (λ _.
        if ltb max_artifacts (length (put_bytes (base_name m.name) r.0 found))
        then err tir_limit
        else ok (put_bytes (base_name m.name) r.0 found, r.1)))

  -- The loop over the members of artifacts/cas/.
  unfoldable pub read_artifacts : ℕ → List (Str × Str) → List Member → Result (List (Str × Str))
  unfolding store_artifact
  read_artifacts used found [] = ok found
  read_artifacts used found (m ∷ members) =
      if not (is_artifact_name m.name)
      then read_artifacts used found members
      else and_then (store_artifact used found m) (λ r. read_artifacts r.1 r.0 members)

  unfoldable pub read_object : ℕ → Str → List Member → Result (Fields × ℕ)
  unfolding decode_object
  read_object used name members =
      and_then (read_named used name members) (λ r. and_then (decode_object r.0) (λ m. ok (m, r.1)))

  unfoldable pub read_objects : ℕ → Str → List Member → Result (List Fields × ℕ)
  unfolding decode_objects
  read_objects used name members =
      and_then (read_named used name members)
        (λ r. and_then (decode_objects r.0) (λ ms. ok (ms, r.1)))

  unfoldable pub read_nodes : ℕ → List Member → Result (List Fields × ℕ)
  unfolding decode_lines
  read_nodes used members =
      and_then (read_named used (str "nodes.ndjson") members)
        (λ r. and_then (decode_lines 0 (split_on 10 r.0)) (λ nodes. ok (nodes, r.1)))

  -- The members that every package has, then the artifacts, none of it checked yet.
  unfoldable pub read_contents : List Member → List Member → Result Package
  unfolding read_object read_objects read_nodes read_artifacts
  read_contents files members = and_then (read_object 0 (str "manifest.json") members) (λ manifest.
      and_then (read_objects manifest.1 (str "seals.json") members) (λ seals.
        and_then (read_objects seals.1 (str "artifacts-manifest.json") members) (λ entries.
          if ltb max_artifacts (length entries.0)
          then err tir_limit
          else and_then (read_named entries.1 (str "COMPAT.json") members) (λ compat.
            and_then (read_nodes compat.1 members) (λ nodes.
              and_then (read_artifacts nodes.1 [] files) (λ artifacts. ok (record {
                manifest = manifest.0;
                nodes = nodes.0;
                seals = seals.0;
                artifacts_manifest = entries.0;
                artifact_bytes = artifacts;
                signature = none;
              })))))))

  unfoldable pub check_package : Bool → Package → Result (Unit {0})
  check_package false p = ok tt
  check_package true p =
      check_contents E p.manifest p.nodes p.seals p.artifacts_manifest p.artifact_bytes

module _ (E : Env) (C : Crypto) where
  -- A SIGNATURE member must verify, whoever signed.
  unfoldable pub check_signed : List Member → List Member → Result (Option SignatureInfo)
  check_signed files members =
      if is_member (find_member signature_member_name members)
      then verify_files C files no_policy
      else ok none

  unfoldable pub load_files : Bool → List Member → Result Package
  unfolding check_signed
  load_files verify files =
      if ltb max_zip_entries (length files)
      then err tir_limit
      else and_then (index_members [] files) (λ members.
        if not (has_required required_members members)
        then err tir_failed
        else and_then (read_contents E files members) (λ p.
          and_then (check_package E verify p) (λ _.
            and_then (check_signed files members) (λ info. ok (record p { signature = info })))))

  -- `loadImpl`: `none` where there is no such file or it is no zip archive.
  unfoldable pub load_impl : Bool → Option (List Member) → Result Package
  unfolding load_files
  load_impl verify none = err tir_failed
  load_impl verify (some files) = load_files verify files

  unfoldable pub load : Option (List Member) → Result Package
  unfolding load_impl
  load = load_impl true

  unfoldable pub load_unverified : Option (List Member) → Result Package
  unfolding load_impl
  load_unverified = load_impl false
