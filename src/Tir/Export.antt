-- ===== src/Tir/Export.antt =====
-- `Export`, go/trajir/tir/tir.go, up to the members of the archive: the nodes of a trajectory are
-- listed from a SQLite log and checked, and the members are encoded. The creation of the file is not
-- modelled; signing it afterwards is `sign_path`.
pub mod Checked
pub mod Reload
pub mod Distinct
pub mod Contents
pub mod Consistent
mod Tests
use trajectory_irmrd.Base.{
  ℕ, Bool, true, false, ◌&&◌, ◌||◌, not, Option, none, some, List, [], ◌∷◌, ◌++◌, map,
  if◌then◌else◌, ◌==◌, ltb, length, Str, str, str_eq, nat_eq, ℤ, pos, Value, null, bool, int, text,
  slice, obj, list_to_items, Fields, field, end, get_text, Result, ok, err, and_then, or_fail,
  json_marshal, tir_failed, tir_limit, tir_verification, tir_signature, Action, lift, ◌>>=◌, ◌>>◌,
  Env,
}
use trajectory_irmrd.Log.{Db, list_nodes, list_nodes_all_tenants}
use trajectory_irmrd.Tir.{
  mode_thin, mode_fat, max_artifacts, max_uncompressed_entry_bytes, verify_node_record,
  seals_from_nodes,
}
use trajectory_irmrd.Tir.Signature.{SignerMeta}
use trajectory_irmrd.Tir.Load.{put_bytes}

pub record ArtifactRef : Type 0 where
  pub logical_path : Str
  pub content_hash : Str
  pub uri : Option Str
  pub size : Option ℤ

-- A tenant that is not set is `none`; the key that signs the file afterwards is empty where none is
-- given. The key and its metadata are only used by `sign_path`.
pub record ExportOptions : Type 0 where
  pub mode : Str
  pub tenant_id : Option Str
  pub artifacts : List ArtifactRef
  pub artifact_bytes : List (Str × Str)
  pub sign_key : Str
  pub signer_meta : SignerMeta

unfoldable pub find_bytes : Str → List (Str × Str) → Option Str
find_bytes h [] = none
find_bytes h (a ∷ artifacts) = if h == a.0 then some a.1 else find_bytes h artifacts

unfoldable pub export_mode : Str → Result Str
export_mode mode =
    if mode == []
    then ok mode_thin
    else if mode == mode_thin || mode == mode_fat
    then ok mode
    else err tir_failed

unfoldable pub check_sign_key : Str → Result (Unit {0})
check_sign_key key = if length key == 0 || length key == 64 then ok tt else err tir_signature

-- The tenant of the first node.
unfoldable pub tenant_of : List Fields → Result Str
tenant_of [] = err tir_failed
tenant_of (n ∷ nodes) = ok (get_text (str "tenant_id") n)

abbrev pub value_or_null : {A : Type 0} → (A → Value) → Option A → Value
value_or_null f none = null
value_or_null f (some a) = f a

-- The size of an entry: the reference's, else that of the embedded bytes.
abbrev pub entry_size : Option ℤ → Option Str → Value
entry_size (some n) bytes = int n
entry_size none none = null
entry_size none (some bytes) = int (pos (length bytes))

unfoldable pub manifest_entry : List (Str × Str) → ArtifactRef → Fields
unfolding find_bytes
manifest_entry embedded a = field (str "logical_path") (text a.logical_path) (
    field (str "content_hash") (text a.content_hash) (
      field (str "uri") (value_or_null text a.uri)
        (field (str "size") (entry_size a.size (find_bytes a.content_hash embedded)) end)))

unfoldable pub manifest_of : Str → Str → Str → ℕ → ℕ → Fields
manifest_of trajectory tenant mode node_count seal_count =
    field (str "package_format") (text (str "0.1")) (
      field (str "trajectory_id") (text trajectory) (
        field (str "tenant_id") (text tenant) (
          field (str "mode") (text mode) (
            field (str "node_count") (int (pos node_count)) (
              field (str "seal_count") (int (pos seal_count))
                (field (str "signature") null (field (str "redacted") (bool false) end)))))))

-- COMPAT
abbrev pub compat : Fields
compat = field (str "package_format") (text (str "0.1")) (
    field (str "min_runtime") (text (str "0.1.0")) (
      field (str "node_id_scheme")
        (text (str "sha256(tenant|trajectory|step|seq|kind|payload_hash)"))
        (field (str "payload_hash_scheme") (text (str "sha256(rfc8785(payload))")) end)))

abbrev pub first_two : Str → Str
first_two (a ∷ b ∷ s) = a ∷ b ∷ []
first_two s = s

-- `artifacts/cas/<shard>/<hash>`
abbrev pub artifact_member : (Str × Str) → (Str × Str)
artifact_member a = (str "artifacts/cas/" ++ (first_two a.0 ++ b'/' ∷ a.0), a.1)

abbrev pub maps_value : List Fields → Value
maps_value ms = slice (list_to_items (map obj ms))

module _ (E : Env) where
  unfoldable pub marshal_pretty : Value → Result Str
  marshal_pretty v = and_then (or_fail json_marshal (E.marshal_indent v)) (λ b. ok (b ++ 10 ∷ []))

  unfoldable pub marshal_line : Value → Result Str
  marshal_line v = and_then (or_fail json_marshal (E.marshal v)) (λ b. ok (b ++ 10 ∷ []))

  -- The loop over the nodes: of one tenant, and each under its own hash.
  unfoldable pub check_nodes : Str → List Fields → Result (Unit {0})
  check_nodes tenant [] = ok tt
  check_nodes tenant (n ∷ nodes) =
      if not (get_text (str "tenant_id") n == tenant)
      then err tir_failed
      else and_then (verify_node_record E n) (λ _. check_nodes tenant nodes)

  unfoldable pub check_bytes : Str → Option Str → Result Str
  check_bytes h none = err tir_failed
  check_bytes h (some bytes) =
      if not (E.sha256_hex bytes == h)
      then err tir_failed
      else if ltb max_uncompressed_entry_bytes (length bytes)
      then err tir_limit
      else ok bytes

  -- The loop over the references of a fat package.
  unfoldable pub embed :
      List (Str × Str) → List (Str × Str) → List ArtifactRef → Result (List (Str × Str))
  unfolding find_bytes check_bytes
  embed given embedded [] = ok embedded
  embed given embedded (a ∷ artifacts) =
      and_then (check_bytes a.content_hash (find_bytes a.content_hash given))
        (λ bytes. embed given (put_bytes a.content_hash bytes embedded) artifacts)

  unfoldable pub embedded_artifacts : Str → ExportOptions → Result (List (Str × Str))
  unfolding embed
  embedded_artifacts mode opts =
      if not (mode == mode_fat)
      then ok []
      else and_then (embed opts.artifact_bytes [] opts.artifacts) (λ embedded.
        if ltb max_artifacts (length opts.artifacts) then err tir_limit else ok embedded)

  unfoldable pub encode_nodes : List Fields → Result Str
  unfolding marshal_line
  encode_nodes [] = ok []
  encode_nodes (n ∷ nodes) =
      and_then (marshal_line (obj n))
        (λ line. and_then (encode_nodes nodes) (λ rest. ok (line ++ rest)))

  -- The members, in the order in which they are written.
  unfoldable pub encode_members :
      Fields
      → List Fields
      → List Fields
      → List Fields
      → List (Str × Str)
      → Result (List (Str × Str))
  unfolding marshal_pretty encode_nodes
  encode_members manifest seals entries nodes embedded =
      and_then (marshal_pretty (obj manifest)) (λ m. and_then (marshal_pretty (obj compat)) (λ c.
        and_then (marshal_pretty (maps_value seals)) (λ s.
          and_then (marshal_pretty (maps_value entries)) (λ a. and_then (encode_nodes nodes) (λ n.
            ok (
              (str "manifest.json", m)
              ∷ (str "COMPAT.json", c)
              ∷ (str "seals.json", s)
              ∷ (str "artifacts-manifest.json", a)
              ∷ (str "nodes.ndjson", n)
              ∷ map artifact_member embedded))))))

  -- What is done with the nodes that the log lists.
  unfoldable pub package_nodes : Str → Str → ExportOptions → List Fields → Result (List (Str × Str))
  unfolding tenant_of check_nodes embedded_artifacts encode_members manifest_of manifest_entry
  package_nodes trajectory mode opts nodes = and_then (tenant_of nodes) (λ tenant.
      and_then (check_nodes tenant nodes) (λ _. and_then (embedded_artifacts mode opts) (λ embedded.
        and_then (seals_from_nodes E nodes) (λ seals.
          encode_members (manifest_of trajectory tenant mode (length nodes) (length seals)) seals
            (map (manifest_entry embedded) opts.artifacts) nodes embedded))))

  abbrev pub listed : Str → Option Str → Action Db (List Fields)
  listed trajectory none = list_nodes_all_tenants E trajectory
  listed trajectory (some tenant) = list_nodes E trajectory tenant

  unfoldable pub export : Str → ExportOptions → Action Db (List (Str × Str))
  unfolding export_mode check_sign_key package_nodes
  export trajectory opts = do
    mode ← lift (export_mode opts.mode)
    lift (check_sign_key opts.sign_key)
    nodes ← listed trajectory opts.tenant_id
    lift (package_nodes trajectory mode opts nodes)
