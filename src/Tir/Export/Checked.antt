-- ===== src/Tir/Export/Checked.antt =====
-- What `Export` checks before it writes.
use mathlib.Core.Path.{subst}
use trajectory_irmrd.Base.{
  ◌≤◌, ◌≡◌, ◌≢◌, sym, ap, ◌∙◌, inl, inr, Bool-cases, Option, none, some, List, [], ◌∷◌, map, arith,
  if◌then◌else◌, ◌==◌, ltb, length, All, Str, str, str_eq, nat_eq, Fields, get_text, ok, err,
  and_then, and_then-eq-ok, ok-injective, lift, >>=-eq-ok, Env, tir_limit,
}
use trajectory_irmrd.Log.{Db}
use trajectory_irmrd.Tir.{
  mode_fat, max_uncompressed_entry_bytes, max_artifacts, verify_node_record, seals_from_nodes,
}
use trajectory_irmrd.Tir.Load.{put_bytes}
use trajectory_irmrd.Tir.Load.Verified.{IsGenuine, verify_node_record-IsGenuine}
use trajectory_irmrd.Tir.Export.{
  ArtifactRef, ExportOptions, find_bytes, export_mode, check_sign_key, tenant_of, check_nodes,
  check_bytes, embed, embedded_artifacts, encode_members, package_nodes, listed, export,
  manifest_of, manifest_entry,
}

module _ (E : Env) where
  -- Bytes under their hash, within the limit of an entry.
  pub record IsEmbedded (a : Str × Str) : Type 0 where
    pub hash : E.sha256_hex a.1 ≡ a.0
    pub size : length a.1 ≤ max_uncompressed_entry_bytes

  -- A node of the package's tenant, with the id that its fields hash to.
  abbrev pub IsOwn : Str → Fields → Type 0
  IsOwn tenant n = (get_text (str "tenant_id") n ≡ tenant) × IsGenuine E n

  check_nodes-IsOwn :
      (tenant : Str) (nodes : List Fields)
      → check_nodes E tenant nodes ≡ ok tt
      → All (IsOwn tenant) nodes
  unfolding check_nodes
  check_nodes-IsOwn tenant [] e = tt
  check_nodes-IsOwn tenant (n ∷ nodes) e =
      elim (Bool-cases (get_text (str "tenant_id") n == tenant)) [
        | inr other ↦ ground (arith, other, e)
        | inl own ↦
            let e' : and_then (verify_node_record E n) (λ _. check_nodes E tenant nodes) ≡ ok tt =
              ground (arith, own, e) in
            let (_, verified, rest) = and_then-eq-ok (verify_node_record E n) _ e' in
            (
              (ground (arith, own), verify_node_record-IsGenuine E n verified),
              check_nodes-IsOwn tenant nodes rest,
            )
      ]

  check_bytes-IsEmbedded :
      (h : Str) (o : Option Str) {bytes : Str}
      → check_bytes E h o ≡ ok bytes
      → IsEmbedded (h, bytes)
  unfolding check_bytes
  check_bytes-IsEmbedded h none e = cc
  check_bytes-IsEmbedded h (some given) {bytes} e = record {
    hash = ground (arith, e);
    size = ground (arith, e);
  }

  put_bytes-IsEmbedded :
      (h bytes : Str) (found : List (Str × Str))
      → IsEmbedded (h, bytes)
      → All IsEmbedded found
      → All IsEmbedded (put_bytes h bytes found)
  unfolding put_bytes
  put_bytes-IsEmbedded h bytes [] p all = (p, tt)
  put_bytes-IsEmbedded h bytes (a ∷ found) p all = elim (Bool-cases (h == a.0)) [
    | inl same ↦ rw same (p, all.1)
    | inr other ↦ rw other (all.0, put_bytes-IsEmbedded h bytes found p all.1)
  ]

  embed-IsEmbedded :
      (given embedded : List (Str × Str)) (artifacts : List ArtifactRef) {all : List (Str × Str)}
      → All IsEmbedded embedded
      → embed E given embedded artifacts ≡ ok all
      → All IsEmbedded all
  unfolding embed
  embed-IsEmbedded given embedded [] h e = subst (All IsEmbedded) (ok-injective e) h
  embed-IsEmbedded given embedded (a ∷ artifacts) h e =
      let found = find_bytes a.content_hash given in
      let (bytes, checked, e1) = and_then-eq-ok (check_bytes E a.content_hash found) _ e in
      embed-IsEmbedded given (put_bytes a.content_hash bytes embedded) artifacts
        (put_bytes-IsEmbedded a.content_hash bytes embedded
          (check_bytes-IsEmbedded a.content_hash found checked) h)
        e1

  -- What is embedded: checked bytes in fat mode, nothing in any other.
  embedded_artifacts-IsEmbedded :
      (mode : Str) (opts : ExportOptions) {all : List (Str × Str)}
      → embedded_artifacts E mode opts ≡ ok all
      → All IsEmbedded all × (mode ≢ mode_fat → all ≡ [])
  unfolding embedded_artifacts
  embedded_artifacts-IsEmbedded mode opts {all} e = elim (Bool-cases (mode == mode_fat)) [
    | inr thin ↦
        let nothing : [] ≡ all = ok-injective (ground (arith, thin, e)) in
        (subst (All IsEmbedded) nothing tt, λ _. sym nothing)
    | inl fat ↦
        let e' : and_then (embed E opts.artifact_bytes [] opts.artifacts) (λ embedded.
          if ltb max_artifacts (length opts.artifacts) then err tir_limit else ok embedded)
            ≡ ok all =
          ground (arith, fat, e) in
        let (embedded, made, e1) =
          and_then-eq-ok (embed E opts.artifact_bytes [] opts.artifacts) _ e' in
        let same : embedded ≡ all = ground (arith, e1) in
        (
          subst (All IsEmbedded) same
              (embed-IsEmbedded opts.artifact_bytes [] opts.artifacts tt made),
          λ other. absurd (other (ground (arith, fat))),
        )
  ]

  -- What stands behind the members of an export.
  pub record IsExported (trajectory : Str) (opts : ExportOptions) (db : Db)
      (members : List (Str × Str)) : Type 0 where
    pub mode : Str
    pub has_mode : export_mode opts.mode ≡ ok mode
    pub nodes : List Fields
    pub is_listed : (listed E trajectory opts.tenant_id db).0 ≡ ok nodes
    pub tenant : Str
    pub is_tenant : tenant_of nodes ≡ ok tenant
    pub checked : check_nodes E tenant nodes ≡ ok tt
    pub own : All (IsOwn tenant) nodes
    pub embedded : List (Str × Str)
    pub made : embedded_artifacts E mode opts ≡ ok embedded
    pub addressed : All IsEmbedded embedded
    pub thin_empty : mode ≢ mode_fat → embedded ≡ []
    pub seals : List Fields
    pub is_sealed : seals_from_nodes E nodes ≡ ok seals
    pub encoded :
        encode_members E
          (manifest_of trajectory tenant mode (length nodes) (length seals))
          seals
          (map (manifest_entry embedded) opts.artifacts)
          nodes
          embedded
        ≡ ok members

  -- An export that succeeds took its nodes from the log's listing: they are of one tenant, each has the
  -- id that its fields hash to, and embedded bytes hash to their names and fit the limit of an entry.
  pub export-IsExported :
      (trajectory : Str) (opts : ExportOptions) (db : Db) {members : List (Str × Str)}
      → (export E trajectory opts db).0 ≡ ok members
      → IsExported trajectory opts db members
  unfolding export package_nodes lift
  export-IsExported trajectory opts db {members} e =
      let (mode, has_mode, q1) = >>=-eq-ok (lift (export_mode opts.mode)) _ db e in
      let (_, _, q2) =
        >>=-eq-ok (lift (check_sign_key opts.sign_key)) _ db (ap (λ p. p.0) (sym q1) ∙ e) in
      let q12 = q1 ∙ q2 in
      let (nodes, is_listed, q3) =
        >>=-eq-ok (listed E trajectory opts.tenant_id) _ db (ap (λ p. p.0) (sym q12) ∙ e) in
      let e1 = ap (λ p. p.0) (sym (q12 ∙ q3)) ∙ e in
      let (tenant, is_tenant, e2) = and_then-eq-ok (tenant_of nodes) _ e1 in
      let (_, checked, e3) = and_then-eq-ok (check_nodes E tenant nodes) _ e2 in
      let (embedded, made, e4) = and_then-eq-ok (embedded_artifacts E mode opts) _ e3 in
      let (seals, is_sealed, e5) = and_then-eq-ok (seals_from_nodes E nodes) _ e4 in
      let a = embedded_artifacts-IsEmbedded mode opts made in
      record {
        mode = mode;
        has_mode = has_mode;
        nodes = nodes;
        is_listed = is_listed;
        tenant = tenant;
        is_tenant = is_tenant;
        checked = checked;
        own = check_nodes-IsOwn tenant nodes checked;
        embedded = embedded;
        made = made;
        addressed = a.0;
        thin_empty = a.1;
        seals = seals;
        is_sealed = is_sealed;
        encoded = e5;
      }
