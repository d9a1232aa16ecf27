-- ===== src/Tir/Export/Contents.antt =====
-- The contents of an export, in memory, against the checks that `Load` makes of contents.
use mathlib.Core.Path.{subst}
use trajectory_irmrd.Base.{
  ◌≡◌, ◌≢◌, ◌⊎◌, refl, sym, ◌∙◌, inl, inr, ◌||◌, true, false, Bool-cases, List, [], ◌∷◌, map, arith,
  if◌then◌else◌, ◌==◌, ltb, length, All, Str, str, str_eq, Fields, get, get_text, ok, err, and_then,
  and_then-eq-ok, ok-injective, Env, tir_limit, ℕ,
}
use trajectory_irmrd.Tir.{
  mode_thin, mode_fat, max_artifacts, verify_node_record, verify_all, seals_from_nodes,
}
use trajectory_irmrd.Tir.Load.{put_bytes}
use trajectory_irmrd.Tir.Load.Checks.{
  has_bytes, have_bytes, is_nil, mode_of, check_mode, check_contents,
}
use trajectory_irmrd.Tir.Export.{
  ArtifactRef, ExportOptions, find_bytes, export_mode, tenant_of, check_nodes, check_bytes, embed,
  embedded_artifacts, manifest_of, manifest_entry,
}
use trajectory_irmrd.Tir.Export.Reload.{DistinctIds, check_seals-own}

has_bytes-put :
    (k h bytes : Str) (found : List (Str × Str))
    → has_bytes k (put_bytes h bytes found) ≡ (k == h || has_bytes k found)
unfolding has_bytes put_bytes
has_bytes-put k h bytes [] = ground arith
has_bytes-put k h bytes (a ∷ found) = elim (Bool-cases (h == a.0)) [
  | inl same ↦ ground (arith, same)
  | inr other ↦ ground (arith, other, has_bytes-put k h bytes found)
]

-- The mode that is exported: thin or fat.
pub export_mode-cases :
    (given : Str) {mode : Str}
    → export_mode given ≡ ok mode
    → (mode ≡ mode_thin) ⊎ (mode ≡ mode_fat)
unfolding export_mode
export_mode-cases given {mode} e = ground (arith, e)

mode_text :
    (trajectory tenant mode : Str) (nodes seals : ℕ)
    → get_text (str "mode") (manifest_of trajectory tenant mode nodes seals) ≡ mode
unfolding manifest_of get_text get str_eq
mode_text trajectory tenant mode nodes seals = refl

pub mode_of-manifest :
    (trajectory tenant mode : Str) (nodes seals : ℕ)
    → mode ≢ []
    → mode_of (manifest_of trajectory tenant mode nodes seals) ≡ mode
unfolding mode_of
mode_of-manifest trajectory tenant mode nodes seals ne =
    ground (arith, mode_text trajectory tenant mode nodes seals, ne)

pub tenant_of-full :
    (nodes : List Fields) {tenant : Str} → tenant_of nodes ≡ ok tenant → is_nil nodes ≡ false
unfolding tenant_of
tenant_of-full [] e = cc
tenant_of-full (n ∷ nodes) e = refl

check_mode-export :
    (mode : Str) (entries : List Fields) (embedded : List (Str × Str))
    → (mode ≡ mode_thin) ⊎ (mode ≡ mode_fat)
    → (mode ≢ mode_fat → embedded ≡ [])
    → (mode ≡ mode_fat → have_bytes entries embedded ≡ true)
    → check_mode mode entries embedded ≡ ok tt
unfolding check_mode
check_mode-export mode entries embedded (inl thin) empty full =
    let nothing = empty (λ fat. thin_not_fat (sym thin ∙ fat)) in ground (arith, thin, nothing)
  where
    thin_not_fat : mode_thin ≢ mode_fat
    thin_not_fat e = cc
check_mode-export mode entries embedded (inr fat) empty full =
    let all = full fat in ground (arith, fat, all)

module _ (E : Env) where
  check_nodes-verify :
      (tenant : Str) (nodes : List Fields)
      → check_nodes E tenant nodes ≡ ok tt
      → verify_all E nodes ≡ ok tt
  unfolding check_nodes verify_all
  check_nodes-verify tenant [] e = refl
  check_nodes-verify tenant (n ∷ nodes) e =
      elim (Bool-cases (get_text (str "tenant_id") n == tenant)) [
        | inr other ↦ ground (arith, other, e)
        | inl own ↦
            let e' : and_then (verify_node_record E n) (λ _. check_nodes E tenant nodes) ≡ ok tt =
              ground (arith, own, e) in
            let (_, verified, rest) = and_then-eq-ok (verify_node_record E n) _ e' in
            let later = check_nodes-verify tenant nodes rest in ground (arith, verified, later)
      ]

  -- What is embedded stays, and every reference has bytes.
  embed-keeps :
      (given embedded : List (Str × Str)) (artifacts : List ArtifactRef) (k : Str)
      {all : List (Str × Str)}
      → embed E given embedded artifacts ≡ ok all
      → has_bytes k embedded ≡ true
      → has_bytes k all ≡ true
  unfolding embed
  embed-keeps given embedded [] k e h = subst (λ l. has_bytes k l ≡ true) (ok-injective e) h
  embed-keeps given embedded (a ∷ artifacts) k e h =
      let found = find_bytes a.content_hash given in
      let (bytes, _, e1) = and_then-eq-ok (check_bytes E a.content_hash found) _ e in
      let put = has_bytes-put k a.content_hash bytes embedded in
      embed-keeps given (put_bytes a.content_hash bytes embedded) artifacts k e1
        (ground (arith, put, h))

  embed-have :
      (given embedded : List (Str × Str)) (artifacts : List ArtifactRef) {all : List (Str × Str)}
      → embed E given embedded artifacts ≡ ok all
      → All (λ (a : ArtifactRef). has_bytes a.content_hash all ≡ true) artifacts
  unfolding embed
  embed-have given embedded [] e = tt
  embed-have given embedded (a ∷ artifacts) {all} e =
      let found = find_bytes a.content_hash given in
      let (bytes, _, e1) = and_then-eq-ok (check_bytes E a.content_hash found) _ e in
      let put = has_bytes-put a.content_hash a.content_hash bytes embedded in
      (
        embed-keeps given (put_bytes a.content_hash bytes embedded) artifacts a.content_hash e1
            (ground (arith, put)),
        embed-have given (put_bytes a.content_hash bytes embedded) artifacts e1,
      )

  have_bytes-entries :
      (embedded : List (Str × Str)) (artifacts : List ArtifactRef)
      → All (λ (a : ArtifactRef). has_bytes a.content_hash embedded ≡ true) artifacts
      → have_bytes (map (manifest_entry embedded) artifacts) embedded ≡ true
  unfolding have_bytes manifest_entry get_text get str_eq
  have_bytes-entries embedded [] h = refl
  have_bytes-entries embedded (a ∷ artifacts) h =
      ground (arith, h.0, have_bytes-entries embedded artifacts h.1)

  embedded_artifacts-have :
      (mode : Str) (opts : ExportOptions) {all : List (Str × Str)}
      → embedded_artifacts E mode opts ≡ ok all
      → (mode ≢ mode_fat → all ≡ [])
        × (mode ≡ mode_fat → have_bytes (map (manifest_entry all) opts.artifacts) all ≡ true)
  unfolding embedded_artifacts
  embedded_artifacts-have mode opts {all} e = elim (Bool-cases (mode == mode_fat)) [
    | inr thin ↦
        let nothing : [] ≡ all = ok-injective (ground (arith, thin, e)) in
        ((λ _. sym nothing), (λ fat. ground (arith, thin, fat)))
    | inl fat ↦
        let e' : and_then (embed E opts.artifact_bytes [] opts.artifacts) (λ embedded.
          if ltb max_artifacts (length opts.artifacts) then err tir_limit else ok embedded)
            ≡ ok all =
          ground (arith, fat, e) in
        let (embedded, made, e1) =
          and_then-eq-ok (embed E opts.artifact_bytes [] opts.artifacts) _ e' in
        let same : embedded ≡ all = ground (arith, e1) in
        let have =
          subst (λ l. All (λ (a : ArtifactRef). has_bytes a.content_hash l ≡ true) opts.artifacts)
            same (embed-have opts.artifact_bytes [] opts.artifacts made) in
        (
          (λ other. absurd (other (ground (arith, fat)))),
          (λ _. have_bytes-entries all opts.artifacts have),
        )
  ]

  pub check_contents-export :
      (trajectory tenant mode : Str) (opts : ExportOptions) (nodes seals : List Fields)
      (embedded : List (Str × Str))
      → (mode ≡ mode_thin) ⊎ (mode ≡ mode_fat)
      → is_nil nodes ≡ false
      → DistinctIds nodes
      → check_nodes E tenant nodes ≡ ok tt
      → embedded_artifacts E mode opts ≡ ok embedded
      → seals_from_nodes E nodes ≡ ok seals
      → check_contents E
          (manifest_of trajectory tenant mode (length nodes) (length seals))
          nodes
          seals
          (map (manifest_entry embedded) opts.artifacts)
          embedded
        ≡ ok tt
  unfolding check_contents
  check_contents-export trajectory tenant mode opts nodes seals embedded modes full distinct checked
        made is_sealed =
      let have = embedded_artifacts-have mode opts made in
      let ne : mode ≢ [] = elim modes [
        | inl thin ↦ (λ h. ground (arith, thin, h))
        | inr fat ↦ (λ h. ground (arith, fat, h))
      ] in
      let verified = check_nodes-verify tenant nodes checked in
      let found = check_seals-own E [] nodes distinct is_sealed in
      let mode_eq = mode_of-manifest trajectory tenant mode (length nodes) (length seals) ne in
      let fits =
        check_mode-export mode (map (manifest_entry embedded) opts.artifacts) embedded modes have.0
          have.1 in
      ground (arith, full, verified, is_sealed, found, mode_eq, fits)
