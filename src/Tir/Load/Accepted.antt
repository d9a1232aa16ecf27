-- ===== src/Tir/Load/Accepted.antt =====
-- What `Load` and `LoadUnverified` promise of a package that they return.
use mathlib.Core.Path.{subst}
use trajectory_irmrd.Base.{
  ◌≡◌, ◌≢◌, refl, sym, inl, inr, Bool, true, not, Bool-cases, Option, none, some, List, [], ◌∷◌,
  ltb, length, arith, All, Str, str_eq, nat_eq, Fields, ok, err, and_then, and_then-eq-ok,
  and_then-Ensures, if-Ensures, Ensures, Ensures-ok, tir_failed, tir_limit, Env,
}
use trajectory_irmrd.Tir.{
  verify_all, seals_from_nodes, mode_thin, mode_fat, max_zip_entries, required_members,
}
use trajectory_irmrd.Tir.Archive.{Member, index_members}
use trajectory_irmrd.Tir.Signature.{Crypto, SignatureInfo}
use trajectory_irmrd.Tir.Load.{
  Package, has_required, read_contents, check_package, check_signed, load_files, load_impl, load,
}
use trajectory_irmrd.Tir.Load.Checks.{
  have_bytes, is_nil, mode_of, check_seals, check_mode, check_contents,
}
use trajectory_irmrd.Tir.Load.Verified.{
  IsGenuine, SealedIfDecision, verify_all-IsGenuine, check_seals-Sealed,
}
use trajectory_irmrd.Tir.Load.Artifacts.{IsAddressed, read_contents-Ensures}

-- What checked contents are.
pub record IsChecked (E : Env) (p : Package) : Type 0 where
  pub nonempty : p.nodes ≢ []
  pub genuine : All (IsGenuine E) p.nodes
  pub is_sealed : All (SealedIfDecision E p.seals) p.nodes
  pub fat : mode_of p.manifest ≡ mode_fat → have_bytes p.artifacts_manifest p.artifact_bytes ≡ true
  pub thin : mode_of p.manifest ≡ mode_thin → p.artifact_bytes ≡ []

is_nil-eq-true : {A : Type 0} (xs : List A) → is_nil xs ≡ true → xs ≡ []
is_nil-eq-true [] h = refl
is_nil-eq-true (x ∷ xs) h = cc

check_mode-fat :
    (mode : Str) (entries : List Fields) (artifacts : List (Str × Str))
    → check_mode mode entries artifacts ≡ ok tt
    → mode ≡ mode_fat
    → have_bytes entries artifacts ≡ true
unfolding check_mode
check_mode-fat mode entries artifacts h fat = ground (arith, h, fat)

check_mode-thin :
    (mode : Str) (entries : List Fields) (artifacts : List (Str × Str))
    → check_mode mode entries artifacts ≡ ok tt
    → mode ≡ mode_thin
    → artifacts ≡ []
unfolding check_mode
check_mode-thin mode entries artifacts h thin = is_nil-eq-true artifacts (ground (arith, h, thin))

pub check_package-IsChecked :
    (E : Env) (p : Package) → check_package E true p ≡ ok tt → IsChecked E p
unfolding check_package check_contents
check_package-IsChecked E p e = elim (Bool-cases (is_nil p.nodes)) [
  | inl empty ↦ ground (arith, empty, e)
  | inr full ↦
      let e' : and_then (verify_all E p.nodes) (λ _.
        and_then (seals_from_nodes E p.nodes) (λ expected.
          and_then (check_seals p.seals expected)
            (λ _. check_mode (mode_of p.manifest) p.artifacts_manifest p.artifact_bytes)))
          ≡ ok tt =
        ground (arith, full, e) in
      let (_, verified, e1) = and_then-eq-ok (verify_all E p.nodes) _ e' in
      let (expected, made, e2) = and_then-eq-ok (seals_from_nodes E p.nodes) _ e1 in
      let (_, found, e3) = and_then-eq-ok (check_seals p.seals expected) _ e2 in
      record {
        nonempty = λ none_there. ground (arith, full, none_there);
        genuine = verify_all-IsGenuine E p.nodes verified;
        is_sealed = check_seals-Sealed E p.seals p.nodes expected made found;
        fat = check_mode-fat (mode_of p.manifest) p.artifacts_manifest p.artifact_bytes e3;
        thin = check_mode-thin (mode_of p.manifest) p.artifacts_manifest p.artifact_bytes e3;
      }
]

-- Where the pieces of a loaded package come from.
pub record IsLoaded (E : Env) (C : Crypto) (verify : Bool) (files : List Member) (p : Package)
    : Type 0 where
  pub members : List Member
  pub indexed : index_members [] files ≡ ok members
  pub read : Package
  pub is_read : read_contents E files members ≡ ok read
  pub checked : check_package E verify read ≡ ok tt
  pub signature : check_signed E C files members ≡ ok p.signature
  pub same : p ≡ record read { signature = p.signature }

pub load_files-Ensures :
    (E : Env) (C : Crypto) (verify : Bool) (files : List Member)
    → Ensures (IsLoaded E C verify files) (load_files E C verify files)
unfolding load_files
load_files-Ensures E C verify files =
    let P = IsLoaded E C verify files in
    if-Ensures P (ltb max_zip_entries (length files)) (err tir_limit) _ tt (
      and_then-Ensures P (index_members [] files) _ λ members indexed.
        if-Ensures P (not (has_required required_members members)) (err tir_failed) _ tt (
          and_then-Ensures P (read_contents E files members) _ λ read is_read.
            and_then-Ensures P (check_package E verify read) _ λ _ checked.
              and_then-Ensures P (check_signed E C files members) _ λ info signed. record {
                members = members;
                indexed = indexed;
                read = read;
                is_read = is_read;
                checked = checked;
                signature = signed;
                same = refl;
              }))

IsChecked-signature :
    (E : Env) (p : Package) (info : Option SignatureInfo)
    → IsChecked E p
    → IsChecked E (record p { signature = info })
IsChecked-signature E p info h = record {
  nonempty = h.nonempty;
  genuine = h.genuine;
  is_sealed = h.is_sealed;
  fat = h.fat;
  thin = h.thin;
}

module _ (E : Env) (C : Crypto) where
  -- A package that Load returns has nodes; each node's id is the one that its own fields hash to;
  -- each DECISION has a seal under its id with the hash of its payload; in fat mode the bytes of
  -- every listed artifact are there, and in thin mode none are.
  pub load-IsChecked :
      (files : Option (List Member)) {p : Package} → load E C files ≡ ok p → IsChecked E p
  unfolding load load_impl
  load-IsChecked none e = cc
  load-IsChecked (some files) {p} e =
      let l = Ensures-ok (IsLoaded E C true files) (load_files-Ensures E C true files) e in
      subst (IsChecked E) (sym l.same)
        (IsChecked-signature E l.read p.signature (check_package-IsChecked E l.read l.checked))

  -- Every artifact of a package that Load or LoadUnverified returns stands under the hash of its
  -- own bytes, 64 hexadecimal digits.
  pub load_impl-IsAddressed :
      (verify : Bool) (files : Option (List Member)) {p : Package}
      → load_impl E C verify files ≡ ok p
      → All (IsAddressed E) p.artifact_bytes
  unfolding load_impl
  load_impl-IsAddressed verify none e = cc
  load_impl-IsAddressed verify (some files) {p} e =
      let l = Ensures-ok (IsLoaded E C verify files) (load_files-Ensures E C verify files) e in
      let all =
        Ensures-ok (λ (q : Package). All (IsAddressed E) q.artifact_bytes)
          (read_contents-Ensures E files l.members) l.is_read in
      subst (λ (q : Package). All (IsAddressed E) q.artifact_bytes) (sym l.same) all
