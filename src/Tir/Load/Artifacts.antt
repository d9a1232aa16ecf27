-- ===== src/Tir/Load/Artifacts.antt =====
-- The artifacts that loading reads hash to their names.
use mathlib.Core.Path.{subst}
use trajectory_irmrd.Base.{
  ℕ, ◌≡◌, inl, inr, true, Bool-cases, List, [], ◌∷◌, ◌==◌, ltb, length, arith, All, Str, str,
  str_eq, nat_eq, ok, err, and_then, and_then-eq-ok, and_then-Ensures, if-Ensures, Ensures,
  tir_limit, Env,
}
use trajectory_irmrd.Tir.{max_artifacts}
use trajectory_irmrd.Tir.Archive.{Member, read_member, read_named}
use trajectory_irmrd.Tir.Load.{
  Package, is_hex, put_bytes, is_artifact_name, base_name, check_artifact, store_artifact,
  read_artifacts, read_contents, read_object, read_objects, read_nodes,
}

-- The bytes of an artifact hash to the name they stand under, 64 hex digits.
pub record IsAddressed (E : Env) (a : Str × Str) : Type 0 where
  pub hash : E.sha256_hex a.1 ≡ a.0
  pub size : length a.0 ≡ 64
  pub digits : is_hex a.0 ≡ true

module _ (E : Env) where
  check_artifact-IsAddressed :
      (h bytes : Str) → check_artifact E h bytes ≡ ok tt → IsAddressed E (h, bytes)
  unfolding check_artifact
  check_artifact-IsAddressed h bytes e = record {
    hash = ground (arith, e);
    size = ground (arith, e);
    digits = ground (arith, e);
  }

  put_bytes-All :
      (h bytes : Str) (found : List (Str × Str))
      → IsAddressed E (h, bytes)
      → All (IsAddressed E) found
      → All (IsAddressed E) (put_bytes h bytes found)
  unfolding put_bytes
  put_bytes-All h bytes [] p all = (p, tt)
  put_bytes-All h bytes (a ∷ found) p all = elim (Bool-cases (h == a.0)) [
    | inl same ↦ rw same (p, all.1)
    | inr other ↦ rw other (all.0, put_bytes-All h bytes found p all.1)
  ]

  store_artifact-All :
      (used : ℕ) (found : List (Str × Str)) (m : Member) {r : List (Str × Str) × ℕ}
      → All (IsAddressed E) found
      → store_artifact E used found m ≡ ok r
      → All (IsAddressed E) r.0
  unfolding store_artifact
  store_artifact-All used found m {r} all e =
      let ((bytes, later), read, e1) = and_then-eq-ok (read_member used m) _ e in
      let (u, checked, e2) = and_then-eq-ok (check_artifact E (base_name m.name) bytes) _ e1 in
      let here = check_artifact-IsAddressed (base_name m.name) bytes checked in
      let stored : put_bytes (base_name m.name) bytes found ≡ r.0 = ground (arith, e2) in
      subst (All (IsAddressed E)) stored (put_bytes-All (base_name m.name) bytes found here all)

  read_artifacts-All :
      (used : ℕ) (found : List (Str × Str)) (files : List Member) {artifacts : List (Str × Str)}
      → All (IsAddressed E) found
      → read_artifacts E used found files ≡ ok artifacts
      → All (IsAddressed E) artifacts
  unfolding read_artifacts
  read_artifacts-All used found [] {artifacts} all e =
      let same : found ≡ artifacts = cc in subst (All (IsAddressed E)) same all
  read_artifacts-All used found (m ∷ files) {artifacts} all e =
      elim (Bool-cases (is_artifact_name m.name)) [
        | inr other ↦ read_artifacts-All used found files all (ground (arith, other, e))
        | inl artifact ↦
            let e' : and_then (store_artifact E used found m) (λ r. read_artifacts E r.1 r.0 files)
                ≡ ok artifacts =
              ground (arith, artifact, e) in
            let (r, stored, e1) = and_then-eq-ok (store_artifact E used found m) _ e' in
            read_artifacts-All r.1 r.0 files (store_artifact-All used found m all stored) e1
      ]

  pub read_contents-Ensures :
      (files members : List Member)
      → Ensures
          (λ (p : Package). All (IsAddressed E) p.artifact_bytes)
          (read_contents E files members)
  unfolding read_contents
  read_contents-Ensures files members =
      let P : Package → Type 0 = λ p. All (IsAddressed E) p.artifact_bytes in
      and_then-Ensures P (read_object E 0 (str "manifest.json") members) _ λ manifest _.
        and_then-Ensures P (read_objects E manifest.1 (str "seals.json") members) _ λ seals _.
          and_then-Ensures P (read_objects E seals.1 (str "artifacts-manifest.json") members) _
            λ entries _. if-Ensures P (ltb max_artifacts (length entries.0)) (err tir_limit) _ tt (
              and_then-Ensures P (read_named entries.1 (str "COMPAT.json") members) _ λ compat _.
                and_then-Ensures P (read_nodes E compat.1 members) _ λ nodes _.
                  and_then-Ensures P (read_artifacts E nodes.1 [] files) _
                    λ artifacts e. read_artifacts-All nodes.1 [] files tt e)
