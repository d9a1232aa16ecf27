-- ===== src/Cas/Rehydration.antt =====
-- `Rehydrate` over any store.
use mathlib.Core.Path.{subst}
use trajectory_irmrd.Base.{
  ◌≡◌, refl, ap, sym, ◌∙◌, Bool, List, [], ◌∷◌, arith, All, Str, Bool-cases, inl, inr, Result, ok,
  err, pure, >>=-eq-ok, Env,
}
use trajectory_irmrd.Cas.Keys.{normalize_hash, normalize_hash_idem}
use trajectory_irmrd.Cas.{
  Store, ArtifactEntry, load_hash, load_entry, load_entries, rehydrate, keep_loaded, has_hash,
}

-- What a store's `Get` promises: bytes of the hash that is asked for.
pub record IsVerified (E : Env) {W : Type 0} (store : Store W) : Type 0 where
  pub got :
      (hash : Str) (w : W) {b : Str}
      → (store.get hash w).0 ≡ ok b
      → normalize_hash hash ≡ ok (E.sha256_hex b)

module _ (E : Env) {W : Type 0} (store : Store W) (law : IsVerified E store)
    (require_all : Bool) where
  -- Every loaded item stands under the hash of its bytes.
  abbrev pub Addressed : List (Str × Str) → Type 0
  Addressed = All (λ p. p.0 ≡ E.sha256_hex p.1)

  keep_loaded-Addressed :
      (hash h : Str) (w : W) (out : List (Str × Str)) (r : Result Str) {more : List (Str × Str)}
      → normalize_hash hash ≡ ok h
      → (store.get h w).0 ≡ r
      → Addressed out
      → keep_loaded h require_all out r ≡ ok more
      → Addressed more
  unfolding keep_loaded
  keep_loaded-Addressed hash h w out (ok data_) {more} n g a e =
      let l = law.got h w g in
      let i = normalize_hash_idem hash n in
      let same : h ≡ E.sha256_hex data_ = cc in
      let s : ((h, data_) ∷ out) ≡ more = cc in subst Addressed s (same, a)
  keep_loaded-Addressed hash h w out (err x) {more} n g a e =
      let s : out ≡ more = ground arith in subst Addressed s a

  load_hash-Addressed :
      (hash : Str) (out : List (Str × Str)) (r : Result Str) (w : W) {more : List (Str × Str)}
      → normalize_hash hash ≡ r
      → Addressed out
      → (load_hash store require_all out r w).0 ≡ ok more
      → Addressed more
  unfolding load_hash
  load_hash-Addressed hash out (err x) w n a e = cc
  load_hash-Addressed hash out (ok h) w {more} n a e = elim (Bool-cases (has_hash h out)) [
    | inl loaded ↦ let s : out ≡ more = ground (arith, loaded, e) in subst Addressed s a
    | inr missing ↦
        keep_loaded-Addressed hash h w out (store.get h w).0 n refl a (ground (arith, missing, e))
  ]

  load_entries-Addressed :
      (out : List (Str × Str)) (entries : List ArtifactEntry) (w : W) {more : List (Str × Str)}
      → Addressed out
      → (load_entries store require_all out entries w).0 ≡ ok more
      → Addressed more
  unfolding load_entries load_entry pure
  load_entries-Addressed out [] w {more} a e = let s : out ≡ more = cc in subst Addressed s a
  load_entries-Addressed out (entry ∷ entries) w a e =
      let r = >>=-eq-ok (load_entry store require_all out entry) _ w e in
      load_entries-Addressed r.0 entries _
        (load_hash-Addressed entry.content_hash out _ w refl a r.1) (ap (λ p. p.0) (sym r.2) ∙ e)

  -- Every item that Rehydrate returns stands under the hash of its own bytes, over any store
  -- whose Get returns only bytes of the hash it is asked for.
  pub rehydrate-Addressed :
      (entries : List ArtifactEntry) (w : W) {out : List (Str × Str)}
      → (rehydrate store require_all entries w).0 ≡ ok out
      → Addressed out
  unfolding rehydrate
  rehydrate-Addressed entries w e = load_entries-Addressed [] entries w tt e
