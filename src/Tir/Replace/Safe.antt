-- ===== src/Tir/Replace/Safe.antt =====
-- No failure of the file system loses the package.
use mathlib.Core.Path.{subst}
use trajectory_irmrd.Base.{
  Result-cases, tir_signature, suc, ◌≡◌, ◌⊎◌, refl, sym, ap, ◌∙◌, inl, inr, Bool-cases, none, some,
  List, [], ◌∷◌, arith, Str, Result, ok, err, Error, ◌>>=◌, continue, gets, Keeps, Keeps-pure,
  Keeps-bind, keeps_rules, io_failed, Env, >>=-eq-ok, >>=-ok, >>=-err,
}
use trajectory_irmrd.Tir.Archive.{Member}
use trajectory_irmrd.Tir.Signature.{Crypto, SignerMeta}
use trajectory_irmrd.Tir.Replace.{
  Place, Files, ZipFormat, contents, with_contents, operation, rename, remove, install_or_restore,
  move_aside, replace_file_via_backup, replace_file, write_members, write_archive, complete,
  write_temporary, write_and_replace, rewrite_zip, or_cleanup, signed_members, sign_path,
}

-- The package or its backup still is `old`.
abbrev pub IsKept : Str → Files → Type 0
IsKept old s = (s.target_file ≡ some old) ⊎ (s.backup_file ≡ some old)

-- What replacing the package `old` by `new` may end in.
abbrev pub Replaced : Str → Str → Result (Unit {0}) × Files → Type 0
Replaced old new (ok u, s) = s.target_file ≡ some new
Replaced old new (err e, s) = IsKept old s

module _ (E : Env) (old new : Str) where
  install-Replaced :
      (s : Files)
      → s.temporary_file ≡ some new
      → s.backup_file ≡ some old
      → Replaced old new (install_or_restore E s)
  unfolding install_or_restore rename remove contents with_contents
  install-Replaced s t b = ground (arith, t, b)

  -- The move aside, once an old backup is gone or could not be removed.
  aside-Replaced :
      (s : Files)
      → s.temporary_file ≡ some new
      → s.target_file ≡ some old
      → Replaced old new (move_aside E s)
  unfolding move_aside rename contents with_contents
  aside-Replaced s t p = elim (Bool-cases (E.io_fails s.clock)) [
    | inl fails ↦
        let stopped : move_aside E s ≡ (err tir_signature, record s { clock = suc s.clock }) =
          ground (arith, fails) in
        subst (Replaced old new) (sym stopped) (inl p)
    | inr works ↦
        let aside : Files = record s {
          target_file = none;
          backup_file = some old;
          clock = suc s.clock;
        } in
        let moved : move_aside E s ≡ install_or_restore E aside = ground (arith, works, p) in
        subst (Replaced old new) (sym moved) (install-Replaced aside t refl)
  ]

  remove_backup :
      (s : Files)
      → ((remove E Place.backup s).temporary_file ≡ s.temporary_file)
        × ((remove E Place.backup s).target_file ≡ s.target_file)
  unfolding remove with_contents
  remove_backup s = (ground arith, ground arith)

  pub replace_file-Replaced :
      (s : Files)
      → s.temporary_file ≡ some new
      → s.target_file ≡ some old
      → Replaced old new (replace_file E s)
  unfolding replace_file replace_file_via_backup rename contents with_contents
  replace_file-Replaced s t p = elim (Bool-cases (E.io_fails s.clock)) [
    | inr works ↦
        let replaced : Files = record s {
          temporary_file = none;
          target_file = some new;
          clock = suc s.clock;
        } in
        let direct : replace_file E s ≡ (ok tt, replaced) = ground (arith, works, t) in
        subst (Replaced old new) (sym direct) refl
    | inl fails ↦
        let later : Files = record s { clock = suc s.clock } in
        let r = remove_backup later in
        let aside : replace_file E s ≡ move_aside E (remove E Place.backup later) =
          ground (arith, fails) in
        subst (Replaced old new) (sym aside)
          (aside-Replaced (remove E Place.backup later) (r.0 ∙ t) (r.1 ∙ p))
  ]

module _ (E : Env) (old : Str) where
  -- The package is untouched.
  abbrev IsUntouched : Files → Type 0
  IsUntouched s = s.target_file ≡ some old

  operation-IsUntouched : (e : Error) → Keeps IsUntouched (operation E e)
  unfolding operation
  operation-IsUntouched e = record { at = λ s h. h }

  write_members-IsUntouched : (members : List Member) → Keeps IsUntouched (write_members E members)
  unfolding write_members
  write_members-IsUntouched [] = Keeps-pure tt
  write_members-IsUntouched (m ∷ members) =
      Keeps-bind _ _ (operation-IsUntouched io_failed)
        λ _. Keeps-bind _ _ (operation-IsUntouched io_failed) λ _. write_members-IsUntouched members

  complete-IsUntouched : (archive : Str) → Keeps IsUntouched (complete E archive)
  unfolding complete with_contents
  complete-IsUntouched archive = record { at = λ s h. h }

  ruleset untouched_rules =
      (keeps_rules, operation-IsUntouched, write_members-IsUntouched, complete-IsUntouched)

  write_temporary-IsUntouched :
      (Z : ZipFormat) (members : List Member) → Keeps IsUntouched (write_temporary E Z members)
  unfolding write_temporary write_archive
  write_temporary-IsUntouched Z members = search untouched_rules depth 20

  write_temporary-holds :
      (Z : ZipFormat) (members : List Member) (s : Files)
      → (write_temporary E Z members s).0 ≡ ok tt
      → (write_temporary E Z members s).1.temporary_file ≡ some (Z.zip members)
  unfolding write_temporary complete with_contents
  write_temporary-holds Z members s e =
      let (u, first, eq) =
        >>=-eq-ok (write_archive E members) (λ _. complete E (Z.zip members)) s e in
      ap (λ p. p.1.temporary_file) eq

  remove_temporary :
      (s : Files)
      → ((remove E Place.temporary s).target_file ≡ s.target_file)
        × ((remove E Place.temporary s).backup_file ≡ s.backup_file)
  unfolding remove with_contents
  remove_temporary s = (ground arith, ground arith)

  -- Writing and replacing, seen from the package.
  write_and_replace-Replaced :
      (Z : ZipFormat) (members : List Member) (s : Files)
      → IsUntouched s
      → Replaced old (Z.zip members) (write_and_replace E Z members s)
  unfolding write_and_replace
  write_and_replace-Replaced Z members s h = elim (Result-cases (write_temporary E Z members s).0) [
    | inl (u, written) ↦
        let next = (write_temporary E Z members s).1 in
        let whole : write_and_replace E Z members s ≡ replace_file E next =
          >>=-ok (write_temporary E Z members) (λ _. replace_file E) s written in
        subst (Replaced old (Z.zip members)) (sym whole) (
          replace_file-Replaced E old (Z.zip members) next
            (write_temporary-holds Z members s written)
            ((write_temporary-IsUntouched Z members).at s h))
    | inr (x, failed) ↦
        let whole : write_and_replace E Z members s ≡ (err x, (write_temporary E Z members s).1) =
          >>=-err (write_temporary E Z members) (λ _. replace_file E) s failed in
        subst (Replaced old (Z.zip members)) (sym whole)
          (inl ((write_temporary-IsUntouched Z members).at s h))
  ]

  or_cleanup-Replaced :
      (new : Str) (r : Result (Unit {0}) × Files)
      → Replaced old new r
      → Replaced old new (or_cleanup r (remove E Place.temporary))
  or_cleanup-Replaced new (ok u, s) h = h
  or_cleanup-Replaced new (err e, s) h =
      let r = remove_temporary s in
      elim h [ inl there ↦ inl (r.0 ∙ there) | inr saved ↦ inr (r.1 ∙ saved) ]

  rewrite_zip-Replaced :
      (Z : ZipFormat) (members : List Member) (s : Files)
      → IsUntouched s
      → Replaced old (Z.zip members) (rewrite_zip E Z members s)
  unfolding rewrite_zip operation ◌>>=◌
  rewrite_zip-Replaced Z members s h = elim (Bool-cases (E.io_fails s.clock)) [
    | inl no_mode ↦
        let stopped : rewrite_zip E Z members s
            ≡ (err tir_signature, record s { clock = suc s.clock }) =
          rw no_mode refl in
        subst (Replaced old (Z.zip members)) (sym stopped) (inl h)
    | inr mode ↦ elim (Bool-cases (E.io_fails (suc s.clock))) [
      | inl no_file ↦
          let stopped : rewrite_zip E Z members s
              ≡ (err io_failed, record s { clock = suc (suc s.clock) }) =
            rw (mode, no_file) refl in
          subst (Replaced old (Z.zip members)) (sym stopped) (inl h)
      | inr created ↦
          let later : Files = record s { clock = suc (suc s.clock) } in
          let goes : rewrite_zip E Z members s
              ≡ or_cleanup (write_and_replace E Z members later) (remove E Place.temporary) =
            rw (mode, created) refl in
          subst (Replaced old (Z.zip members)) (sym goes) (
            or_cleanup-Replaced (Z.zip members) (write_and_replace E Z members later)
              (write_and_replace-Replaced Z members later h))
    ]
  ]

-- What signing the package `old` may end in: the signed archive, or the old package kept.
abbrev pub Signed : Crypto → ZipFormat → Str → SignerMeta → Str → Result (Unit {0}) × Files → Type 0
Signed C Z private_key meta old (ok u, s) =
    (members : List Member) × (signed_members C Z private_key meta (some old) ≡ ok members)
    × (s.target_file ≡ some (Z.zip members))
Signed C Z private_key meta old (err e, s) = IsKept old s

-- Whichever operation of the file system fails, signing a package either succeeds and leaves the
-- signed archive in its place, or fails and leaves the old package in its place or in the backup.
pub sign_path-Signed :
    (E : Env) (C : Crypto) (Z : ZipFormat) (private_key : Str) (meta : SignerMeta) (old : Str)
    (s : Files)
    → s.target_file ≡ some old
    → Signed C Z private_key meta old (sign_path E C Z private_key meta s)
unfolding sign_path ◌>>=◌ gets
sign_path-Signed E C Z private_key meta old s h =
    subst
      (λ file.
        Signed C Z private_key meta old
          (continue (signed_members C Z private_key meta file) (rewrite_zip E Z) s))
      (sym h) (outcome (signed_members C Z private_key meta (some old)) refl)
  where
    finished :
        (members : List Member) (q : Result (Unit {0}) × Files)
        → signed_members C Z private_key meta (some old) ≡ ok members
        → Replaced old (Z.zip members) q
        → Signed C Z private_key meta old q
    finished members (ok u, t) made r = (members, made, r)
    finished members (err e, t) made r = r

    outcome :
        (r : Result (List Member))
        → signed_members C Z private_key meta (some old) ≡ r
        → Signed C Z private_key meta old (continue r (rewrite_zip E Z) s)
    outcome (ok members) made =
        finished members (rewrite_zip E Z members s) made (rewrite_zip-Replaced E old Z members s h)
    outcome (err e) made = inl h
