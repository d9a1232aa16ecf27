-- ===== src/Tir/Replace.antt =====
-- Writing a signed package in place of an unsigned one, go/trajir/tir/signature.go: `Sign`,
-- `rewriteZipWithSignature` and `replaceFile`. The state is the package, the temporary file beside it
-- and the backup; any operation on them may fail. A rename that cannot overwrite is one that fails.
-- What the temporary file holds before the archive is complete is not modelled.
pub mod Safe
use trajectory_irmrd.Base.{
  ℕ, suc, Bool, true, false, ◌||◌, not, Option, none, some, List, [], ◌∷◌, ◌++◌, map, if◌then◌else◌,
  ◌==◌, length, nat_eq, Str, sort_by, Result, ok, err, Error, Action, pure, raise, lift, gets,
  ◌>>=◌, ◌>>◌, or_fail, and_then, io_failed, tir_failed, tir_signature, Env,
}
use trajectory_irmrd.Tir.Archive.{Member}
use trajectory_irmrd.Tir.Signature.{
  Crypto, SignerMeta, SignatureInfo, VerifyOptions, collect_zip_members, sign_members, sign_files,
  verify_files,
}

pub data Place : Type 0 where
  temporary target backup : Place

pub record Files : Type 0 where
  pub temporary_file : Option Str
  pub target_file : Option Str
  pub backup_file : Option Str
  pub clock : ℕ

-- The zip format: the members of an archive, and an archive of members.
pub record ZipFormat : Type 0 where
  pub unzip : Str → Option (List Member)
  pub zip : List Member → Str

unfoldable pub contents : Place → Files → Option Str
contents Place.temporary s = s.temporary_file
contents Place.target s = s.target_file
contents Place.backup s = s.backup_file

unfoldable pub with_contents : Place → Option Str → Files → Files
with_contents Place.temporary c s = record s { temporary_file = c }
with_contents Place.target c s = record s { target_file = c }
with_contents Place.backup c s = record s { backup_file = c }

abbrev pub is_there : Option Str → Bool
is_there none = false
is_there (some c) = true

-- Go's `defer` of a cleanup that runs on an error.
abbrev pub or_cleanup : Result (Unit {0}) × Files → (Files → Files) → Result (Unit {0}) × Files
or_cleanup (ok u, s) cleanup = (ok u, s)
or_cleanup (err e, s) cleanup = (err e, cleanup s)

-- `readZipMembersAndSignature` up to the members of the archive.
unfoldable pub opened : ZipFormat → Option Str → Result (List Member)
opened Z none = err tir_failed
opened Z (some raw) = or_fail tir_failed (Z.unzip raw)

-- The members that `Sign` writes.
unfoldable pub signed_members :
    Crypto → ZipFormat → Str → SignerMeta → Option Str → Result (List Member)
unfolding opened
signed_members C Z private_key meta file =
    if not (length private_key == 64)
    then err tir_signature
    else and_then (opened Z file) (λ members. sign_files C private_key meta members)

-- `Verify` at a path.
unfoldable pub verify_path :
    Crypto → ZipFormat → VerifyOptions → Files → Result (Option SignatureInfo)
unfolding opened
verify_path C Z opts s = and_then (opened Z s.target_file) (λ members. verify_files C members opts)

module _ (E : Env) where
  abbrev pub tick : Files → Files
  tick s = record s { clock = suc s.clock }

  -- An operation that may fail and changes none of the contents.
  unfoldable pub operation : Error → Action Files (Unit {0})
  operation e s = (if E.io_fails s.clock then err e else ok tt, tick s)

  -- `os.Rename`
  unfoldable pub rename : Place → Place → Action Files (Unit {0})
  unfolding contents with_contents
  rename from to s =
      if E.io_fails s.clock || not (is_there (contents from s))
      then (err io_failed, tick s)
      else (ok tt, with_contents from none (with_contents to (contents from s) (tick s)))

  -- `_ = os.Remove(name)`
  unfoldable pub remove : Place → Files → Files
  unfolding with_contents
  remove place s = if E.io_fails s.clock then tick s else with_contents place none (tick s)

  -- After the move aside: the new file in, or the old one back.
  unfoldable pub install_or_restore : Action Files (Unit {0})
  unfolding rename remove
  install_or_restore s =
      let installed = rename Place.temporary Place.target s in
      elim installed.0 [
        | ok _ ↦ (ok tt, remove Place.backup installed.1)
        | err _ ↦ (err tir_signature, (rename Place.backup Place.target installed.1).1)
      ]

  -- The package out of the way, then the new file in its place.
  unfoldable pub move_aside : Action Files (Unit {0})
  unfolding rename install_or_restore
  move_aside s =
      let aside = rename Place.target Place.backup s in
      elim aside.0 [ ok _ ↦ install_or_restore aside.1 | err _ ↦ (err tir_signature, aside.1) ]

  unfoldable pub replace_file_via_backup : Action Files (Unit {0})
  unfolding remove move_aside
  replace_file_via_backup s = move_aside (remove Place.backup s)

  unfoldable pub replace_file : Action Files (Unit {0})
  unfolding rename replace_file_via_backup
  replace_file s =
      let direct = rename Place.temporary Place.target s in
      elim direct.0 [ ok _ ↦ (ok tt, direct.1) | err _ ↦ replace_file_via_backup direct.1 ]

  -- `zw.Create` and `w.Write` of each member.
  unfoldable pub write_members : List Member → Action Files (Unit {0})
  unfolding operation
  write_members [] = pure tt
  write_members (m ∷ members) = do operation io_failed; operation io_failed; write_members members

  -- All members written, the archive closed, the file synced, closed, and given the package's mode.
  unfoldable pub write_archive : List Member → Action Files (Unit {0})
  unfolding operation write_members
  write_archive members = do
    write_members members
    operation io_failed
    operation io_failed
    operation io_failed
    operation tir_signature

  unfoldable pub complete : Str → Action Files (Unit {0})
  unfolding with_contents
  complete archive s = (ok tt, with_contents Place.temporary (some archive) s)

  unfoldable pub write_temporary : ZipFormat → List Member → Action Files (Unit {0})
  unfolding write_archive complete
  write_temporary Z members = do write_archive members; complete (Z.zip members)

  unfoldable pub write_and_replace : ZipFormat → List Member → Action Files (Unit {0})
  unfolding write_temporary replace_file
  write_and_replace Z members = do write_temporary Z members; replace_file

  unfoldable pub rewrite_zip : ZipFormat → List Member → Action Files (Unit {0})
  unfolding operation write_and_replace remove
  rewrite_zip Z members = do
    operation tir_signature
    operation io_failed
    λ s. or_cleanup (write_and_replace Z members s) (remove Place.temporary)

  -- `Sign`
  unfoldable pub sign_path : Crypto → ZipFormat → Str → SignerMeta → Action Files (Unit {0})
  unfolding rewrite_zip signed_members
  sign_path C Z private_key meta = do
    members ← gets λ s. signed_members C Z private_key meta s.target_file
    rewrite_zip Z members
