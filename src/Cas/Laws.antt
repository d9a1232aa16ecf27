-- ===== src/Cas/Laws.antt =====
-- `Get` of the two stores.
use trajectory_irmrd.Base.{◌≡◌, arith, Str, str_eq, ok, ◌>>=◌, Env}
use trajectory_irmrd.Cas.Keys.{normalize_hash}
use trajectory_irmrd.Cas.{Disk, Contents, bytes, not_exist, unreadable, verified, get, read_file}
use trajectory_irmrd.Cas.Objects.{S3Store, s3_get}

module _ (E : Env) where
  verified-eq-ok :
      (root h : Str) (c : Contents) {b : Str} → verified E root h c ≡ ok b → E.sha256_hex b ≡ h
  unfolding verified
  verified-eq-ok root h (bytes data_) e = ground arith
  verified-eq-ok root h not_exist e = cc
  verified-eq-ok root h unreadable e = cc

  -- Whatever the disk holds, bytes that Get returns have the hash that was asked for, as
  -- NormalizeHash reads it.
  pub get_verified :
      (root hash : Str) (d : Disk) {b : Str}
      → (get E root hash d).0 ≡ ok b
      → normalize_hash hash ≡ ok (E.sha256_hex b)
  unfolding get read_file verified ◌>>=◌
  get_verified root hash d {b} e = ground arith

  -- Whatever the object service returns, bytes that the S3 store's Get returns have the hash that
  -- was asked for.
  pub s3_get_verified :
      {W : Type 0} (s : S3Store W) (hash : Str) (w : W) {b : Str}
      → (s3_get E s hash w).0 ≡ ok b
      → normalize_hash hash ≡ ok (E.sha256_hex b)
  unfolding s3_get ◌>>=◌
  s3_get_verified s hash w {b} e = ground arith
