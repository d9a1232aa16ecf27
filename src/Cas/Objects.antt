-- ===== src/Cas/Objects.antt =====
-- The store on an S3-like service, go/trajir/cas/s3.go, over any client of the service.
use trajectory_irmrd.Base.{
  reverse, nat_eq, ◌≡◌, refl, str, Bool, true, false, Option, none, some, List, [], ◌∷◌, ◌++◌,
  if◌then◌else◌, ◌==◌, Str, str, str_eq, Result, ok, err, and_then, cas_failed, cas_not_found,
  cas_integrity, Action, pure, raise, lift, ◌>>=◌, ◌>>◌, Env,
}
use trajectory_irmrd.Base.Space.{trim_space}
use trajectory_irmrd.Cas.Keys.{normalize_hash, shard_key}

-- `ObjectAPI`. A nil error of HeadObject is `true`; any error reads as missing.
pub record ObjectApi (W : Type 0) : Type 0 where
  pub put_object : Str → Str → Str → Action W (Unit {0})
  pub get_object : Str → Str → Action W Str
  pub head_object : Str → Str → W → Bool × W

pub record S3Store (W : Type 0) : Type 0 where
  pub client : ObjectApi W
  pub bucket : Str
  pub key_prefix : Str

trim_left_slashes : Str → Str
unfolding nat_eq
trim_left_slashes [] = []
trim_left_slashes (c ∷ s) = let rest = trim_left_slashes s in if c == b'/' then rest else c ∷ s

-- `strings.Trim(s, "/")`
unfoldable pub trim_slashes : Str → Str
unfolding trim_left_slashes
trim_slashes s = reverse (trim_left_slashes (reverse (trim_left_slashes s)))

-- A nil client is `none`.
unfoldable pub new_s3_store : {W : Type 0} → Option (ObjectApi W) → Str → Str → Result (S3Store W)
new_s3_store none bucket key_prefix = err cas_failed
new_s3_store (some client) bucket key_prefix =
    if trim_space bucket == []
    then err cas_failed
    else ok (record { client = client; bucket = bucket; key_prefix = trim_slashes key_prefix })

prefix_sample : trim_slashes (str "/a/b//") ≡ str "a/b"
unfolding trim_slashes
prefix_sample = refl

module _ (E : Env) {W : Type 0} (s : S3Store W) where
  unfoldable pub object_key : Str → Result Str
  object_key hash =
      and_then (shard_key hash)
        (λ rel. ok (if s.key_prefix == [] then rel else s.key_prefix ++ b'/' ∷ rel))

  unfoldable pub s3_uri_for : Str → Result Str
  s3_uri_for hash =
      and_then (normalize_hash hash)
        (λ h. and_then (object_key h) (λ key. ok (str "s3://" ++ s.bucket ++ b'/' ∷ key)))

  unfoldable pub s3_has_key : Result Str → Action W Bool
  s3_has_key (err e) w = (ok false, w)
  s3_has_key (ok key) w =
      (ok (s.client.head_object s.bucket key w).0, (s.client.head_object s.bucket key w).1)

  unfoldable pub s3_has : Str → Action W Bool
  s3_has hash = s3_has_key (and_then (normalize_hash hash) object_key)

  unfoldable pub s3_put : Str → Action W Str
  s3_put data_ = do
    let h = E.sha256_hex data_
    exists ← s3_has h
    if exists
        then pure h
        else do key ← lift (object_key h); s.client.put_object s.bucket key data_; pure h

  unfoldable pub s3_get : Str → Action W Str
  s3_get hash = do
    h ← lift (normalize_hash hash)
    key ← lift (object_key h)
    data_ ← s.client.get_object s.bucket key
    if E.sha256_hex data_ == h then pure data_ else raise cas_integrity

-- `MemoryObjectAPI`: objects by bucket and key, the newest first.
abbrev pub Objects : Type 0
Objects = List (Str × Str)

abbrev pub memory_key : Str → Str → Str
memory_key bucket key = bucket ++ b'/' ∷ key

unfoldable pub find_object : Str → Objects → Option Str
find_object k [] = none
find_object k ((j, data_) ∷ objects) = if k == j then some data_ else find_object k objects

abbrev found_or_not : Option Str → Result Str
found_or_not none = err cas_not_found
found_or_not (some data_) = ok data_

abbrev is_found : Option Str → Bool
is_found none = false
is_found (some data_) = true

unfoldable pub memory_object_api : ObjectApi Objects
unfolding find_object
memory_object_api = record {
  put_object = λ bucket key body objects. (ok tt, (memory_key bucket key, body) ∷ objects);
  get_object =
      λ bucket key objects. (found_or_not (find_object (memory_key bucket key) objects), objects);
  head_object =
      λ bucket key objects. (is_found (find_object (memory_key bucket key) objects), objects);
}
