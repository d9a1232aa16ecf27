-- ===== src/Cas/Tests.antt =====
-- The store's theorems at an object that is put and got.
use trajectory_irmrd.Base.{◌≡◌, refl, true, [], ◌∷◌, ok, str, Str, str_eq, nat_eq, ◌>>=◌, Env}
use trajectory_irmrd.Base.Space.{to_lower, trim_space}
use trajectory_irmrd.Cas.Keys.{normalize_hash, is_hex64, all_hex, shard_key}
use trajectory_irmrd.Cas.{
  Disk, get, put, path_for, read_file, stat_file, verified, write_object, prepare, rename_to,
  file_system, ArtifactEntry, rehydrate, load_entries, load_entry, load_hash, keep_loaded,
}
use trajectory_irmrd.Cas.Objects.{S3Store, Objects, memory_object_api, s3_put}
use trajectory_irmrd.Cas.Laws.{get_verified}
use trajectory_irmrd.Cas.PutGet.{put_get}
use trajectory_irmrd.Cas.Rehydration.{IsVerified, Addressed, rehydrate-Addressed}
use trajectory_irmrd.Samples.{calm}

abbrev digest : Str
digest = str "0123456789abcdef0123456789abcdef0123456789abcdef0123456789abcdef"

-- One hash for every content.
abbrev hashing : Env
hashing = record calm { sha256_hex = λ data_. digest }

abbrev empty_disk : Disk
empty_disk = record { entries = []; clock = 0 }

abbrev filled : Disk
filled = (put hashing (str "/cas") (str "report") empty_disk).1

get_verified_example : normalize_hash digest ≡ ok (hashing.sha256_hex (str "report"))
unfolding get put path_for read_file stat_file verified write_object prepare rename_to shard_key
    normalize_hash is_hex64 all_hex to_lower trim_space ◌>>=◌ str_eq nat_eq
get_verified_example = get_verified hashing (str "/cas") digest filled refl

abbrev s3 : S3Store Objects
s3 = record { client = memory_object_api; bucket = str "b"; key_prefix = [] }

abbrev uploaded : Objects
uploaded = (s3_put hashing s3 (str "report") []).1

file_system-IsVerified : IsVerified hashing (file_system hashing (str "/cas"))
file_system-IsVerified = record { got = λ hash w e. get_verified hashing (str "/cas") hash w e }

abbrev entry : ArtifactEntry
entry = record { logical_path = str "out.txt"; content_hash = digest }

rehydrate-Addressed_example :
    Addressed hashing
      (file_system hashing (str "/cas"))
      file_system-IsVerified
      true
      ((digest, str "report") ∷ [])
unfolding rehydrate load_entries load_entry load_hash keep_loaded get put path_for read_file
    stat_file verified write_object prepare rename_to shard_key normalize_hash is_hex64 all_hex
    to_lower trim_space ◌>>=◌ str_eq nat_eq
rehydrate-Addressed_example =
    rehydrate-Addressed hashing (file_system hashing (str "/cas")) file_system-IsVerified true
      (entry ∷ []) filled refl

put_get_example :
    (digest ≡ digest)
    × ((b : Str) × ((get hashing
            (str "/cas")
            digest
            (put hashing (str "/cas") (str "report") empty_disk).1).0
          ≡ ok b)
        × (hashing.sha256_hex b ≡ digest))
unfolding get put path_for read_file stat_file verified write_object prepare rename_to shard_key
    normalize_hash is_hex64 all_hex to_lower trim_space ◌>>=◌ str_eq nat_eq
put_get_example = put_get hashing (str "/cas") (str "report") empty_disk refl refl refl
