-- ===== src/Cas.antt =====
-- The content-addressed store, go/trajir/cas/cas.go: hashes and keys, the store of files, and
-- `Rehydrate` over any store. Temporary files have names that no object has, and are left out.
pub mod Keys
pub mod Objects
pub mod Laws
pub mod PutGet
pub mod Rehydration
mod Tests
use trajectory_irmrd.Base.{
  ℕ, zero, suc, ◌+◌, Bool, true, false, ◌&&◌, ◌||◌, not, Option, none, some, List, [], ◌∷◌, ◌++◌,
  if◌then◌else◌, ◌==◌, length, leb, Str, str, str_eq, nat_eq, Error, Result, ok, err, and_then,
  is_ok, cas_invalid, cas_not_found, cas_integrity, io_failed, Action, pure, raise, lift, gets,
  ◌>>=◌, ◌>>◌, Env,
}
use trajectory_irmrd.Cas.Keys.{normalize_hash, shard_key}

-- What stands at a path. A path with nothing is not in the list.
pub data Entry : Type 0 where
  file : Str → Entry
  directory : Entry

-- The files, and how many operations on them there have been.
pub record Disk : Type 0 where
  pub entries : List (Str × Entry)
  pub clock : ℕ

abbrev pub entry_at : Str → List (Str × Entry) → Option Entry
entry_at path [] = none
entry_at path ((p, e) ∷ rest) = if path == p then some e else entry_at path rest

-- The outcome of os.ReadFile.
pub data Contents : Type 0 where
  bytes : Str → Contents
  not_exist : Contents
  unreadable : Contents

abbrev pub contents_of : Option Entry → Contents
contents_of none = not_exist
contents_of (some (file b)) = bytes b
contents_of (some directory) = unreadable

-- `err == nil && !st.IsDir()`
abbrev pub is_file : Option Entry → Bool
is_file (some (file b)) = true
is_file _ = false

abbrev pub is_directory : Option Entry → Bool
is_directory (some directory) = true
is_directory _ = false

-- A store: what `Rehydrate` calls.
pub record Store (W : Type 0) : Type 0 where
  pub put : Str → Action W Str
  pub get : Str → Action W Str

module _ (E : Env) (root : Str) where
  abbrev pub content_hash : Str → Str
  content_hash data_ = E.sha256_hex data_

  -- filepath.Join of the root, which is absolute, and a key.
  unfoldable pub path_for : Str → Result Str
  path_for h = and_then (shard_key h) (λ rel. ok (root ++ b'/' ∷ rel))

  unfoldable pub uri_for : Str → Result Str
  uri_for h = and_then (normalize_hash h) (λ x. ok (str "cas://" ++ x))

  unfoldable pub read_file : Str → Action Disk Contents
  read_file path d = (
    ok (if E.io_fails d.clock then unreadable else contents_of (entry_at path d.entries)),
    record d { clock = suc d.clock },
  )

  -- os.Stat that finds a file.
  unfoldable pub stat_file : Str → Action Disk Bool
  stat_file path d = (
    ok (not (E.io_fails d.clock) && is_file (entry_at path d.entries)),
    record d { clock = suc d.clock },
  )

  -- MkdirAll, CreateTemp, Write, Sync and Close: nothing at an object's path changes.
  unfoldable pub prepare : Action Disk (Unit {0})
  prepare d =
      (if E.io_fails d.clock then err io_failed else ok tt, record d { clock = suc d.clock })

  -- Rename the temporary file, which holds the bytes, to the path.
  unfoldable pub rename_to : Str → Str → Action Disk Bool
  rename_to path data_ d =
      if E.io_fails d.clock || is_directory (entry_at path d.entries)
      then (ok false, record d { clock = suc d.clock })
      else (ok true, record { entries = (path, file data_) ∷ d.entries; clock = suc d.clock })

  unfoldable pub check_existing : Str → Contents → Result Str
  check_existing h (bytes existing) = if content_hash existing == h then ok h else err cas_integrity
  check_existing h _ = err io_failed

  -- One attempt to read the object back: a file that cannot be read is tried again.
  unfoldable pub after_read : Str → Action Disk Str → Contents → Action Disk Str
  after_read h again (bytes existing) = lift (check_existing h (bytes existing))
  after_read h again not_exist = raise io_failed
  after_read h again unreadable = again

  -- The attempts after a rename that failed.
  unfoldable pub read_back : ℕ → Str → Str → Action Disk Str
  read_back zero path h = raise io_failed
  read_back (suc attempts) path h = do
    c ← read_file path
    after_read h (read_back attempts path h) c

  unfoldable pub write_object : Str → Str → Str → Action Disk Str
  write_object path h data_ = do
    prepare
    prepare
    prepare
    prepare
    prepare
    renamed ← rename_to path data_
    if renamed then pure h else read_back 5 path h

  unfoldable pub put : Str → Action Disk Str
  put data_ = do
    let h = content_hash data_
    path ← lift (path_for h)
    exists ← stat_file path
    if exists then (do c ← read_file path; lift (check_existing h c)) else write_object path h data_

  unfoldable pub verified : Str → Contents → Result Str
  verified h not_exist = err cas_not_found
  verified h unreadable = err io_failed
  verified h (bytes data_) = if content_hash data_ == h then ok data_ else err cas_integrity

  unfoldable pub get : Str → Action Disk Str
  get hash = do
    h ← lift (normalize_hash hash)
    path ← lift (path_for h)
    c ← read_file path
    lift (verified h c)

  unfoldable pub has_found : Result Str → Action Disk Bool
  has_found (err e) = pure false
  has_found (ok path) = stat_file path

  unfoldable pub has : Str → Action Disk Bool
  has hash = has_found (and_then (normalize_hash hash) path_for)

  abbrev pub file_system : Store Disk
  file_system = record { put = put; get = get }

-- `ArtifactEntry`, whose other fields `Rehydrate` does not read.
pub record ArtifactEntry : Type 0 where
  pub logical_path : Str
  pub content_hash : Str

abbrev pub is_not_found : Error → Bool
is_not_found cas_not_found = true
is_not_found _ = false

-- The loop of `Rehydrate`: `out` holds what is loaded, the last first.
abbrev pub has_hash : Str → List (Str × Str) → Bool
has_hash h [] = false
has_hash h ((k, v) ∷ out) = h == k || has_hash h out

unfoldable pub keep_loaded : Str → Bool → List (Str × Str) → Result Str → Result (List (Str × Str))
keep_loaded h require_all out (ok data_) = ok ((h, data_) ∷ out)
keep_loaded h require_all out (err e) = if is_not_found e && not require_all then ok out else err e

module _ {W : Type 0} (store : Store W) (require_all : Bool) where
  unfoldable pub load_hash : List (Str × Str) → Result Str → Action W (List (Str × Str))
  load_hash out (err x) w = (err x, w)
  load_hash out (ok h) w =
      if has_hash h out
      then (ok out, w)
      else (keep_loaded h require_all out (store.get h w).0, (store.get h w).1)

  -- One entry: a hash that is loaded already is passed over.
  unfoldable pub load_entry : List (Str × Str) → ArtifactEntry → Action W (List (Str × Str))
  load_entry out e = load_hash out (normalize_hash e.content_hash)

  unfoldable pub load_entries : List (Str × Str) → List ArtifactEntry → Action W (List (Str × Str))
  load_entries out [] = pure out
  load_entries out (e ∷ entries) = do more ← load_entry out e; load_entries more entries

  unfoldable pub rehydrate : List ArtifactEntry → Action W (List (Str × Str))
  rehydrate entries = load_entries [] entries
