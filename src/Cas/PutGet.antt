-- ===== src/Cas/PutGet.antt =====
-- `Put` on files, followed by `Get`.
use mathlib.Core.Path.{subst}
use trajectory_irmrd.Base.{
  ℕ, zero, suc, ◌≡◌, refl, ap, sym, ◌∙◌, Bool, true, false, ◌||◌, Option, none, some, arith,
  if◌then◌else◌, Str, str_eq, Bool-cases, inl, inr, ok, Action, pure, raise, lift, ◌>>=◌, >>=-eq-ok,
  Env,
}
use trajectory_irmrd.Cas.Keys.{is_hex64, normalize_hash_normal, shard_key}
use trajectory_irmrd.Cas.{
  Disk, Entry, entry_at, contents_of, unreadable, file, directory, verified, get, put, read_file,
  path_for, check_existing, stat_file, write_object, read_back, after_read, rename_to, prepare,
  is_directory,
}

module _ (E : Env) (root path h : Str) where
  -- What a read of an entry found: the object of the hash, which is what is returned.
  record IsFound (x : Str) (o : Option Entry) : Type 0 where
    returned : x ≡ h
    content : Str
    at_path : o ≡ some (file content)
    hashed : E.sha256_hex content ≡ h

  abbrev Stored : Str → Disk → Type 0
  Stored x d = IsFound x (entry_at path d.entries)

  -- An action that leaves the object where it succeeds.
  abbrev Stores : Action Disk Str → Type 0
  Stores m = (d : Disk) (x : Str) → (m d).0 ≡ ok x → Stored x (m d).1

  check_existing-IsFound :
      (fails : Bool) (o : Option Entry) {x : Str}
      → check_existing E root h (if fails then unreadable else contents_of o) ≡ ok x
      → IsFound x o
  unfolding check_existing
  check_existing-IsFound true o e = cc
  check_existing-IsFound false none e = cc
  check_existing-IsFound false (some directory) e = cc
  check_existing-IsFound false (some (file b)) e = record {
    returned = ground arith;
    content = b;
    at_path = refl;
    hashed = ground arith;
  }

  existing-Stores : Stores (read_file E root path >>= λ c. lift (check_existing E root h c))
  unfolding read_file ◌>>=◌
  existing-Stores d x e = check_existing-IsFound (E.io_fails d.clock) (entry_at path d.entries) e

  after_read-Stored :
      (again : Action Disk Str) (fails : Bool) (o : Option Entry) (d : Disk) {x : Str}
      → entry_at path d.entries ≡ o
      → Stores again
      → (after_read E root h again (if fails then unreadable else contents_of o) d).0 ≡ ok x
      → Stored x (after_read E root h again (if fails then unreadable else contents_of o) d).1
  unfolding after_read lift raise
  after_read-Stored again true o d {x} at s e = s d x e
  after_read-Stored again false none d at s e = cc
  after_read-Stored again false (some directory) d {x} at s e = s d x e
  after_read-Stored again false (some (file b)) d {x} at s e =
      subst (IsFound x) (sym at) (check_existing-IsFound false (some (file b)) e)

  read_back-Stores : (attempts : ℕ) → Stores (read_back E root attempts path h)
  unfolding read_back read_file ◌>>=◌
  read_back-Stores zero d x e = cc
  read_back-Stores (suc attempts) d x e =
      after_read-Stored (read_back E root attempts path h) (E.io_fails d.clock)
        (entry_at path d.entries) _ refl (read_back-Stores attempts) e

  bind-Stores :
      {A : Type 0} (m : Action Disk A) (f : A → Action Disk Str)
      → ((a : A) → Stores (f a))
      → Stores (m >>= f)
  bind-Stores m f s d x e =
      let (a, ran, eq) = >>=-eq-ok m f d e in
      subst (λ r. Stored x r.1) (sym eq) (s a (m d).1 x (ap (λ r. r.0) (sym eq) ∙ e))

  renamed-Stores :
      (data_ : Str)
      → E.sha256_hex data_ ≡ h
      → Stores (
          rename_to E root path data_ >>= λ renamed.
          if renamed then pure h else read_back E root 5 path h)
  unfolding rename_to ◌>>=◌ str_eq
  renamed-Stores data_ s d x e =
      elim (Bool-cases (E.io_fails d.clock || is_directory (entry_at path d.entries))) [
        | inl failed ↦
            rw failed (read_back-Stores 5 (record d { clock = suc d.clock }) x (rw failed at e))
        | inr renamed ↦ rw renamed (record {
          returned = ground (arith, rw renamed at e);
          content = data_;
          at_path = ground arith;
          hashed = s;
        })
      ]

  write_object-Stores :
      (data_ : Str) → E.sha256_hex data_ ≡ h → Stores (write_object E root path h data_)
  unfolding write_object
  write_object-Stores data_ s = bind-Stores (prepare E root) _ λ _.
      bind-Stores (prepare E root) _ λ _. bind-Stores (prepare E root) _ λ _.
        bind-Stores (prepare E root) _
          λ _. bind-Stores (prepare E root) _ λ _. renamed-Stores data_ s

module _ (E : Env) (root data_ path : Str) where
  abbrev at_path_put : Action Disk Str
  at_path_put = do
    exists ← stat_file E root path
    if exists
        then (do c ← read_file E root path; lift (check_existing E root (E.sha256_hex data_) c))
        else write_object E root path (E.sha256_hex data_) data_

  at_path_put-Stores : Stores E root path (E.sha256_hex data_) at_path_put
  at_path_put-Stores =
      bind-Stores E root path (E.sha256_hex data_) (stat_file E root path) _
        λ exists. by_exists exists
    where
      by_exists :
          (exists : Bool)
          → Stores E root path (E.sha256_hex data_) (
              if exists
              then (read_file E root path >>= λ c.
                  lift (check_existing E root (E.sha256_hex data_) c))
              else write_object E root path (E.sha256_hex data_) data_)
      by_exists true = existing-Stores E root path (E.sha256_hex data_)
      by_exists false = write_object-Stores E root path (E.sha256_hex data_) data_ refl

  put_eq :
      (d : Disk)
      → path_for E root (E.sha256_hex data_) ≡ ok path
      → put E root data_ d ≡ at_path_put d
  unfolding put ◌>>=◌
  put_eq d p = rw p refl

  put-Stored :
      (d : Disk) {x : Str}
      → path_for E root (E.sha256_hex data_) ≡ ok path
      → (put E root data_ d).0 ≡ ok x
      → IsFound E root path (E.sha256_hex data_) x (entry_at path (put E root data_ d).1.entries)
  put-Stored d {x} p e =
      let eq = put_eq d p in
      subst (λ r. IsFound E root path (E.sha256_hex data_) x (entry_at path r.1.entries)) (sym eq)
        (at_path_put-Stores d x (ap (λ r. r.0) (sym eq) ∙ e))

module _ (E : Env) (root : Str) where
  path_for_normal : (h : Str) → is_hex64 h ≡ true → (path : Str) × (path_for E root h ≡ ok path)
  unfolding path_for shard_key
  path_for_normal h n = rw (normalize_hash_normal h n) (_, refl)

  get_found :
      (h path b : Str) (d : Disk)
      → is_hex64 h ≡ true
      → path_for E root h ≡ ok path
      → E.io_fails d.clock ≡ false
      → entry_at path d.entries ≡ some (file b)
      → E.sha256_hex b ≡ h
      → (get E root h d).0 ≡ ok b
  unfolding get read_file verified ◌>>=◌
  get_found h path b d n p up at s = rw (normalize_hash_normal h n, p, up, at) (ground arith)

  -- A Put that succeeds returns the hash of its bytes, and a Get of that hash, where its read of
  -- the disk does not fail, gives bytes of that hash, whatever the disk held and whichever
  -- operations failed before, if the hash is 64 lower case hexadecimal digits.
  pub put_get :
      (data_ : Str) (d : Disk) {h : Str}
      → is_hex64 (E.sha256_hex data_) ≡ true
      → (put E root data_ d).0 ≡ ok h
      → E.io_fails (put E root data_ d).1.clock ≡ false
      → (h ≡ E.sha256_hex data_)
        × ((b : Str) × ((get E root h (put E root data_ d).1).0 ≡ ok b) × (E.sha256_hex b ≡ h))
  put_get data_ d {h} n e up =
      let (path, p) = path_for_normal (E.sha256_hex data_) n in
      let found = put-Stored E root data_ path d p e in
      (
        found.returned,
        (
          found.content,
          ap (λ h. (get E root h (put E root data_ d).1).0) found.returned
              ∙ get_found (E.sha256_hex data_) path found.content _ n p up found.at_path
                  found.hashed,
          found.hashed ∙ sym found.returned,
        ),
      )
