-- ===== src/Tir/Archive.antt =====
-- The members of a zip archive, as archive/zip hands them over, and reading them within the limits of
-- go/trajir/tir/tir.go.
use trajectory_irmrd.Base.{
  ℕ, ◌+◌, Bool, true, false, Option, none, some, List, [], ◌∷◌, if◌then◌else◌, ◌==◌, ltb, length,
  Str, str, str_eq, has_suffix, Result, ok, err, and_then, tir_failed, tir_limit, io_failed,
}
use trajectory_irmrd.Tir.{safe_zip_name, max_uncompressed_entry_bytes, max_total_uncompressed_bytes}

-- A member: its name, the size that its header declares, and the bytes that reading it gives. `none`
-- is an error of opening or reading it, a bad checksum among them.
pub record Member : Type 0 where
  pub name : Str
  pub size : ℕ
  pub body : Option Str

abbrev pub is_directory_name : Str → Bool
is_directory_name name = has_suffix name (str "/")

unfoldable pub find_member : Str → List Member → Option Member
find_member name [] = none
find_member name (m ∷ members) = if m.name == name then some m else find_member name members

abbrev pub is_member : Option Member → Bool
is_member none = false
is_member (some m) = true

-- The map `byName`: every member but directories, each under a safe name of its own.
unfoldable pub index_members : List Member → List Member → Result (List Member)
unfolding find_member
index_members seen [] = ok []
index_members seen (m ∷ members) =
    if is_directory_name m.name
    then index_members seen members
    else and_then (safe_zip_name m.name) (λ _.
      if is_member (find_member m.name seen)
      then err tir_failed
      else and_then (index_members (m ∷ seen) members) (λ rest. ok (m ∷ rest)))

abbrev pub within_entry : ℕ → Str → Result (Str × ℕ)
within_entry used body =
    if ltb max_uncompressed_entry_bytes (length body)
    then err tir_limit
    else ok (body, used + length body)

abbrev pub read_body : ℕ → Option Str → Result (Str × ℕ)
read_body used none = err io_failed
read_body used (some body) = within_entry used body

-- Read a member, where `used` bytes were read before: what the source calls `budget` is the total
-- limit less `used`, which a lying header can bring below zero. What is read is cut behind the entry
-- limit, which is checked next.
unfoldable pub read_member : ℕ → Member → Result (Str × ℕ)
read_member used m =
    if ltb max_uncompressed_entry_bytes m.size
    then err tir_limit
    else if ltb max_total_uncompressed_bytes (used + m.size)
    then err tir_limit
    else read_body used m.body

abbrev pub read_found : ℕ → Option Member → Result (Str × ℕ)
read_found used none = err tir_failed
read_found used (some m) = read_member used m

unfoldable pub read_named : ℕ → Str → List Member → Result (Str × ℕ)
read_named used name members = read_found used (find_member name members)
