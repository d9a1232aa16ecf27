-- ===== src/Tir/Load/Signed.antt =====
-- A package with a SIGNATURE member loads only where the signature verifies.
use mathlib.Core.Path.{subst}
use trajectory_irmrd.Base.{
  ℕ, ◌≡◌, refl, sym, ap, ◌∙◌, inl, inr, Bool, true, false, ◌||◌, Bool-cases, Option-cases, Option,
  none, some, List, [], ◌∷◌, ◌==◌, arith, Str, str_eq, nat_eq, has_prefix, has_suffix, ok, err,
  and_then, and_then-eq-ok, Ensures, Ensures-ok, and_then-Ensures, if-Ensures, Ensures-map,
  tir_failed, Env,
}
use trajectory_irmrd.Tir.{safe_zip_name}
use trajectory_irmrd.Tir.Archive.{
  Member, is_directory_name, find_member, is_member, index_members, read_member,
}
use trajectory_irmrd.Tir.Signature.{
  Crypto, SignatureInfo, Collected, signature_member_name, no_policy, is_signed, collect_one,
  collect_from, collect_zip_members, verify_signature_bytes, verify_from_members, verify_files,
}
use trajectory_irmrd.Tir.Load.{Package, check_signed, load_impl}
use trajectory_irmrd.Tir.Load.Accepted.{IsLoaded, load_files-Ensures}

-- Whether an archive has a SIGNATURE member.
abbrev pub has_signature : List Member → Bool
has_signature files = is_member (find_member signature_member_name files)

find_member-cons :
    (name : Str) (m : Member) (files : List Member)
    → is_member (find_member name (m ∷ files))
      ≡ (m.name == name || is_member (find_member name files))
unfolding find_member
find_member-cons name m files = ground arith

not_directory : (name : Str) → name ≡ signature_member_name → is_directory_name name ≡ false
unfolding has_suffix has_prefix nat_eq
not_directory name h = subst (λ n. is_directory_name n ≡ false) (sym h) refl

-- A directory is not the signature.
skip_directory :
    (m : Member) (files : List Member)
    → is_directory_name m.name ≡ true
    → has_signature (m ∷ files) ≡ has_signature files
skip_directory m files h = elim (Bool-cases (m.name == signature_member_name)) [
  | inl same ↦ let d = not_directory m.name (ground (arith, same)) in cc
  | inr other ↦ ground (arith, find_member-cons signature_member_name m files, other)
]

index_members-Ensures :
    (seen files : List Member)
    → Ensures (λ members. has_signature members ≡ has_signature files) (index_members seen files)
unfolding index_members
index_members-Ensures seen [] = refl
index_members-Ensures seen (m ∷ files) =
    let P : List Member → Type 0 = λ members. has_signature members ≡ has_signature (m ∷ files) in
    elim (Bool-cases (is_directory_name m.name)) [
      | inl directory ↦
          rw (directory, skip_directory m files directory) (index_members-Ensures seen files)
      | inr plain ↦ rw plain (
          and_then-Ensures P (safe_zip_name m.name) _ λ _ _.
            if-Ensures P (is_member (find_member m.name seen)) (err tir_failed) _ tt (
              and_then-Ensures P (index_members (m ∷ seen) files) _ λ rest e.
                let same =
                  Ensures-ok (λ members. has_signature members ≡ has_signature files)
                    (index_members-Ensures (m ∷ seen) files) e in
                find_member-cons signature_member_name m rest
                ∙ ap (λ b. m.name == signature_member_name || b) same
                ∙ sym (find_member-cons signature_member_name m files)))
    ]

collect_one-Ensures :
    (name body : Str) (c : Collected)
    → Ensures
        (λ (d : Collected).
          is_signed d.signature ≡ (name == signature_member_name || is_signed c.signature))
        (collect_one name body c)
unfolding collect_one
collect_one-Ensures name body c = ground arith

collect_from-Ensures :
    (used : ℕ) (c : Collected) (files : List Member)
    → Ensures
        (λ (d : Collected). is_signed d.signature ≡ (is_signed c.signature || has_signature files))
        (collect_from used c files)
unfolding collect_from find_member
collect_from-Ensures used c [] = ground arith
collect_from-Ensures used c (m ∷ files) =
    let P : Collected → Type 0 =
      λ d. is_signed d.signature ≡ (is_signed c.signature || has_signature (m ∷ files)) in
    elim (Bool-cases (is_directory_name m.name)) [
      | inl directory ↦
          rw (directory, skip_directory m files directory) (collect_from-Ensures used c files)
      | inr plain ↦ rw plain (
          and_then-Ensures P (safe_zip_name m.name) _ λ _ _.
            and_then-Ensures P (read_member used m) _ λ r _.
              and_then-Ensures P (collect_one m.name r.0 c) _ λ more e.
                let one = Ensures-ok _ (collect_one-Ensures m.name r.0 c) e in
                let split = find_member-cons signature_member_name m files in
                Ensures-map _ P (collect_from r.1 more files) (λ d h. ground (arith, h, one, split))
                  (collect_from-Ensures r.1 more files))
    ]

-- What verification returns of an archive.
verify_files-signed :
    (C : Crypto) (files : List Member) {o : Option SignatureInfo}
    → has_signature files ≡ true
    → verify_files C files no_policy ≡ ok o
    → (info : SignatureInfo) × (o ≡ some info)
unfolding verify_files collect_zip_members verify_from_members
verify_files-signed C files {o} there e =
    let (c, collected, e1) = and_then-eq-ok (collect_zip_members files) _ e in
    let within : collect_from 0 (record { members = []; signature = none }) files ≡ ok c =
      within_entries files collected in
    let has =
      Ensures-ok _ (collect_from-Ensures 0 (record { members = []; signature = none }) files)
        within in
    verified C c (has ∙ there) e1
  where
    within_entries :
        (files : List Member) {c : Collected}
        → collect_zip_members files ≡ ok c
        → collect_from 0 (record { members = []; signature = none }) files ≡ ok c
    within_entries files h = ground (arith, h)

    verified :
        (C : Crypto) (c : Collected) {o : Option SignatureInfo}
        → is_signed c.signature ≡ true
        → verify_from_members C c.members c.signature no_policy ≡ ok o
        → (info : SignatureInfo) × (o ≡ some info)
    verified C c {o} signed e = elim (Option-cases c.signature) [
      | inl unsigned ↦ ground (arith, signed, unsigned)
      | inr (raw, is_raw) ↦
          let e' : and_then (verify_signature_bytes C c.members raw no_policy)
                (λ info. ok (some info))
              ≡ ok o =
            subst (λ s. verify_from_members C c.members s no_policy ≡ ok o) is_raw e in
          let (info, _, e2) =
            and_then-eq-ok (verify_signature_bytes C c.members raw no_policy) _ e' in
          (info, cc)
    ]

-- A package with a SIGNATURE member that Load or LoadUnverified returns carries the signature's
-- information, and its signature verifies over the members of the archive.
pub load_impl-signed :
    (E : Env) (C : Crypto) (verify : Bool) (files : List Member) {p : Package}
    → has_signature files ≡ true
    → load_impl E C verify (some files) ≡ ok p
    → (info : SignatureInfo) × (p.signature ≡ some info)
      × (verify_files C files no_policy ≡ ok (some info))
unfolding load_impl check_signed
load_impl-signed E C verify files {p} there e =
    let l = Ensures-ok (IsLoaded E C verify files) (load_files-Ensures E C verify files) e in
    let kept = Ensures-ok _ (index_members-Ensures [] files) l.indexed in
    let verified : verify_files C files no_policy ≡ ok p.signature =
      ground (arith, l.signature, kept, there) in
    let (info, is_info) = verify_files-signed C files there verified in
    (info, is_info, verified ∙ ap ok is_info)
