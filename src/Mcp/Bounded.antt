-- ===== src/Mcp/Bounded.antt =====
-- `requireBoundedPath`, where the path may be taken from a work directory.
use mathlib.Core.Path.{subst}
use mathlib.Core.List.{append_assoc, append-nil, reverse-cons, reverse-reverse}
use trajectory_irmrd.Base.{
  ◌≡◌, ◌≢◌, ◌⊎◌, refl, sym, ap, ◌∙◌, inl, inr, Bool, true, false, ◌||◌, some, List, [], ◌∷◌, ◌++◌,
  arith, All, All-append, if◌then◌else◌, ◌==◌, Bool-cases, reverse, Str, str, str_eq, Result, ok,
  err, and_then, and_then-eq-ok, ok-injective, or_fail, or_fail-eq-ok, path_failed,
}
use trajectory_irmrd.Base.Space.{trim_space}
use trajectory_irmrd.Tir.{split_on}
use trajectory_irmrd.Mcp.{
  FilePath, FileSystem, Entry, walk, enter, without_last, is_abs, is_subpath, found_at, ascend,
  canonicalize_dir, approved_root, resolve_via_existing_ancestor, check_directory,
  resolve_under_root, require_bounded_path,
}
use trajectory_irmrd.Mcp.Confinement.{
  IsUnder, IsUnder-refl, IsUnder-trans, IsSettled, resolve_under_root-IsConfined,
  canonicalize_dir-eq, canonical_same, approved-settled, check_directory-eq,
}

-- A name in a clean path.
abbrev pub IsName : Str → Type 0
IsName n = (n ≢ []) × (n ≢ str ".") × (n ≢ str "..")

without_last-All : (path : FilePath) → All IsName path → All IsName (without_last path)
without_last-All [] h = tt
without_last-All (n ∷ []) h = tt
without_last-All (n ∷ m ∷ names) h = (h.0, without_last-All (m ∷ names) h.1)

enter-All : (path : FilePath) (name : Str) → All IsName path → All IsName (enter path name)
unfolding enter
enter-All path name h = elim (Bool-cases (name == [] || name == str ".")) [
  | inl stays ↦ rw stays h
  | inr moves ↦ rw moves (elim (Bool-cases (name == str "..")) [
    | inl up ↦ rw up (without_last-All path h)
    | inr down ↦ rw down (
        All-append IsName path (name ∷ []) h
          ((ground (arith, moves), ground (arith, moves), ground (arith, down)), tt))
  ])
]

walk-All : (path : FilePath) (names : List Str) → All IsName path → All IsName (walk path names)
unfolding walk
walk-All path [] h = h
walk-All path (n ∷ names) h = walk-All (enter path n) names (enter-All path n h)

-- Walking down names of a clean path only appends them.
walk_down :
    (path : FilePath) (names : List Str) → All IsName names → walk path names ≡ path ++ names
unfolding walk enter
walk_down path [] h = sym (append-nil path)
walk_down path (n ∷ names) h =
    let step : enter path n ≡ path ++ n ∷ [] = ground (arith, h.0) in
    ap (λ p. walk p names) step
    ∙ walk_down (path ++ n ∷ []) names h.1
    ∙ append_assoc path (n ∷ []) names

All-below : (path names : List Str) → All IsName (path ++ names) → All IsName names
All-below [] names h = h
All-below (n ∷ path) names h = All-below path names h.1

-- What the operating system does with clean paths: what it resolved is clean and resolves to itself,
-- and below a path and below what it resolves to stand the same files.
pub record IsPosix (F : FileSystem) : Type 0 where
  pub settled : IsSettled F
  pub clean : (p q : FilePath) → F.eval_symlinks p ≡ some q → All IsName q
  pub same_files :
      (p q : FilePath) (names : List Str)
      → F.eval_symlinks p ≡ some q
      → F.lstat (p ++ names) ≡ Entry.missing
      → F.is_directory (q ++ names) ≢ some true

module _ (F : FileSystem) where
  found_at-eq :
      (x : Entry) (path : FilePath) (below : List Str) (higher : Result (FilePath × List Str))
      {found : FilePath × List Str}
      → found_at F x path below higher ≡ ok found
      → ((x ≡ Entry.missing) × (higher ≡ ok found)) ⊎ ((path, below) ≡ found)
  found_at-eq Entry.missing path below higher e = inl (refl, e)
  found_at-eq Entry.unreadable path below higher e = cc
  found_at-eq Entry.symlink path below higher e = inr (ok-injective e)
  found_at-eq Entry.other path below higher e = inr (ok-injective e)

  -- The ancestor and the names below it make up the path; there are such names only where nothing
  -- stands at the path.
  abbrev Splits : FilePath → List Str → FilePath × List Str → Type 0
  Splits path below found =
      (path ++ below ≡ found.0 ++ found.1) × ((found.1 ≡ below) ⊎ (F.lstat path ≡ Entry.missing))

  Splits-here :
      (path : FilePath) (below : List Str) {found : FilePath × List Str}
      → (path, below) ≡ found
      → Splits path below found
  Splits-here path below e = subst (Splits path below) e (refl, inl refl)

  ascend-Splits :
      (above below : List Str) {found : FilePath × List Str}
      → ascend F above below ≡ ok found
      → Splits (reverse above) below found
  unfolding ascend
  ascend-Splits [] below e = elim (found_at-eq (F.lstat []) [] below (err path_failed) e) [
    | inl none_there ↦ let wrong = none_there.1 in cc
    | inr here ↦ Splits-here [] below here
  ]
  ascend-Splits (n ∷ above) below {found} e =
      let path = reverse (n ∷ above) in
      elim (found_at-eq (F.lstat path) path below (ascend F above (n ∷ below)) e) [
        | inr here ↦ Splits-here path below here
        | inl (gone, higher) ↦
            let r = ascend-Splits above (n ∷ below) higher in
            (
              ap (λ l. l ++ below) (reverse-cons n above)
                  ∙ append_assoc (reverse above) (n ∷ []) below
                  ∙ r.0,
              inr gone,
            )
      ]

  -- A directory that was resolved below a root is what the system resolves it to.
  resolved-settled :
      (candidate : FilePath) {path : FilePath}
      → IsPosix F
      → All IsName candidate
      → resolve_via_existing_ancestor F candidate ≡ ok path
      → F.is_directory path ≡ some true
      → (given : FilePath) × (F.eval_symlinks given ≡ some path)
  unfolding resolve_via_existing_ancestor
  resolved-settled candidate {path} posix names e is_dir =
      let (found, ascended, e1) = and_then-eq-ok (ascend F (reverse candidate) []) _ e in
      let (ancestor, evaluated, e2) =
        and_then-eq-ok (or_fail path_failed (F.eval_symlinks found.0)) _ e1 in
      let resolves = or_fail-eq-ok path_failed (F.eval_symlinks found.0) evaluated in
      let split = ascend-Splits (reverse candidate) [] ascended in
      let whole : candidate ≡ found.0 ++ found.1 =
        sym (reverse-reverse candidate)
        ∙ sym (append-nil (reverse (reverse candidate)))
        ∙ split.0 in
      let below = All-below found.0 found.1 (subst (All IsName) whole names) in
      let is_path : path ≡ ancestor ++ found.1 =
        sym (ok-injective e2) ∙ walk_down ancestor found.1 below in
      elim split.1 [
        | inl nothing ↦ (
          found.0,
          resolves
              ∙ ap some
                  (sym (append-nil ancestor) ∙ ap (λ l. ancestor ++ l) (sym nothing) ∙ sym is_path),
        )
        | inr gone ↦ absurd (
            posix.same_files found.0 ancestor found.1 resolves
              (ap F.lstat (sym whole ∙ sym (reverse-reverse candidate)) ∙ gone)
              (ap F.is_directory (sym is_path) ∙ is_dir))
      ]

  -- A canonical root is one that the system resolved a path to.
  canonical-settled :
      (root : FilePath) {canonical : FilePath}
      → canonicalize_dir F root ≡ ok canonical
      → (given : FilePath) × (F.eval_symlinks given ≡ some canonical)
  canonical-settled root e = (root, (canonicalize_dir-eq F root e).0)

  -- A work directory resolves to itself.
  work_dir-settled :
      (root : FilePath) (user : Str) {base : FilePath}
      → IsPosix F
      → resolve_under_root F root user true ≡ ok base
      → (given : FilePath) × (F.eval_symlinks given ≡ some base)
  unfolding resolve_under_root
  work_dir-settled root user {base} posix e =
      let c = resolve_under_root-IsConfined F root user true e in
      let (r, canonical, e1) = and_then-eq-ok (canonicalize_dir F root) _ e in
      let start = if is_abs user then [] else r in
      let names : All IsName start =
        start-All (is_abs user) r (posix.clean root r (canonicalize_dir-eq F root canonical).0) in
      let candidate = walk start (split_on b'/' user) in
      let (p, resolved, e2) = and_then-eq-ok (resolve_via_existing_ancestor F candidate) _ e1 in
      elim (Bool-cases (is_subpath r p)) [
        | inr outside ↦ ground (arith, outside, e2)
        | inl inside ↦
            let checked : check_directory F true p ≡ ok base = ground (arith, inside, e2) in
            let same = (check_directory-eq F true p checked).0 in
            resolved-settled candidate posix (walk-All start (split_on b'/' user) names)
              (resolved ∙ ap ok (sym same)) (c.is_dir refl)
      ]
    where
      start-All : (b : Bool) (r : FilePath) → All IsName r → All IsName (if b then [] else r)
      start-All true r h = tt
      start-All false r h = h

  -- The base of a bounded path: the approved root, or the work directory where one is given.
  abbrev pub base_of : FilePath → Str → Result FilePath
  base_of root prefer_root =
      if trim_space prefer_root == [] then ok root else resolve_under_root F root prefer_root true

  -- A base lies under the root and resolves to itself.
  base-settled :
      (root : FilePath) (prefer_root : Str) {base : FilePath}
      → IsPosix F
      → approved_root F ≡ ok root
      → base_of root prefer_root ≡ ok base
      → IsUnder root base × ((given : FilePath) × (F.eval_symlinks given ≡ some base))
  base-settled root prefer_root {base} posix approved e =
      let (given, resolved, is_dir) = approved-settled F approved in
      elim (Bool-cases (trim_space prefer_root == [])) [
        | inl empty ↦
            let same : root ≡ base = ok-injective (ground (arith, empty, e)) in
            (subst (IsUnder root) same (IsUnder-refl root), (given, resolved ∙ ap some same))
        | inr named ↦
            let found : resolve_under_root F root prefer_root true ≡ ok base =
              ground (arith, named, e) in
            let c = resolve_under_root-IsConfined F root prefer_root true found in
            let same =
              canonical_same F posix.settled given root c.canonical resolved c.is_canonical in
            (
              subst (λ r. IsUnder r base) same c.under,
              work_dir-settled root prefer_root posix found,
            )
      ]

  -- A path that the MCP server lets through lies under the approved root, and under the work
  -- directory where one is given, if what the system resolved is clean and resolves to itself,
  -- and below a path and below what it resolves to stand the same files.
  pub require_bounded_path-IsUnder :
      (path prefer_root : Str) {resolved : FilePath}
      → IsPosix F
      → require_bounded_path F path prefer_root ≡ ok resolved
      → (root : FilePath) × (approved_root F ≡ ok root)
        × IsUnder root resolved
        × ((base : FilePath) × (base_of root prefer_root ≡ ok base) × IsUnder base resolved)
  unfolding require_bounded_path
  require_bounded_path-IsUnder path prefer_root {resolved} posix e =
      elim (Bool-cases (trim_space path == [])) [
        | inl empty ↦ ground (arith, empty, e)
        | inr named ↦
            let e' : and_then (approved_root F) (λ root.
              and_then (base_of root prefer_root) (λ base. resolve_under_root F base path false))
                ≡ ok resolved =
              ground (arith, named, e) in
            let (root, approved, e1) = and_then-eq-ok (approved_root F) _ e' in
            let (base, is_base, e2) = and_then-eq-ok (base_of root prefer_root) _ e1 in
            let (under_root, (given, settles)) =
              base-settled root prefer_root posix approved is_base in
            let c = resolve_under_root-IsConfined F base path false e2 in
            let same =
              canonical_same F posix.settled given base c.canonical settles c.is_canonical in
            let under_base = subst (λ b. IsUnder b resolved) same c.under in
            (root, approved, IsUnder-trans under_root under_base, (base, is_base, under_base))
      ]
