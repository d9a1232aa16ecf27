-- ===== src/Mcp/Confinement.antt =====
-- Every path that the checks let through lies under the approved root.
use mathlib.Core.Path.{subst}
use mathlib.Core.List.{append_assoc, append-nil}
use trajectory_irmrd.Base.{
  ◌≡◌, ◌≢◌, ◌↔◌, refl, sym, ap, ◌∙◌, inl, inr, Bool, true, false, Option, none, some, List, [], ◌∷◌,
  ◌++◌, arith, All, if◌then◌else◌, ◌==◌, Bool-cases, Str, str, str_eq, ok, and_then-eq-ok,
  ok-injective, or_fail, or_fail-eq-ok, path_failed,
}
use trajectory_irmrd.Base.Space.{trim_space}
use trajectory_irmrd.Tir.{split_on}
use trajectory_irmrd.Mcp.{
  FilePath, FileSystem, Entry, walk, is_abs, rel, is_subpath, abs_path, directory, canonicalize_dir,
  approved_root, resolve_via_existing_ancestor, check_directory, resolve_under_root,
  require_bounded_work_dir, check_leaf, require_non_symlink_leaf, workdir_sqlite_paths,
}

-- The root itself or a path below it.
pub record IsUnder (root path : FilePath) : Type 0 where
  pub below : List Str
  pub eq : path ≡ root ++ below

pub IsUnder-refl : (root : FilePath) → IsUnder root root
IsUnder-refl root = record { below = []; eq = sym (append-nil root) }

pub IsUnder-trans : {a b c : FilePath} → IsUnder a b → IsUnder b c → IsUnder a c
IsUnder-trans {a} {b} {c} x y = record {
  below = x.below ++ y.below;
  eq = y.eq ∙ ap (λ l. l ++ y.below) x.eq ∙ append_assoc a x.below y.below;
}

-- No name is `..`.
abbrev pub IsClean : FilePath → Type 0
IsClean = All (λ n. n ≢ str "..")

pub is_subpath-IsUnder :
    (root target : FilePath) → is_subpath root target ≡ true → IsUnder root target
unfolding is_subpath rel
is_subpath-IsUnder [] target h = record { below = target; eq = refl }
is_subpath-IsUnder (r ∷ root) [] h = ground (arith, h)
is_subpath-IsUnder (r ∷ root) (t ∷ target) h = elim (Bool-cases (r == t)) [
  | inl same ↦
      let u = is_subpath-IsUnder root target (ground (arith, same, h)) in
      record { below = u.below; eq = ground (arith, same, u.eq) }
  | inr other ↦ ground (arith, other, h)
]

subpath_below : (root below : FilePath) → IsClean below → is_subpath root (root ++ below) ≡ true
unfolding is_subpath rel
subpath_below [] [] clean = refl
subpath_below [] (n ∷ below) clean = ground (arith, clean.0)
subpath_below (r ∷ root) below clean = ground (arith, subpath_below root below clean)

IsClean-below : (root below : FilePath) → IsClean (root ++ below) → IsClean below
IsClean-below [] below h = h
IsClean-below (r ∷ root) below h = IsClean-below root below h.1

-- The test of the relative path passes exactly the root itself and the paths below it, for a target
-- in which no name is `..`.
pub is_subpath_iff :
    (root target : FilePath)
    → IsClean target
    → (is_subpath root target ≡ true) ↔ IsUnder root target
is_subpath_iff root target clean = (
  is_subpath-IsUnder root target,
  λ u.
      subst (λ p. is_subpath root p ≡ true) (sym u.eq)
        (subpath_below root u.below (IsClean-below root u.below (subst IsClean u.eq clean))),
)

module _ (F : FileSystem) where
  directory-eq :
      (o : Option Bool) (path : FilePath) {q : FilePath}
      → directory F o path ≡ ok q
      → (q ≡ path) × (o ≡ some true)
  directory-eq none path e = cc
  directory-eq (some false) path e = cc
  directory-eq (some true) path e = (sym (ok-injective e), refl)

  pub check_directory-eq :
      (require_dir : Bool) (path : FilePath) {q : FilePath}
      → check_directory F require_dir path ≡ ok q
      → (q ≡ path) × (require_dir ≡ true → F.is_directory q ≡ some true)
  check_directory-eq false path e = (sym (ok-injective e), λ h. cc)
  check_directory-eq true path e =
      let d = directory-eq (F.is_directory path) path e in (d.0, λ _. ap F.is_directory d.0 ∙ d.1)

  -- A canonical directory is what the system resolves a path to.
  pub canonicalize_dir-eq :
      (path : FilePath) {q : FilePath}
      → canonicalize_dir F path ≡ ok q
      → (F.eval_symlinks path ≡ some q) × (F.is_directory q ≡ some true)
  unfolding canonicalize_dir
  canonicalize_dir-eq path {q} e =
      let (resolved, evaluated, e1) =
        and_then-eq-ok (or_fail path_failed (F.eval_symlinks path)) _ e in
      let d = directory-eq (F.is_directory resolved) resolved e1 in
      (
        or_fail-eq-ok path_failed (F.eval_symlinks path) evaluated ∙ ap some (sym d.0),
        ap F.is_directory d.0 ∙ d.1,
      )

  -- What a resolved path is: under the canonical root, and a directory where one is asked for.
  pub record IsConfined (root : FilePath) (require_dir : Bool) (path : FilePath) : Type 0 where
    pub canonical : FilePath
    pub is_canonical : canonicalize_dir F root ≡ ok canonical
    pub under : IsUnder canonical path
    pub is_dir : require_dir ≡ true → F.is_directory path ≡ some true

  -- A path that is resolved under a root lies under the root's canonical form, and is a directory where
  -- one is asked for.
  pub resolve_under_root-IsConfined :
      (root : FilePath) (user : Str) (require_dir : Bool) {path : FilePath}
      → resolve_under_root F root user require_dir ≡ ok path
      → IsConfined root require_dir path
  unfolding resolve_under_root
  resolve_under_root-IsConfined root user require_dir {path} e =
      let (r, canonical, e1) = and_then-eq-ok (canonicalize_dir F root) _ e in
      let candidate = walk (if is_abs user then [] else r) (split_on b'/' user) in
      let (p, _, e2) = and_then-eq-ok (resolve_via_existing_ancestor F candidate) _ e1 in
      elim (Bool-cases (is_subpath r p)) [
        | inr outside ↦ ground (arith, outside, e2)
        | inl inside ↦
            let checked : check_directory F require_dir p ≡ ok path = ground (arith, inside, e2) in
            let d = check_directory-eq require_dir p checked in
            record {
              canonical = r;
              is_canonical = canonical;
              under = subst (IsUnder r) (sym d.0) (is_subpath-IsUnder r p inside);
              is_dir = d.1;
            }
      ]

  -- What the system resolved resolves to itself.
  abbrev pub IsSettled : Type 0
  IsSettled = (p q : FilePath) → F.eval_symlinks p ≡ some q → F.eval_symlinks q ≡ some q

  -- Below a canonical root, the root's canonical form is the root.
  pub canonical_same :
      (settled : IsSettled) (path root canonical : FilePath)
      → F.eval_symlinks path ≡ some root
      → canonicalize_dir F root ≡ ok canonical
      → canonical ≡ root
  canonical_same settled path root canonical resolved e =
      let c = canonicalize_dir-eq root e in let again = settled path root resolved in cc

  pub approved-settled :
      {root : FilePath}
      → approved_root F ≡ ok root
      → (path : FilePath) × (F.eval_symlinks path ≡ some root) × (F.is_directory root ≡ some true)
  unfolding approved_root
  approved-settled {root} e = elim (Bool-cases (trim_space F.root_variable == [])) [
    | inl unset ↦ ground (arith, unset, e)
    | inr given ↦
        let found : canonicalize_dir F (abs_path F (trim_space F.root_variable)) ≡ ok root =
          ground (arith, given, e) in
        let c = canonicalize_dir-eq (abs_path F (trim_space F.root_variable)) found in
        (abs_path F (trim_space F.root_variable), c.0, c.1)
  ]

  -- A work directory that is let through is a directory under the approved root, if what the system
  -- resolved resolves to itself.
  pub require_bounded_work_dir-IsUnder :
      (work_dir : Str) {path : FilePath}
      → IsSettled
      → require_bounded_work_dir F work_dir ≡ ok path
      → (root : FilePath) × (approved_root F ≡ ok root)
        × IsUnder root path
        × (F.is_directory path ≡ some true)
  unfolding require_bounded_work_dir
  require_bounded_work_dir-IsUnder work_dir {path} settled e =
      let (root, approved, e1) = and_then-eq-ok (approved_root F) _ e in
      let (given, resolved, is_dir) = approved-settled approved in
      elim (Bool-cases (trim_space work_dir == [])) [
        | inl empty ↦
            let same : root ≡ path = ok-injective (ground (arith, empty, e1)) in
            (
              root,
              approved,
              subst (IsUnder root) same (IsUnder-refl root),
              subst (λ p. F.is_directory p ≡ some true) same is_dir,
            )
        | inr named ↦
            let found : resolve_under_root F root work_dir true ≡ ok path =
              ground (arith, named, e1) in
            let c = resolve_under_root-IsConfined root work_dir true found in
            let same = canonical_same settled given root c.canonical resolved c.is_canonical in
            (root, approved, subst (λ r. IsUnder r path) same c.under, c.is_dir refl)
      ]

  -- A leaf that is let through is no symlink, and where it is there it resolves to a path under the
  -- root.
  abbrev pub IsPlainLeaf : FilePath → FilePath → Type 0
  IsPlainLeaf root leaf =
      (F.lstat leaf ≢ Entry.symlink)
      × (F.lstat leaf ≡ Entry.other
          → (resolved : FilePath) × (resolve_via_existing_ancestor F leaf ≡ ok resolved)
            × IsUnder root resolved)

  require_non_symlink_leaf-IsPlainLeaf :
      (root leaf : FilePath) → require_non_symlink_leaf F root leaf ≡ ok tt → IsPlainLeaf root leaf
  unfolding require_non_symlink_leaf check_leaf
  require_non_symlink_leaf-IsPlainLeaf root leaf e = (
    λ linked.
        let refused : check_leaf F root leaf Entry.symlink ≡ ok tt =
          subst (λ x. check_leaf F root leaf x ≡ ok tt) linked e in
        cc,
    λ there.
        let checked : check_leaf F root leaf Entry.other ≡ ok tt =
          subst (λ x. check_leaf F root leaf x ≡ ok tt) there e in
        let (resolved, is_resolved, e1) =
          and_then-eq-ok (resolve_via_existing_ancestor F leaf) _ checked in
        (resolved, is_resolved, is_subpath-IsUnder root resolved (ground (arith, e1))),
  )

  -- The two database paths that the MCP server lets through lie in the work directory and are no
  -- symlinks, and where one of them is there it resolves to a path under the approved root.
  pub workdir_sqlite_paths-IsPlainLeaf :
      (work_dir : FilePath) {nodes memo : FilePath}
      → workdir_sqlite_paths F work_dir ≡ ok (nodes, memo)
      → (root : FilePath) × (approved_root F ≡ ok root)
        × IsPlainLeaf root nodes
        × IsPlainLeaf root memo
        × IsUnder work_dir nodes
        × IsUnder work_dir memo
  unfolding workdir_sqlite_paths
  workdir_sqlite_paths-IsPlainLeaf work_dir {nodes} {memo} e =
      let (root, approved, e1) = and_then-eq-ok (approved_root F) _ e in
      let n = work_dir ++ str "nodes.sqlite" ∷ [] in
      let m = work_dir ++ str "memo.sqlite" ∷ [] in
      let (_, plain_nodes, e2) = and_then-eq-ok (require_non_symlink_leaf F root n) _ e1 in
      let (_, plain_memo, e3) = and_then-eq-ok (require_non_symlink_leaf F root m) _ e2 in
      let pair : (n, m) ≡ (nodes, memo) = ok-injective e3 in
      let leaf_n = require_non_symlink_leaf-IsPlainLeaf root n plain_nodes in
      let leaf_m = require_non_symlink_leaf-IsPlainLeaf root m plain_memo in
      let under_n : IsUnder work_dir n = record { below = str "nodes.sqlite" ∷ []; eq = refl } in
      let under_m : IsUnder work_dir m = record { below = str "memo.sqlite" ∷ []; eq = refl } in
      (
        root,
        approved,
        subst (λ (q : FilePath × FilePath). IsPlainLeaf root q.0) pair leaf_n,
        subst (λ (q : FilePath × FilePath). IsPlainLeaf root q.1) pair leaf_m,
        subst (λ (q : FilePath × FilePath). IsUnder work_dir q.0) pair under_n,
        subst (λ (q : FilePath × FilePath). IsUnder work_dir q.1) pair under_m,
      )
