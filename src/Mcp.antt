-- ===== src/Mcp.antt =====
-- Path confinement of the MCP server, go/trajir/mcp/paths.go. An absolute and clean path is the list
-- of its names below `/`; the separator is a slash. What the operating system says of paths is a
-- record of functions, the same during one call.
pub mod Confinement
pub mod Bounded
mod Tests
use trajectory_irmrd.Base.{
  Bool, true, false, ◌&&◌, ◌||◌, not, Option, none, some, List, [], ◌∷◌, ◌++◌, reverse,
  if◌then◌else◌, ◌==◌, has_prefix, Str, str, str_eq, Result, ok, err, and_then, or_fail, no_root,
  no_path, path_failed, path_escapes, no_directory, is_symlink,
}
use trajectory_irmrd.Base.Space.{trim_space}
use trajectory_irmrd.Tir.{split_on}

abbrev pub FilePath : Type 0
FilePath = List Str

-- What `os.Lstat` finds.
pub data Entry : Type 0 where
  missing unreadable symlink other : Entry

pub record FileSystem : Type 0 where
  -- TRAJIR_MCP_ROOT, and the working directory of the process
  pub root_variable : Str
  pub working_directory : FilePath
  pub lstat : FilePath → Entry
  -- filepath.EvalSymlinks; `none` is an error
  pub eval_symlinks : FilePath → Option FilePath
  -- whether os.Stat finds a directory; `none` is an error
  pub is_directory : FilePath → Option Bool

abbrev pub without_last : FilePath → FilePath
without_last [] = []
without_last (n ∷ []) = []
without_last (n ∷ m ∷ names) = n ∷ without_last (m ∷ names)

-- One name of a path that is cleaned: `.` stays, `..` goes up, and up from `/` is `/`.
unfoldable pub enter : FilePath → Str → FilePath
enter path name =
    if name == [] || name == str "."
    then path
    else if name == str ".."
    then without_last path
    else path ++ name ∷ []

-- `filepath.Clean` of the names below an absolute path, and `filepath.Join` to it.
unfoldable pub walk : FilePath → List Str → FilePath
unfolding enter
walk path [] = path
walk path (name ∷ names) = walk (enter path name) names

-- `filepath.IsAbs`
abbrev pub is_abs : Str → Bool
is_abs path = has_prefix path (str "/")

-- `filepath.Rel` of clean absolute paths: up from what is left of the root, then down.
abbrev pub up_from : FilePath → List Str
up_from [] = []
up_from (n ∷ names) = str ".." ∷ up_from names

unfoldable pub rel : FilePath → FilePath → List Str
rel [] target = target
rel (r ∷ root) [] = up_from (r ∷ root)
rel (r ∷ root) (t ∷ target) =
    let rest = rel root target in if r == t then rest else up_from (r ∷ root) ++ (t ∷ target)

abbrev pub goes_up : List Str → Bool
goes_up [] = false
goes_up (n ∷ names) = n == str ".."

unfoldable pub is_subpath : FilePath → FilePath → Bool
unfolding rel
is_subpath root target = not (goes_up (rel root target))

module _ (F : FileSystem) where
  -- `filepath.Abs`
  unfoldable pub abs_path : Str → FilePath
  unfolding walk
  abs_path path = walk (if is_abs path then [] else F.working_directory) (split_on b'/' path)

  abbrev pub directory : Option Bool → FilePath → Result FilePath
  directory none path = err path_failed
  directory (some false) path = err no_directory
  directory (some true) path = ok path

  -- The path itself once it is resolved, where it is a directory.
  unfoldable pub canonicalize_dir : FilePath → Result FilePath
  canonicalize_dir path =
      and_then (or_fail path_failed (F.eval_symlinks path))
        (λ resolved. directory (F.is_directory resolved) resolved)

  unfoldable pub approved_root : Result FilePath
  unfolding abs_path canonicalize_dir
  approved_root =
      let root = trim_space F.root_variable in
      if root == [] then err no_root else canonicalize_dir (abs_path root)

  -- One round of the loop upwards, by what stands at the path.
  abbrev pub found_at :
      Entry → FilePath → List Str → Result (FilePath × List Str) → Result (FilePath × List Str)
  found_at Entry.missing path below higher = higher
  found_at Entry.unreadable path below higher = err path_failed
  found_at Entry.symlink path below higher = ok (path, below)
  found_at Entry.other path below higher = ok (path, below)

  -- The loop, on the names from the last to the first: the nearest ancestor that exists, and the names
  -- below it.
  unfoldable pub ascend : List Str → List Str → Result (FilePath × List Str)
  ascend [] below = found_at (F.lstat []) [] below (err path_failed)
  ascend (name ∷ above) below =
      found_at (F.lstat (reverse (name ∷ above))) (reverse (name ∷ above)) below
        (ascend above (name ∷ below))

  unfoldable pub resolve_via_existing_ancestor : FilePath → Result FilePath
  unfolding ascend walk
  resolve_via_existing_ancestor path = and_then (ascend (reverse path) []) (λ found.
      and_then (or_fail path_failed (F.eval_symlinks found.0))
        (λ ancestor. ok (walk ancestor found.1)))

  -- What `requireDir` asks of a resolved path.
  abbrev pub check_directory : Bool → FilePath → Result FilePath
  check_directory false path = ok path
  check_directory true path = directory (F.is_directory path) path

  unfoldable pub resolve_under_root : FilePath → Str → Bool → Result FilePath
  unfolding canonicalize_dir resolve_via_existing_ancestor walk
  resolve_under_root root user_path require_dir = and_then (canonicalize_dir root) (λ root_abs.
      let candidate = walk (if is_abs user_path then [] else root_abs) (split_on b'/' user_path) in
      and_then (resolve_via_existing_ancestor candidate) (λ resolved.
        if not (is_subpath root_abs resolved)
        then err path_escapes
        else check_directory require_dir resolved))

  unfoldable pub require_bounded_work_dir : Str → Result FilePath
  unfolding approved_root resolve_under_root
  require_bounded_work_dir work_dir =
      and_then approved_root (λ root.
        if trim_space work_dir == [] then ok root else resolve_under_root root work_dir true)

  unfoldable pub require_bounded_path : Str → Str → Result FilePath
  unfolding approved_root resolve_under_root
  require_bounded_path path prefer_root =
      if trim_space path == []
      then err no_path
      else and_then approved_root (λ root.
        and_then
          (if trim_space prefer_root == []
            then ok root
            else resolve_under_root root prefer_root true)
          (λ base. resolve_under_root base path false))

  -- What is done with a leaf, by what stands there.
  unfoldable pub check_leaf : FilePath → FilePath → Entry → Result (Unit {0})
  unfolding resolve_via_existing_ancestor is_subpath
  check_leaf root leaf Entry.missing = ok tt
  check_leaf root leaf Entry.unreadable = err path_failed
  check_leaf root leaf Entry.symlink = err is_symlink
  check_leaf root leaf Entry.other =
      and_then (resolve_via_existing_ancestor leaf)
        (λ resolved. if not (is_subpath root resolved) then err path_escapes else ok tt)

  unfoldable pub require_non_symlink_leaf : FilePath → FilePath → Result (Unit {0})
  unfolding check_leaf
  require_non_symlink_leaf root leaf = check_leaf root leaf (F.lstat leaf)

  unfoldable pub workdir_sqlite_paths : FilePath → Result (FilePath × FilePath)
  unfolding approved_root require_non_symlink_leaf
  workdir_sqlite_paths work_dir =
      let nodes_path = work_dir ++ str "nodes.sqlite" ∷ [] in
      let memo_path = work_dir ++ str "memo.sqlite" ∷ [] in
      and_then approved_root (λ root.
        and_then (require_non_symlink_leaf root nodes_path) (λ _.
          and_then (require_non_symlink_leaf root memo_path) (λ _. ok (nodes_path, memo_path))))
