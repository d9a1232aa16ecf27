-- ===== src/Mcp/Tests.antt =====
-- The theorems on paths, where the only directory is /srv.
use mathlib.Core.Path.{subst}
use trajectory_irmrd.Base.{
  Eq, All, ◌≡◌, ◌≢◌, ◌↔◌, refl, sym, ap, inl, inr, true, none, some, [], ◌∷◌, ◌++◌, ◌∙◌, arith,
  if◌then◌else◌, ◌==◌, Bool-cases, has_prefix, str, str_eq, nat_eq, ok,
}
use trajectory_irmrd.Base.Space.{trim_space}
use trajectory_irmrd.Tir.{split_on}
use trajectory_irmrd.Mcp.{
  FilePath, FileSystem, Entry, is_subpath, approved_root, require_bounded_path,
  workdir_sqlite_paths,
}
use trajectory_irmrd.Mcp.Confinement.{
  IsUnder, IsPlainLeaf, is_subpath_iff, workdir_sqlite_paths-IsPlainLeaf,
}
use trajectory_irmrd.Mcp.Bounded.{IsName, IsPosix, base_of, require_bounded_path-IsUnder}

abbrev srv : FilePath
srv = str "srv" ∷ []

instance path_eq : Eq FilePath
path_eq = record { dec = hlevel str_eq.dec }

abbrev only_srv : FileSystem
only_srv = record {
  root_variable = str " /srv/ ";
  working_directory = [];
  lstat = λ p. if p == srv then Entry.other else Entry.missing;
  eval_symlinks = λ p. if p == srv then some p else none;
  is_directory = λ p. if p == srv then some true else none;
}

srv_names : (p q : FilePath) → only_srv.eval_symlinks p ≡ some q → (p ≡ srv) × (q ≡ srv)
srv_names p q e = elim (Bool-cases (p == srv)) [
  | inl here ↦ (ground (arith, here, e), ground (arith, here, e))
  | inr elsewhere ↦ ground (arith, elsewhere, e)
]

srv_only : (p : FilePath) → only_srv.is_directory p ≡ some true → p ≡ srv
srv_only p e = elim (Bool-cases (p == srv)) [
  | inl here ↦ ground (arith, here, e)
  | inr elsewhere ↦ ground (arith, elsewhere, e)
]

Entry-differ : Entry.other ≢ Entry.missing
Entry-differ h = cc

only_srv-IsPosix : IsPosix only_srv
unfolding path_eq str_eq
only_srv-IsPosix = record {
  settled = λ p q e. subst (λ s. only_srv.eval_symlinks s ≡ some s) (sym (srv_names p q e).1) refl;
  clean = λ p q e.
      subst (λ s. All IsName s) (sym (srv_names p q e).1) (((λ h. cc), (λ h. cc), (λ h. cc)), tt);
  same_files = λ p q names e gone is_dir.
      let n = srv_names p q e in
      let same : p ++ names ≡ srv =
        ap (λ l. l ++ names) (n.0 ∙ sym n.1) ∙ srv_only (q ++ names) is_dir in
      let there : only_srv.lstat srv ≡ Entry.missing = ap only_srv.lstat (sym same) ∙ gone in
      Entry-differ there;
}

-- The file `a` of the root, which is not there yet.
require_bounded_path-IsUnder_example :
    (root : FilePath) × (approved_root only_srv ≡ ok root)
    × IsUnder root (str "srv" ∷ str "a" ∷ [])
    × ((base : FilePath) × (base_of only_srv root [] ≡ ok base)
        × IsUnder base (str "srv" ∷ str "a" ∷ []))
unfolding require_bounded_path str_eq trim_space path_eq split_on has_prefix is_subpath
require_bounded_path-IsUnder_example =
    require_bounded_path-IsUnder only_srv (str "x/../a") [] only_srv-IsPosix refl

is_subpath_iff_example :
    (is_subpath srv (str "srv" ∷ str "..secrets" ∷ []) ≡ true)
    ↔ IsUnder srv (str "srv" ∷ str "..secrets" ∷ [])
is_subpath_iff_example =
    is_subpath_iff srv (str "srv" ∷ str "..secrets" ∷ []) ((λ h. cc), ((λ h. cc), tt))

workdir_sqlite_paths-IsPlainLeaf_example :
    (root : FilePath) × (approved_root only_srv ≡ ok root)
    × IsPlainLeaf only_srv root (str "srv" ∷ str "nodes.sqlite" ∷ [])
    × IsPlainLeaf only_srv root (str "srv" ∷ str "memo.sqlite" ∷ [])
    × IsUnder srv (str "srv" ∷ str "nodes.sqlite" ∷ [])
    × IsUnder srv (str "srv" ∷ str "memo.sqlite" ∷ [])
unfolding workdir_sqlite_paths str_eq trim_space path_eq split_on has_prefix
workdir_sqlite_paths-IsPlainLeaf_example = workdir_sqlite_paths-IsPlainLeaf only_srv srv refl
