-- ===== src/Tir/Load/Checks.antt =====
-- What `Load` checks of the decoded contents: go/trajir/tir/tir.go, the block under `verify`.
use trajectory_irmrd.Base.{
  Bool, true, false, ◌&&◌, not, Option, none, some, List, [], ◌∷◌, if◌then◌else◌, ◌==◌, Str, str,
  str_eq, option_eq, as_text, Fields, get_text, Result, ok, err, and_then, tir_verification, Env,
}
use trajectory_irmrd.Tir.{verify_all, seals_from_nodes, at_key, mode_thin, mode_fat}

abbrev pub or_else : Option Fields → Option Fields → Option Fields
or_else none s = s
or_else (some t) s = some t

-- `byID[id]`: the last seal under a node id.
unfoldable pub find_seal : Str → List Fields → Option Fields
find_seal id [] = none
find_seal id (s ∷ seals) =
    or_else (find_seal id seals)
      (if as_text (at_key (str "node_id") s) == some id then some s else none)

-- The seal that is there for one that must be.
abbrev pub check_found : Fields → Option Fields → Result (Unit {0})
check_found wanted none = err tir_verification
check_found wanted (some got) =
    if not (get_text (str "content_hash") got == get_text (str "content_hash") wanted)
    then err tir_verification
    else ok tt

unfoldable pub check_seals : List Fields → List Fields → Result (Unit {0})
check_seals seals [] = ok tt
check_seals seals (wanted ∷ more) =
    and_then (check_found wanted (find_seal (get_text (str "node_id") wanted) seals))
      (λ _. check_seals seals more)

unfoldable pub has_bytes : Str → List (Str × Str) → Bool
has_bytes h [] = false
has_bytes h (a ∷ artifacts) = if h == a.0 then true else has_bytes h artifacts

unfoldable pub have_bytes : List Fields → List (Str × Str) → Bool
unfolding has_bytes
have_bytes [] artifacts = true
have_bytes (entry ∷ entries) artifacts =
    has_bytes (get_text (str "content_hash") entry) artifacts && have_bytes entries artifacts

abbrev pub is_nil : {A : Type 0} → List A → Bool
is_nil [] = true
is_nil (x ∷ xs) = false

-- The mode of a manifest, thin where it has none.
unfoldable pub mode_of : Fields → Str
mode_of manifest =
    let mode = get_text (str "mode") manifest in if mode == [] then mode_thin else mode

unfoldable pub check_mode : Str → List Fields → List (Str × Str) → Result (Unit {0})
check_mode mode entries artifacts =
    if mode == mode_fat && not (have_bytes entries artifacts)
    then err tir_verification
    else if mode == mode_thin && not (is_nil artifacts)
    then err tir_verification
    else ok tt

module _ (E : Env) where
  unfoldable pub check_contents :
      Fields → List Fields → List Fields → List Fields → List (Str × Str) → Result (Unit {0})
  check_contents manifest nodes seals entries artifacts =
      if is_nil nodes
      then err tir_verification
      else and_then (verify_all E nodes) (λ _. and_then (seals_from_nodes E nodes) (λ expected.
        and_then (check_seals seals expected)
          (λ _. check_mode (mode_of manifest) entries artifacts)))
