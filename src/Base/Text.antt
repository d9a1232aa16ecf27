-- ===== src/Base/Text.antt =====
-- Go strings: sequences of bytes. A literal's bytes are its codes, since every literal is ASCII.
use Prim.Native.Nat.{ℕ}
use Prim.Native.Char.{code}
use Prim.Native.String.{String}
use mathlib.Core.Bool.{Bool, true, false, ◌&&◌, ◌||◌}
use mathlib.Core.List.{List, [], ◌∷◌, reverse}
use native.Mathlib.Decide.{ℕ_discrete}
use trajectory_irmrd.Base.Logic.{ltb, Eq, ◌==◌, nat_eq}

abbrev pub Str : Type 0
Str = List ℕ

abbrev pub str : String → Str
str String.[] = []
str (String.◌∷◌ c s) = code c ∷ str s

str_dec : Discrete Str
unfolding ℕ_discrete
str_dec = hlevel ℕ_discrete

instance unfoldable pub str_eq : Eq Str
unfolding str_dec
str_eq = record { dec = str_dec }

-- `strings.HasPrefix`.
unfoldable pub has_prefix : Str → Str → Bool
unfolding nat_eq
has_prefix s [] = true
has_prefix [] (c ∷ p) = false
has_prefix (a ∷ s) (c ∷ p) = a == c && has_prefix s p

-- `strings.HasSuffix`.
unfoldable pub has_suffix : Str → Str → Bool
unfolding has_prefix
has_suffix s p = has_prefix (reverse s) (reverse p)

-- `strings.ContainsAny`, for a set of ASCII bytes.
unfoldable pub contains_any : Str → Str → Bool
unfolding nat_eq
contains_any [] bytes = false
contains_any (c ∷ s) bytes = one_of c bytes || contains_any s bytes
  where
    one_of : ℕ → Str → Bool
    one_of c [] = false
    one_of c (b ∷ bs) = c == b || one_of c bs

-- `a < b` on strings: the order of their bytes.
unfoldable pub lt_str : Str → Str → Bool
unfolding nat_eq
lt_str a [] = false
lt_str [] (d ∷ b) = true
lt_str (c ∷ a) (d ∷ b) = ltb c d || (c == d && lt_str a b)
