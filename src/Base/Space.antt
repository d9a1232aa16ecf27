-- ===== src/Base/Space.antt =====
-- `strings.TrimSpace` and `strings.ToLower` on bytes.
use mathlib.Core.Path.{◌≡◌, refl}
use mathlib.Core.Bool.{Bool, false, ◌&&◌, ◌||◌}
use mathlib.Core.List.{[], ◌∷◌, reverse, reverse-cons, reverse-reverse}
use mathlib.Core.Logic.{◌⊎◌}
use native.Mathlib.Omega.{arith}
use trajectory_irmrd.Base.Lists.{All, All-append}
use Prim.Native.Nat.{ℕ, ◌+◌, ◌≤◌, ◌<◌}
use trajectory_irmrd.Base.Logic.{leb, ◌==◌, nat_eq, if◌then◌else◌}
use trajectory_irmrd.Base.Text.{Str, str}

-- Tab, LF, VT, FF, CR and space.
is_ascii_space : ℕ → Bool
unfolding nat_eq
is_ascii_space c = (leb 9 c && leb c 13) || c == 32

-- The two-byte encodings of U+0085 and U+00A0.
is_space_2 : ℕ → ℕ → Bool
unfolding nat_eq
is_space_2 a b = a == 0xc2 && (b == 0x85 || b == 0xa0)

-- The three-byte encodings of U+1680, U+2000 to U+200A, U+2028, U+2029, U+202F, U+205F and U+3000.
is_space_3 : ℕ → ℕ → ℕ → Bool
unfolding nat_eq
is_space_3 a b c =
    (a == 0xe1 && b == 0x9a && c == 0x80)
    || (a == 0xe2
        && b == 0x80
        && ((leb 0x80 c && leb c 0x8a) || c == 0xa8 || c == 0xa9 || c == 0xaf))
    || (a == 0xe2 && b == 0x81 && c == 0x9f)
    || (a == 0xe3 && b == 0x80 && c == 0x80)

-- How many bytes of white space a text starts with, at most one character's worth.
trim_left : Str → Str
unfolding is_ascii_space is_space_2 is_space_3
trim_left [] = []
trim_left (a ∷ []) = if is_ascii_space a then [] else a ∷ []
trim_left (a ∷ b ∷ []) =
    let rest = trim_left (b ∷ []) in
    if is_ascii_space a then rest else if is_space_2 a b then [] else a ∷ b ∷ []
trim_left (a ∷ b ∷ c ∷ s) =
    let rest1 = trim_left (b ∷ c ∷ s) in
    let rest2 = trim_left (c ∷ s) in
    let rest3 = trim_left s in
    if is_ascii_space a
    then rest1
    else if is_space_2 a b
    then rest2
    else if is_space_3 a b c
    then rest3
    else a ∷ b ∷ c ∷ s

-- The same from the end, over the reversed text.
trim_left_reversed : Str → Str
unfolding is_ascii_space is_space_2 is_space_3
trim_left_reversed [] = []
trim_left_reversed (a ∷ []) = if is_ascii_space a then [] else a ∷ []
trim_left_reversed (a ∷ b ∷ []) =
    let rest = trim_left_reversed (b ∷ []) in
    if is_ascii_space a then rest else if is_space_2 b a then [] else a ∷ b ∷ []
trim_left_reversed (a ∷ b ∷ c ∷ s) =
    let rest1 = trim_left_reversed (b ∷ c ∷ s) in
    let rest2 = trim_left_reversed (c ∷ s) in
    let rest3 = trim_left_reversed s in
    if is_ascii_space a
    then rest1
    else if is_space_2 b a
    then rest2
    else if is_space_3 c b a
    then rest3
    else a ∷ b ∷ c ∷ s

unfoldable pub trim_space : Str → Str
unfolding trim_left trim_left_reversed
trim_space s = reverse (trim_left_reversed (reverse (trim_left s)))

-- Capital letters, and the two characters outside ASCII whose lower case is an ASCII letter: U+0130
-- (i) and U+212A (k). Other characters outside ASCII stay as they are: their lower case is outside
-- ASCII too, and every result is only compared with ASCII texts.
unfoldable pub to_lower : Str → Str
unfolding nat_eq
to_lower [] = []
to_lower (a ∷ []) = (if leb b'A' a && leb a b'Z' then a + 32 else a) ∷ []
to_lower (a ∷ b ∷ []) =
    let rest = to_lower (b ∷ []) in
    if a == 0xc4 && b == 0xb0
    then b'i' ∷ []
    else (if leb b'A' a && leb a b'Z' then a + 32 else a) ∷ rest
to_lower (a ∷ b ∷ c ∷ s) =
    let rest1 = to_lower (b ∷ c ∷ s) in
    let rest2 = to_lower (c ∷ s) in
    let rest3 = to_lower s in
    if a == 0xc4 && b == 0xb0
    then b'i' ∷ rest2
    else if a == 0xe2 && b == 0x84 && c == 0xaa
    then b'k' ∷ rest3
    else (if leb b'A' a && leb a b'Z' then a + 32 else a) ∷ rest1

-- A visible ASCII character that is no capital letter.
abbrev pub IsPlainSmall : ℕ → Type 0
IsPlainSmall c = (33 ≤ c) × (c ≤ 126) × ((c < 65) ⊎ (90 < c))

small_not_space : (a : ℕ) → IsPlainSmall a → is_ascii_space a ≡ false
unfolding is_ascii_space nat_eq
small_not_space a h = ground arith

small_not_space_2 : (a b : ℕ) → IsPlainSmall a → is_space_2 a b ≡ false
unfolding is_space_2 nat_eq
small_not_space_2 a b h = ground arith

small_not_space_3 : (a b c : ℕ) → IsPlainSmall a → is_space_3 a b c ≡ false
unfolding is_space_3 nat_eq
small_not_space_3 a b c h = ground arith

trim_left_small : (s : Str) → All IsPlainSmall s → trim_left s ≡ s
unfolding trim_left nat_eq
trim_left_small [] h = refl
trim_left_small (a ∷ []) h = ground arith
trim_left_small (a ∷ b ∷ []) h = ground arith
trim_left_small (a ∷ b ∷ c ∷ s) h =
    rw (small_not_space a h.0, small_not_space_2 a b h.0, small_not_space_3 a b c h.0) refl

trim_left_reversed_small : (s : Str) → All IsPlainSmall s → trim_left_reversed s ≡ s
unfolding trim_left_reversed nat_eq
trim_left_reversed_small [] h = refl
trim_left_reversed_small (a ∷ []) h = ground arith
trim_left_reversed_small (a ∷ b ∷ []) h = ground arith
trim_left_reversed_small (a ∷ b ∷ c ∷ s) h =
    rw (small_not_space a h.0, small_not_space_2 b a h.1.0, small_not_space_3 c b a h.1.1.0) refl

All-reverse : (s : Str) → All IsPlainSmall s → All IsPlainSmall (reverse s)
All-reverse [] h = tt
All-reverse (c ∷ s) h =
    rw (reverse-cons c s)
      (All-append IsPlainSmall (reverse s) (c ∷ []) (All-reverse s h.1) (h.0, tt))

-- Such a text is not trimmed.
pub trim_space_small : (s : Str) → All IsPlainSmall s → trim_space s ≡ s
unfolding trim_space
trim_space_small s h =
    rw (trim_left_small s h, trim_left_reversed_small (reverse s) (All-reverse s h))
      (reverse-reverse s)

-- Nor changed by `ToLower`.
pub to_lower_small : (s : Str) → All IsPlainSmall s → to_lower s ≡ s
unfolding to_lower nat_eq
to_lower_small [] h = refl
to_lower_small (a ∷ []) h = ground arith
to_lower_small (a ∷ b ∷ []) h = ground (arith, to_lower_small (b ∷ []) h.1)
to_lower_small (a ∷ b ∷ c ∷ s) h = ground (arith, to_lower_small (b ∷ c ∷ s) h.1)

samples : (trim_space (str "  a b\n") ≡ str "a b") × (to_lower (str "SandBox") ≡ str "sandbox")
unfolding trim_space to_lower
samples = (refl, refl)
