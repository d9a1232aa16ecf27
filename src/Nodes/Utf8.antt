-- ===== src/Nodes/Utf8.antt =====
-- `utf8.ValidString`, which `ValidateIDComponent` calls: Go's table of lead bytes and of the ranges
-- that the next byte must lie in.
use trajectory_irmrd.Base.{
  ℕ, zero, suc, Bool, true, false, ◌&&◌, Option, none, some, [], ◌∷◌, leb, if◌then◌else◌, Str, ◌≡◌,
  refl,
}

-- Between characters, or inside one: how many bytes follow the next, and the next byte's range.
pub data Utf8State : Type 0 where
  ready : Utf8State
  inside : ℕ → ℕ → ℕ → Utf8State

abbrev between : ℕ → ℕ → ℕ → Bool
between lo hi c = leb lo c && leb c hi

lead : ℕ → Option Utf8State
lead c =
    if leb c 0x7f
    then some ready
    else if between 0xc2 0xdf c
    then some (inside 0 0x80 0xbf)
    else if between 0xe0 0xe0 c
    then some (inside 1 0xa0 0xbf)
    else if between 0xe1 0xec c
    then some (inside 1 0x80 0xbf)
    else if between 0xed 0xed c
    then some (inside 1 0x80 0x9f)
    else if between 0xee 0xef c
    then some (inside 1 0x80 0xbf)
    else if between 0xf0 0xf0 c
    then some (inside 2 0x90 0xbf)
    else if between 0xf1 0xf3 c
    then some (inside 2 0x80 0xbf)
    else if between 0xf4 0xf4 c
    then some (inside 2 0x80 0x8f)
    else none

after_next : ℕ → Utf8State
after_next zero = ready
after_next (suc k) = inside k 0x80 0xbf

advance : Utf8State → ℕ → Option Utf8State
unfolding lead after_next
advance ready c = lead c
advance (inside k lo hi) c = if between lo hi c then some (after_next k) else none

run : Option Utf8State → Str → Bool
unfolding advance
run none s = false
run (some ready) [] = true
run (some (inside k lo hi)) [] = false
run (some st) (c ∷ s) = run (advance st c) s

unfoldable pub valid_utf8 : Str → Bool
unfolding run
valid_utf8 s = run (some ready) s

-- An overlong form, a surrogate and a cut-off character are refused; "é" is accepted.
samples :
    (valid_utf8 (0xc3 ∷ 0xa9 ∷ []) ≡ true)
    × (valid_utf8 (0xc0 ∷ 0x80 ∷ []) ≡ false)
    × (valid_utf8 (0xed ∷ 0xa0 ∷ 0x80 ∷ []) ≡ false)
    × (valid_utf8 (0xe2 ∷ 0x82 ∷ []) ≡ false)
unfolding valid_utf8
samples = (refl, refl, refl, refl)
