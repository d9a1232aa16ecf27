-- ===== src/Base/Decimal.antt =====
-- `strconv.Itoa`, and `%d`: the decimal form of an `int`.
use trajectory_irmrd.Base.Logic.{Bool-cases, ltb, if◌then◌else◌}
use trajectory_irmrd.Base.Text.{Str}
use trajectory_irmrd.Base.Int.{ℤ, pos, negsuc}
use trajectory_irmrd.Base.Lists.{All, All-append}
use Prim.Native.Nat.{ℕ, zero, suc, ◌+◌, ◌-◌, ◌*◌, ◌/◌, ◌%◌, ◌≤◌, ◌<◌}
use mathlib.Core.Path.{◌≡◌, refl, ap, sym, ◌∙◌}
use mathlib.Core.Logic.{◌≢◌, ◌⊎◌, inl, inr}
use mathlib.Core.List.{[], ◌∷◌, ◌++◌}
use native.Mathlib.Omega.{arith}

-- One digit a round; the fuel bounds the rounds, and a number above it has digits enough.
digits : ℕ → ℕ → Str
digits zero n = []
digits (suc f) n =
    let rest = digits f (n / 10) in if ltb n 10 then (48 + n) ∷ [] else rest ++ (48 + n % 10) ∷ []

unfoldable pub itoa : ℤ → Str
unfolding digits
itoa (pos n) = digits (suc n) n
itoa (negsuc n) = b'-' ∷ digits (suc (suc n)) (suc n)

-- The number that a text of digits stands for.
value : ℕ → Str → ℕ
value acc [] = acc
value acc (c ∷ s) = value (acc * 10 + (c - 48)) s

value-append : (acc c : ℕ) (s : Str) → value acc (s ++ c ∷ []) ≡ value acc s * 10 + (c - 48)
unfolding value
value-append acc c [] = refl
value-append acc c (d ∷ s) = value-append (acc * 10 + (d - 48)) c s

value-digits : (f n : ℕ) → n < f → value 0 (digits f n) ≡ n
unfolding value digits
value-digits zero n h = elim h [ ]
value-digits (suc f) n h =
    ground (arith, value-digits f (n / 10), value-append 0 (48 + n % 10) (digits f (n / 10)))

abbrev IsDigit : ℕ → Type 0
IsDigit c = (48 ≤ c) × (c ≤ 57)

digits-All : (f n : ℕ) → All IsDigit (digits f n)
unfolding digits
digits-All zero n = tt
digits-All (suc f) n = elim (Bool-cases (ltb n 10)) [
  | inl small ↦ rw small ((omega arith, ground arith), tt)
  | inr large ↦ rw large (
      All-append IsDigit (digits f (n / 10)) ((48 + n % 10) ∷ []) (digits-All f (n / 10))
        ((omega arith, omega arith), tt))
]

-- The characters of a decimal form.
abbrev IsItoa : ℕ → Type 0
IsItoa c = (c ≡ 45) ⊎ IsDigit c

digits-IsItoa : (s : Str) → All IsDigit s → All IsItoa s
digits-IsItoa [] h = tt
digits-IsItoa (c ∷ s) h = (inr h.0, digits-IsItoa s h.1)

itoa-All : (z : ℤ) → All IsItoa (itoa z)
unfolding itoa
itoa-All (pos n) = digits-IsItoa (digits (suc n) n) (digits-All (suc n) n)
itoa-All (negsuc n) =
    (inl refl, digits-IsItoa (digits (suc (suc n)) (suc n)) (digits-All (suc (suc n)) (suc n)))

weaken : (s : Str) (b : ℕ) → 57 < b → All IsItoa s → All (λ c. c ≢ b) s
weaken [] b lt h = tt
weaken (c ∷ s) b lt h = (ground arith, weaken s b lt h.1)

-- No byte above the digits stands in a decimal form, `|` for one.
pub itoa-lacks : (z : ℤ) (b : ℕ) → 57 < b → All (λ c. c ≢ b) (itoa z)
itoa-lacks z b lt = weaken (itoa z) b lt (itoa-All z)

digits-ne-dash : (n : ℕ) (s t : Str) → All IsDigit s → s ≢ b'-' ∷ t
digits-ne-dash n [] t h = λ e. cc
digits-ne-dash n (c ∷ s) t h = λ e. ground arith

value-itoa : (n : ℕ) → value 0 (itoa (pos n)) ≡ n
unfolding itoa
value-itoa n = value-digits (suc n) n (omega arith)

tail_of : Str → Str
tail_of [] = []
tail_of (c ∷ s) = s

-- Two integers with one decimal form are equal.
pub itoa_injective : (a b : ℤ) → itoa a ≡ itoa b → a ≡ b
unfolding itoa tail_of
itoa_injective (pos a) (pos b) h = ap pos (sym (value-itoa a) ∙ ap (value 0) h ∙ value-itoa b)
itoa_injective (pos a) (negsuc b) h =
    absurd
      (digits-ne-dash a (digits (suc a) a) (digits (suc (suc b)) (suc b)) (digits-All (suc a) a) h)
itoa_injective (negsuc a) (pos b) h = absurd (
    digits-ne-dash b (digits (suc b) b) (digits (suc (suc a)) (suc a)) (digits-All (suc b) b)
      (sym h))
itoa_injective (negsuc a) (negsuc b) h =
    let e : suc a ≡ suc b =
      sym (value-itoa (suc a)) ∙ ap (λ s. value 0 (tail_of s)) h ∙ value-itoa (suc b) in
    ground arith
