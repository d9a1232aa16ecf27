-- ===== src/Base/Int.antt =====
-- Go's `int`: 64-bit signed integers. A value is an integer; `next` keeps the wrap-around.
use Prim.Native.Nat.{ℕ, zero, suc, ◌-◌, ◌^◌}
use mathlib.Core.Bool.{Bool}
use native.Mathlib.Decide.{ℕ_discrete}
use trajectory_irmrd.Base.Logic.{Eq, ltb, leb, if◌then◌else◌}

-- `negsuc n` is -(n + 1).
pub data ℤ : Type 0 where
  pos : ℕ → ℤ
  negsuc : ℕ → ℤ

int_dec : Discrete ℤ
unfolding ℕ_discrete
int_dec = hlevel ℕ_discrete

instance unfoldable pub int_eq : Eq ℤ
unfolding int_dec
int_eq = record { dec = int_dec }

abbrev pub max_int : ℕ
max_int = 2 ^ 63 - 1

-- `n + 1` on `int`.
abbrev pub next : ℤ → ℤ
next (pos n) = if leb max_int n then negsuc max_int else pos (suc n)
next (negsuc zero) = pos 0
next (negsuc (suc n)) = negsuc n

abbrev pub minus_one : ℤ
minus_one = negsuc 0

-- `a < b`.
abbrev pub lt_int : ℤ → ℤ → Bool
lt_int (pos a) (pos b) = ltb a b
lt_int (pos a) (negsuc b) = Bool.false
lt_int (negsuc a) (pos b) = Bool.true
lt_int (negsuc a) (negsuc b) = ltb b a
