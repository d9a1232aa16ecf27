-- ===== src/Redact/Pattern.antt =====
-- Regular expressions over bytes, as go/trajir/redact/redact.go uses package regexp: `MatchString`
-- asks whether some part of a text matches. Matching is by derivatives.
use trajectory_irmrd.Base.{
  ℕ, zero, suc, ◌-◌, Bool, true, false, ◌&&◌, ◌||◌, [], ◌∷◌, List, ◌==◌, if◌then◌else◌, Str, nat_eq,
}

pub data Pattern : Type 0 where
  nothing : Pattern
  nil : Pattern
  byte : (ℕ → Bool) → Pattern
  alt : Pattern → Pattern → Pattern
  seq : Pattern → Pattern → Pattern
  star : Pattern → Pattern

unfoldable pub nullable : Pattern → Bool
nullable nothing = false
nullable nil = true
nullable (byte f) = false
nullable (alt p q) = nullable p || nullable q
nullable (seq p q) = nullable p && nullable q
nullable (star p) = true

-- What is left to match after the byte `c`. The first two forms drop parts that match nothing.
abbrev alt' : Pattern → Pattern → Pattern
alt' nothing q = q
alt' p nothing = p
alt' p q = alt p q

abbrev seq' : Pattern → Pattern → Pattern
seq' nothing q = nothing
seq' nil q = q
seq' p q = seq p q

unfoldable pub derive : ℕ → Pattern → Pattern
unfolding nullable
derive c nothing = nothing
derive c nil = nothing
derive c (byte f) = if f c then nil else nothing
derive c (alt p q) = alt' (derive c p) (derive c q)
derive c (seq p q) = alt' (seq' (derive c p) q) (if nullable p then derive c q else nothing)
derive c (star p) = seq' (derive c p) (star p)

-- `live` are the matches under way; `p` may start at every byte.
search_from : Pattern → Pattern → Str → Bool
unfolding derive nullable
search_from p live [] = nullable live
search_from p live (c ∷ s) = nullable live || search_from p (alt' (derive c live) p) s

unfoldable pub match_string : Pattern → Str → Bool
unfolding search_from
match_string p s = search_from p p s

abbrev pub one : ℕ → Pattern
one b = byte (λ c. c == b)

abbrev pub literal : Str → Pattern
literal [] = nil
literal (b ∷ s) = seq (one b) (literal s)

abbrev pub opt : Pattern → Pattern
opt p = alt nil p

-- p{n} and p{n,}
abbrev pub times : ℕ → Pattern → Pattern
times zero p = nil
times (suc n) p = seq p (times n p)

abbrev pub at_least : ℕ → Pattern → Pattern
at_least n p = seq (times n p) (star p)

-- Under (?i) a letter matches both its cases; `s` also U+017F and `k` also U+212A.
abbrev pub fold_case : ℕ → Pattern
fold_case b =
    let cased = alt (one b) (one (b - 32)) in
    if b == b's'
    then alt cased (literal (0xc5 ∷ 0xbf ∷ []))
    else if b == b'k'
    then alt cased (literal (0xe2 ∷ 0x84 ∷ 0xaa ∷ []))
    else cased

abbrev pub literal_fold : Str → Pattern
literal_fold [] = nil
literal_fold (b ∷ s) = seq (fold_case b) (literal_fold s)

abbrev pub alts : List Pattern → Pattern
alts [] = nothing
alts (p ∷ ps) = alt p (alts ps)
