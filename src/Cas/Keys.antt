-- ===== src/Cas/Keys.antt =====
-- `NormalizeHash` and `ShardKey`.
use trajectory_irmrd.Base.{
  ℕ, ◌≡◌, refl, Bool, true, ◌&&◌, ◌||◌, [], ◌∷◌, ◌++◌, arith, if◌then◌else◌, ◌==◌, length, leb, All,
  Str, str, nat_eq, Result, ok, err, and_then, cas_invalid,
}
use trajectory_irmrd.Base.Space.{
  trim_space, to_lower, IsPlainSmall, trim_space_small, to_lower_small,
}

unfoldable pub is_hex : ℕ → Bool
is_hex c = (leb b'0' c && leb c b'9') || (leb b'a' c && leb c b'f')

unfoldable pub all_hex : Str → Bool
unfolding is_hex
all_hex [] = true
all_hex (c ∷ s) = is_hex c && all_hex s

-- ^[0-9a-f]{64}$
unfoldable pub is_hex64 : Str → Bool
unfolding all_hex nat_eq
is_hex64 h = length h == 64 && all_hex h

unfoldable pub normalize_hash : Str → Result Str
normalize_hash hash =
    let h = to_lower (trim_space hash) in if is_hex64 h then ok h else err cas_invalid

-- `h[:2]` of a text of at least two bytes.
abbrev pub first_two : Str → Str
first_two (a ∷ b ∷ s) = a ∷ b ∷ []
first_two s = s

unfoldable pub shard_key : Str → Result Str
shard_key hash = and_then (normalize_hash hash) (λ h. ok (str "cas/" ++ first_two h ++ b'/' ∷ h))

all_hex-small : (s : Str) → all_hex s ≡ true → All IsPlainSmall s
unfolding all_hex
all_hex-small [] h = tt
all_hex-small (c ∷ s) h = (ground arith, all_hex-small s (ground arith))

is_hex64-all_hex : (h : Str) → is_hex64 h ≡ true → all_hex h ≡ true
unfolding is_hex64
is_hex64-all_hex h n = ground arith

normalize_hash-is_hex64 : (hash : Str) {h : Str} → normalize_hash hash ≡ ok h → is_hex64 h ≡ true
unfolding normalize_hash
normalize_hash-is_hex64 hash e = ground arith

-- A hash in normal form is left as it is.
pub normalize_hash_normal : (h : Str) → is_hex64 h ≡ true → normalize_hash h ≡ ok h
unfolding normalize_hash
normalize_hash_normal h n =
    let small = all_hex-small h (is_hex64-all_hex h n) in
    rw (trim_space_small h small, to_lower_small h small, n) refl

-- NormalizeHash accepts its own results, unchanged.
pub normalize_hash_idem :
    (hash : Str) {h : Str} → normalize_hash hash ≡ ok h → normalize_hash h ≡ ok h
normalize_hash_idem hash {h} e = normalize_hash_normal h (normalize_hash-is_hex64 hash e)
