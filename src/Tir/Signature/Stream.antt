-- ===== src/Tir/Signature/Stream.antt =====
-- The stream that the payload hash is taken of.
use trajectory_irmrd.Base.{
  ℕ, zero, suc, ◌/◌, ◌%◌, ◌^◌, ◌<◌, ◌≡◌, refl, sym, ap, ◌∙◌, [], ◌∷◌, ◌++◌, map, arith, length,
  length-append, Str, All,
}
use trajectory_irmrd.Tir.Signature.{Crypto, Members, big_endian, stream}

length-big_endian : (k n : ℕ) → length (big_endian k n) ≡ k
unfolding big_endian
length-big_endian zero n = refl
length-big_endian (suc k) n =
    omega (
      arith,
      length-append (big_endian k (n / 256)) ((n % 256) ∷ []),
      length-big_endian k (n / 256),
    )

-- Two texts whose first parts have one length agree part by part.
split_at : (a b : Str) {s t : Str} → length a ≡ length b → a ++ s ≡ b ++ t → (a ≡ b) × (s ≡ t)
split_at [] [] l e = (refl, e)
split_at [] (d ∷ b) l e = absurd (omega (arith, l))
split_at (c ∷ a) [] l e = absurd (omega (arith, l))
split_at (c ∷ a) (d ∷ b) {s} {t} l e =
    let tails : a ++ s ≡ b ++ t = cc in
    let heads : c ≡ d = cc in
    let r = split_at a b (omega (arith, l)) tails in
    let whole : (c ∷ a) ≡ (d ∷ b) = cc (heads, r.0) in (whole, r.1)

big_endian_injective :
    (k n m : ℕ) → n < 256 ^ k → m < 256 ^ k → big_endian k n ≡ big_endian k m → n ≡ m
unfolding big_endian
big_endian_injective zero n m hn hm e = omega arith
big_endian_injective (suc k) n m hn hm e =
    let l = length-big_endian k (n / 256) ∙ sym (length-big_endian k (m / 256)) in
    let r = split_at (big_endian k (n / 256)) (big_endian k (m / 256)) l e in
    let last : n % 256 ≡ m % 256 = cc (r.1) in
    let high : n / 256 ≡ m / 256 =
      big_endian_injective k (n / 256) (m / 256) (omega arith) (omega arith) r.0 in
    omega (arith, high, last)

-- A name whose length the stream can write.
abbrev pub IsShort : (Str × Str) → Type 0
IsShort m = length m.0 < 256 ^ 8

abbrev pub digest_of : Crypto → (Str × Str) → Str × Str
digest_of C m = (m.0, C.sha256 m.1)

big_endian-not_empty : (n : ℕ) (s : Str) → big_endian 8 n ++ s ≡ [] → ⊥
big_endian-not_empty n s e =
    omega (arith, length-append (big_endian 8 n) s, length-big_endian 8 n, ap length e)

-- One stream comes from one sequence of names and of hashes of bodies, where a hash has 32 bytes.
pub stream_injective :
    (C : Crypto) (a b : Members)
    → ((body : Str) → length (C.sha256 body) ≡ 32)
    → All IsShort a
    → All IsShort b
    → stream C a ≡ stream C b
    → map (digest_of C) a ≡ map (digest_of C) b
unfolding stream
stream_injective C [] [] hash sa sb e = refl
stream_injective C [] (m ∷ b) hash sa sb e = absurd (big_endian-not_empty (length m.0) _ (sym e))
stream_injective C (m ∷ a) [] hash sa sb e = absurd (big_endian-not_empty (length m.0) _ e)
stream_injective C (m ∷ a) (n ∷ b) hash sa sb e =
    let l = length-big_endian 8 (length m.0) ∙ sym (length-big_endian 8 (length n.0)) in
    let lengths = split_at (big_endian 8 (length m.0)) (big_endian 8 (length n.0)) l e in
    let same = big_endian_injective 8 (length m.0) (length n.0) sa.0 sb.0 lengths.0 in
    let names = split_at m.0 n.0 same lengths.1 in
    let hashes = split_at (C.sha256 m.1) (C.sha256 n.1) (hash m.1 ∙ sym (hash n.1)) names.1 in
    let rest = stream_injective C a b hash sa.1 sb.1 hashes.1 in cc (names.0, hashes.0, rest)
