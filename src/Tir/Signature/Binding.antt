-- ===== src/Tir/Signature/Binding.antt =====
-- What a signature commits to, and signing followed by verification.
use mathlib.Core.Path.{subst}
use trajectory_irmrd.Base.{
  ℕ, ◌/◌, ◌%◌, ◌<◌, ◌≡◌, refl, sym, ap, ◌∙◌, Bool, true, inl, inr, Bool-cases, some, List, [], ◌∷◌,
  ◌++◌, map, filter, arith, length, All, ◌==◌, Str, str_eq, nat_eq, sort_by, sort_by-All, ok,
  and_then, and_then-eq-ok, or_fail, or_fail-eq-ok, tir_signature,
}
use trajectory_irmrd.Base.Space.{
  trim_space, to_lower, IsPlainSmall, trim_space_small, to_lower_small,
}
use trajectory_irmrd.Tir.Signature.{
  Crypto, Members, SignatureDocument, SignatureInfo, SignerMeta, VerifyOptions, no_policy, hex,
  hex_digit, by_name, not_signature, stream, payload_hash_from_members, domain_separated_message,
  document_of, sign_members, key_id, check_scheme, check_signature, check_key_id, check_trust,
  is_trusted, verify_document, verify_signature_bytes,
}
use trajectory_irmrd.Tir.Signature.Stream.{IsShort, digest_of, stream_injective}

-- The members that a signature covers, in the order of their names.
abbrev pub covered : Members → Members
covered members = sort_by by_name (filter not_signature members)

All-filter :
    {A : Type 0} (P : A → Type 0) (p : A → Bool) (xs : List A) → All P xs → All P (filter p xs)
All-filter P p [] h = tt
All-filter P p (x ∷ xs) h = elim (Bool-cases (p x)) [
  | inl kept ↦ rw kept (h.0, All-filter P p xs h.1)
  | inr dropped ↦ rw dropped (All-filter P p xs h.1)
]

covered-IsShort : (members : Members) → All IsShort members → All IsShort (covered members)
covered-IsShort members h =
    sort_by-All IsShort by_name (filter not_signature members)
      (All-filter IsShort not_signature members h)

module _ (C : Crypto) where
  payload_hash-eq :
      (members : Members) {h : Str}
      → payload_hash_from_members C members ≡ ok h
      → h ≡ C.sha256 (stream C (covered members))
  unfolding payload_hash_from_members
  payload_hash-eq members e = ground (arith, e)

  -- The document's payload hash is the hash of the members.
  document_hash :
      (members : Members) (doc : SignatureDocument) (opts : VerifyOptions) {info : SignatureInfo}
      → verify_document C members doc opts ≡ ok info
      → to_lower (trim_space doc.payload_hash) ≡ hex (C.sha256 (stream C (covered members)))
  unfolding verify_document
  document_hash members doc opts e =
      let s = and_then-eq-ok (check_scheme C doc) _ e in
      let h = and_then-eq-ok (payload_hash_from_members C members) _ s.2 in
      let same = payload_hash-eq members h.1 in ground (arith, h.2, same)

-- If one SIGNATURE text verifies with two sets of members, under any two policies, then the two
-- sets have the same names with the same hashes of their bodies, SIGNATURE itself aside, if hashes
-- are 32 bytes long, every name's length fits 64 bits, and SHA-256 does not collide on the two
-- streams.
pub signature_binds_members :
    (C : Crypto) (raw : Str) (a b : Members) (first second : VerifyOptions) {i j : SignatureInfo}
    → ((body : Str) → length (C.sha256 body) ≡ 32)
    → (hex (C.sha256 (stream C (covered a))) ≡ hex (C.sha256 (stream C (covered b)))
        → stream C (covered a) ≡ stream C (covered b))
    → All IsShort a
    → All IsShort b
    → verify_signature_bytes C a raw first ≡ ok i
    → verify_signature_bytes C b raw second ≡ ok j
    → map (digest_of C) (covered a) ≡ map (digest_of C) (covered b)
unfolding verify_signature_bytes
signature_binds_members C raw a b first second hash no_collision sa sb va vb =
    let p = and_then-eq-ok (or_fail tir_signature (C.decode_document raw)) _ va in
    let q = and_then-eq-ok (or_fail tir_signature (C.decode_document raw)) _ vb in
    let one_document : p.0 ≡ q.0 = cc (p.1, q.1) in
    let ha = document_hash C a p.0 first p.2 in
    let hb = document_hash C b q.0 second q.2 in
    stream_injective C (covered a) (covered b) hash (covered-IsShort a sa) (covered-IsShort b sb) (
      no_collision (
        sym ha
        ∙ ap (λ (d : SignatureDocument). to_lower (trim_space d.payload_hash)) one_document
        ∙ hb))

hex_digit-IsPlainSmall : (n : ℕ) → n < 16 → IsPlainSmall (hex_digit n)
unfolding hex_digit
hex_digit-IsPlainSmall n h = ground arith

hex-IsPlainSmall : (s : Str) → All (λ b. b < 256) s → All IsPlainSmall (hex s)
unfolding hex
hex-IsPlainSmall [] h = tt
hex-IsPlainSmall (b ∷ s) h = (
  hex_digit-IsPlainSmall (b / 16) (omega (arith, h.0)),
  (hex_digit-IsPlainSmall (b % 16) (omega arith), hex-IsPlainSmall s h.1),
)

normal_hex : (s : Str) → All (λ b. b < 256) s → to_lower (trim_space (hex s)) ≡ hex s
normal_hex s h =
    let small = hex-IsPlainSmall s h in
    ap to_lower (trim_space_small (hex s) small) ∙ to_lower_small (hex s) small

-- What the libraries document of one key and one signer: sizes, and that what they encode or sign
-- they decode or verify.
pub record IsSound (C : Crypto) (private_key : Str) (meta : SignerMeta) : Type 0 where
  pub hash_bytes : (s : Str) → All (λ b. b < 256) (C.sha256 s)
  pub key_size : length (C.public_of private_key) ≡ 32
  pub signature_size : (m : Str) → length (C.ed25519_sign private_key m) ≡ 64
  pub verifies :
      (m : Str) → C.ed25519_verify (C.public_of private_key) m (C.ed25519_sign private_key m) ≡ true
  pub base64_inverse : (s : Str) → C.base64_decode (C.base64_encode s) ≡ some s
  pub document_inverse :
      (h raw : Str)
      → C.encode_document (document_of C private_key meta h) ≡ some raw
      → C.decode_document (raw ++ 10 ∷ []) ≡ some (document_of C private_key meta h)

module _ (C : Crypto) (private_key : Str) (meta : SignerMeta)
    (sound : IsSound C private_key meta) where
  check_signature_signed :
      (h : Str)
      → check_signature C (document_of C private_key meta h) h ≡ ok (C.public_of private_key)
  unfolding check_signature document_of nat_eq
  check_signature_signed h =
      rw
        (
          sound.base64_inverse (C.public_of private_key),
          sound.base64_inverse (C.ed25519_sign private_key (domain_separated_message C h)),
          sound.key_size,
          sound.signature_size (domain_separated_message C h),
          sound.verifies (domain_separated_message C h),
        )
        refl

  check_scheme_signed : (h : Str) → check_scheme C (document_of C private_key meta h) ≡ ok tt
  unfolding check_scheme document_of
  check_scheme_signed h = ground arith

  check_key_id_signed :
      (h : Str)
      → check_key_id C (document_of C private_key meta h) (C.public_of private_key)
        ≡ ok (key_id C (C.public_of private_key))
  unfolding check_key_id document_of
  check_key_id_signed h = ground arith

  check_trust_nobody : (public_key id : Str) → check_trust C no_policy public_key id ≡ ok tt
  unfolding check_trust is_trusted
  check_trust_nobody public_key id = refl

  signed_hash :
      (h : Str)
      → All (λ b. b < 256) h
      → to_lower (trim_space (document_of C private_key meta h).payload_hash) ≡ hex h
  unfolding document_of
  signed_hash h bytes = normal_hex h bytes

  signer_signed : (h : Str) → (document_of C private_key meta h).signer_id ≡ meta.id
  unfolding document_of
  signer_signed h = refl

  verify_signed_document :
      (members : Members) {h : Str}
      → payload_hash_from_members C members ≡ ok h
      → verify_document C members (document_of C private_key meta h) no_policy
        ≡ ok (record {
          document = document_of C private_key meta h;
          payload_hash = h;
          public_key = C.public_of private_key;
          key_id = key_id C (C.public_of private_key);
          signer_id = meta.id;
        })
  unfolding verify_document
  verify_signed_document members {h} e =
      let bytes =
        subst (All (λ b. b < 256)) (sym (payload_hash-eq C members e)) (sound.hash_bytes _) in
      ground (
        arith,
        e,
        check_scheme_signed h,
        signed_hash h bytes,
        signer_signed h,
        check_signature_signed h,
        check_key_id_signed h,
        check_trust_nobody (C.public_of private_key) (key_id C (C.public_of private_key)),
      )

sign_members-inv :
    (C : Crypto) (private_key : Str) (meta : SignerMeta) (members : Members) {raw : Str}
    → sign_members C private_key meta members ≡ ok raw
    → (h : Str) × (payload_hash_from_members C members ≡ ok h)
      × (d : Str) × (C.encode_document (document_of C private_key meta h) ≡ some d)
      × (raw ≡ d ++ 10 ∷ [])
unfolding sign_members
sign_members-inv C private_key meta members {raw} e = elim (Bool-cases (length private_key == 64)) [
  | inr wrong ↦ ground (arith, wrong, e)
  | inl right ↦
      let e' : and_then (payload_hash_from_members C members) (λ h.
        and_then (or_fail tir_signature (C.encode_document (document_of C private_key meta h)))
          (λ raw. ok (raw ++ 10 ∷ [])))
          ≡ ok raw =
        ground (arith, right, e) in
      let (h, hashed, e2) = and_then-eq-ok (payload_hash_from_members C members) _ e' in
      let (d, encoded, e3) =
        and_then-eq-ok
          (or_fail tir_signature (C.encode_document (document_of C private_key meta h))) _ e2 in
      (h, hashed, d, or_fail-eq-ok tir_signature _ encoded, cc)
]

-- Verifying members with the signature that signing them gave succeeds, with the signer's public
-- key and id, if the libraries verify, decode and measure what they sign and encode as documented.
pub verify-sign :
    (C : Crypto) (private_key : Str) (meta : SignerMeta) (members : Members) {raw : Str}
    → IsSound C private_key meta
    → sign_members C private_key meta members ≡ ok raw
    → (info : SignatureInfo) × (verify_signature_bytes C members raw no_policy ≡ ok info)
      × (info.public_key ≡ C.public_of private_key)
      × (info.signer_id ≡ meta.id)
unfolding verify_signature_bytes document_of
verify-sign C private_key meta members {raw} sound e =
    let (h, hashed, d, encoded, same) = sign_members-inv C private_key meta members e in
    let decoded = sound.document_inverse h d encoded in
    (
      record {
        document = document_of C private_key meta h;
        payload_hash = h;
        public_key = C.public_of private_key;
        key_id = key_id C (C.public_of private_key);
        signer_id = meta.id;
      },
      rw (same, decoded) (verify_signed_document C private_key meta sound members hashed),
      refl,
      refl,
    )
