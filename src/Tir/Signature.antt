-- ===== src/Tir/Signature.antt =====
-- Package signatures, go/trajir/tir/signature.go: the payload hash over the members, `Sign` and
-- `Verify`. Names are hashed in their order, so the order of a Go map's members does not count; where
-- several names are unsafe the model reports the first.
pub mod Stream
pub mod Binding
use trajectory_irmrd.Base.{
  ℕ, zero, suc, ◌+◌, ◌*◌, ◌/◌, ◌%◌, Bool, true, false, ◌&&◌, ◌||◌, not, Option, none, some, List,
  [], ◌∷◌, ◌++◌, map, if◌then◌else◌, ◌==◌, ltb, length, contains, filter, Str, str, str_eq, nat_eq,
  lt_str, sort_by, Result, ok, err, and_then, or_fail, tir_failed, tir_limit, tir_signature,
}
use trajectory_irmrd.Base.Space.{trim_space, to_lower}
use trajectory_irmrd.Tir.{safe_zip_name, max_zip_entries}
use trajectory_irmrd.Tir.Archive.{Member, is_directory_name, read_member}

abbrev pub signature_member_name : Str
signature_member_name = str "SIGNATURE"

abbrev pub scheme_v1 : Str
scheme_v1 = str "trajir-pkg-sig-v1"

abbrev pub payload_alg_v1 : Str
payload_alg_v1 = str "trajir-pkg-payload-v1"

abbrev pub alg_ed25519 : Str
alg_ed25519 = str "ed25519"

-- The JSON body of the SIGNATURE member, less its extensions, which nothing reads.
pub record SignatureDocument : Type 0 where
  pub scheme : Str
  pub payload_alg : Str
  pub payload_hash : Str
  pub alg : Str
  pub public_key : Str
  pub signature : Str
  pub signed_at : Str
  pub signer_id : Str
  pub signer_key_id : Str

-- crypto/sha256, crypto/ed25519, encoding/base64, and encoding/json on the document.
pub record Crypto : Type 0 where
  pub sha256 : Str → Str
  pub public_of : Str → Str
  pub ed25519_sign : Str → Str → Str
  pub ed25519_verify : Str → Str → Str → Bool
  pub base64_encode : Str → Str
  pub base64_decode : Str → Option Str
  pub encode_document : SignatureDocument → Option Str
  pub decode_document : Str → Option SignatureDocument

pub record SignatureInfo : Type 0 where
  pub document : SignatureDocument
  pub payload_hash : Str
  pub public_key : Str
  pub key_id : Str
  pub signer_id : Str

pub record VerifyOptions : Type 0 where
  pub require_signature : Bool
  pub trusted_keys : List Str
  pub trusted_key_ids : List Str

-- `VerifyOptions{}`
abbrev pub no_policy : VerifyOptions
no_policy = record { require_signature = false; trusted_keys = []; trusted_key_ids = [] }

-- The id of the signer, and the signing time as RFC 3339 text.
pub record SignerMeta : Type 0 where
  pub id : Str
  pub signed_at : Str

-- Members by name.
abbrev pub Members : Type 0
Members = List (Str × Str)

unfoldable pub hex_digit : ℕ → ℕ
hex_digit n = if ltb n 10 then b'0' + n else 87 + n

-- `hex.EncodeToString`
unfoldable pub hex : Str → Str
unfolding hex_digit
hex [] = []
hex (b ∷ s) = hex_digit (b / 16) ∷ hex_digit (b % 16) ∷ hex s

-- The last `k` bytes of a number, the highest first.
unfoldable pub big_endian : ℕ → ℕ → Str
big_endian zero n = []
big_endian (suc k) n = big_endian k (n / 256) ++ (n % 256) ∷ []

abbrev pub take : ℕ → Str → Str
take zero s = []
take (suc k) [] = []
take (suc k) (c ∷ s) = c ∷ take k s

unfoldable pub by_name : (Str × Str) → (Str × Str) → Bool
by_name a b = lt_str a.0 b.0

abbrev pub not_signature : (Str × Str) → Bool
not_signature m = not (m.0 == signature_member_name)

unfoldable pub check_names : Members → Result (Unit {0})
check_names [] = ok tt
check_names (m ∷ members) = and_then (safe_zip_name m.0) (λ _. check_names members)

-- In the list of those trusted, where there is one.
unfoldable pub is_trusted : Str → List Str → Bool
is_trusted s [] = true
is_trusted s (t ∷ trusted) = contains s (t ∷ trusted)

module _ (C : Crypto) where
  unfoldable pub key_id : Str → Str
  key_id public_key = take 16 (hex (C.sha256 public_key))

  unfoldable pub domain_separated_message : Str → Str
  domain_separated_message payload_hash = C.sha256 (scheme_v1 ++ 0 ∷ payload_hash)

  -- What the payload hash is taken of: the length of each name, the name, the hash of the body.
  unfoldable pub stream : Members → Str
  unfolding big_endian
  stream [] = []
  stream (m ∷ members) = big_endian 8 (length m.0) ++ (m.0 ++ (C.sha256 m.1 ++ stream members))

  unfoldable pub payload_hash_from_members : Members → Result Str
  payload_hash_from_members members =
      let covered = filter not_signature members in
      and_then (check_names covered) (λ _. ok (C.sha256 (stream (sort_by by_name covered))))

  -- What `Sign` writes about members, before it is encoded.
  unfoldable pub document_of : Str → SignerMeta → Str → SignatureDocument
  document_of private_key meta payload_hash =
      let public_key = C.public_of private_key in
      record {
        scheme = scheme_v1;
        payload_alg = payload_alg_v1;
        payload_hash = hex payload_hash;
        alg = alg_ed25519;
        public_key = C.base64_encode public_key;
        signature =
            C.base64_encode (C.ed25519_sign private_key (domain_separated_message payload_hash));
        signed_at = meta.signed_at;
        signer_id = meta.id;
        signer_key_id = key_id public_key;
      }

  -- The bytes of the SIGNATURE member.
  unfoldable pub sign_members : Str → SignerMeta → Members → Result Str
  sign_members private_key meta members =
      if not (length private_key == 64)
      then err tir_signature
      else and_then (payload_hash_from_members members) (λ h.
        and_then (or_fail tir_signature (C.encode_document (document_of private_key meta h)))
          (λ raw. ok (raw ++ 10 ∷ [])))

  -- A decoded text of the right length.
  abbrev pub of_length : ℕ → Option Str → Result Str
  of_length n none = err tir_signature
  of_length n (some s) = if length s == n then ok s else err tir_signature

  -- The scheme and the algorithms.
  unfoldable pub check_scheme : SignatureDocument → Result (Unit {0})
  check_scheme doc =
      if not (doc.scheme == scheme_v1)
      then err tir_signature
      else if not (doc.payload_alg == payload_alg_v1)
      then err tir_signature
      else if not (doc.alg == alg_ed25519)
      then err tir_signature
      else ok tt

  -- The signer's key id: the document's, which must be the key's, or the key's where it has none.
  unfoldable pub check_key_id : SignatureDocument → Str → Result Str
  check_key_id doc public_key =
      if doc.signer_key_id == []
      then ok (key_id public_key)
      else if doc.signer_key_id == key_id public_key
      then ok doc.signer_key_id
      else err tir_signature

  unfoldable pub check_trust : VerifyOptions → Str → Str → Result (Unit {0})
  check_trust opts public_key id =
      if not (is_trusted public_key opts.trusted_keys)
      then err tir_signature
      else if not (is_trusted id opts.trusted_key_ids)
      then err tir_signature
      else ok tt

  unfoldable pub check_signature : SignatureDocument → Str → Result Str
  check_signature doc want = and_then (of_length 32 (C.base64_decode doc.public_key)) (λ public_key.
      and_then (of_length 64 (C.base64_decode doc.signature)) (λ sig.
        if C.ed25519_verify public_key (domain_separated_message want) sig
        then ok public_key
        else err tir_signature))

  unfoldable pub verify_document :
      Members → SignatureDocument → VerifyOptions → Result SignatureInfo
  verify_document members doc opts = and_then (check_scheme doc) (λ _.
      and_then (payload_hash_from_members members) (λ want.
        if not (to_lower (trim_space doc.payload_hash) == hex want)
        then err tir_signature
        else and_then (check_signature doc want) (λ public_key.
          and_then (check_key_id doc public_key) (λ id.
            and_then (check_trust opts public_key id) (λ _. ok (record {
              document = doc;
              payload_hash = want;
              public_key = public_key;
              key_id = id;
              signer_id = doc.signer_id;
            }))))))

  unfoldable pub verify_signature_bytes : Members → Str → VerifyOptions → Result SignatureInfo
  verify_signature_bytes members raw opts =
      and_then (or_fail tir_signature (C.decode_document raw))
        (λ doc. verify_document members doc opts)

  -- `none` is an unsigned package.
  unfoldable pub verify_from_members :
      Members → Option Str → VerifyOptions → Result (Option SignatureInfo)
  verify_from_members members none opts =
      if opts.require_signature then err tir_signature else ok none
  verify_from_members members (some raw) opts =
      and_then (verify_signature_bytes members raw opts) (λ info. ok (some info))

abbrev pub is_named : Str → Members → Bool
is_named name [] = false
is_named name (m ∷ members) = m.0 == name || is_named name members

-- What `collectZipMembers` has read so far: the members, the last first, and the signature.
pub record Collected : Type 0 where
  pub members : Members
  pub signature : Option Str

abbrev pub is_signed : Option Str → Bool
is_signed none = false
is_signed (some raw) = true

unfoldable pub collect_one : Str → Str → Collected → Result Collected
collect_one name body c =
    if name == signature_member_name
    then (if is_signed c.signature then err tir_failed else ok (record c { signature = some body }))
    else if is_named name c.members
    then err tir_failed
    else ok (record c { members = (name, body) ∷ c.members })

unfoldable pub collect_from : ℕ → Collected → List Member → Result Collected
unfolding collect_one
collect_from used c [] = ok c
collect_from used c (m ∷ files) =
    if is_directory_name m.name
    then collect_from used c files
    else and_then (safe_zip_name m.name) (λ _.
      and_then (read_member used m)
        (λ r. and_then (collect_one m.name r.0 c) (λ more. collect_from r.1 more files)))

unfoldable pub collect_zip_members : List Member → Result Collected
collect_zip_members files =
    if ltb max_zip_entries (length files)
    then err tir_limit
    else collect_from 0 (record { members = []; signature = none }) files

abbrev pub file_of : (Str × Str) → Member
file_of m = record { name = m.0; size = length m.1; body = some m.1 }

module _ (C : Crypto) where
  -- `Verify` and `verifySignatureFromZipFiles` on the members of an archive.
  unfoldable pub verify_files : List Member → VerifyOptions → Result (Option SignatureInfo)
  verify_files files opts =
      and_then (collect_zip_members files) (λ c. verify_from_members C c.members c.signature opts)

  -- `Sign`, and the archive that `rewriteZipWithSignature` writes: the members by name, then SIGNATURE.
  unfoldable pub sign_files : Str → SignerMeta → List Member → Result (List Member)
  sign_files private_key meta files =
      if not (length private_key == 64)
      then err tir_signature
      else and_then (collect_zip_members files) (λ c.
        and_then (sign_members C private_key meta c.members) (λ raw.
          ok (map file_of (sort_by by_name c.members ++ (signature_member_name, raw) ∷ []))))
