-- ===== src/Redact/Clean.antt =====
-- What scrubbing leaves, and scrubbing again.
use trajectory_irmrd.Base.{
  ◌≡◌, ◌≢◌, refl, ◌⊎◌, inl, inr, false, arith, ◌==◌, Bool-cases, Str, str, str_eq, Value, null,
  bool, int, float, text, arr, slice, obj, Items, nil, cons, Fields, end, field,
}
use trajectory_irmrd.Redact.Secrets.{is_secret_key, is_secret_value, redacted-not-secret}
use trajectory_irmrd.Redact.{
  redacted, redacted_map, redact_value, redact_items, redact_fields, redact_payload,
}

-- A text under a secret key, or in the shape of a secret, is the mark; nothing else stands under a
-- secret key. No typed slice is clean: the scrubber does not look into one.
unfoldable mutual
  pub IsClean : Str → Value → Type 0
  IsClean key null = is_secret_key key ≡ false
  IsClean key (bool b) = is_secret_key key ≡ false
  IsClean key (int n) = is_secret_key key ≡ false
  IsClean key (float x) = is_secret_key key ≡ false
  IsClean key (text s) =
      (s ≡ redacted) ⊎ ((is_secret_key key ≡ false) × (is_secret_value s ≡ false))
  IsClean key (arr xs) = (is_secret_key key ≡ false) × ItemsAreClean key xs
  IsClean key (slice xs) = ⊥
  IsClean key (obj m) = (is_secret_key key ≡ false) × FieldsAreClean m

  pub ItemsAreClean : Str → Items → Type 0
  ItemsAreClean key nil = Unit
  ItemsAreClean key (cons v xs) = IsClean key v × ItemsAreClean key xs

  pub FieldsAreClean : Fields → Type 0
  FieldsAreClean end = Unit
  FieldsAreClean (field k v m) = IsClean k v × FieldsAreClean m

-- A value as `json.Unmarshal` makes it: every list is a `[]any`.
unfoldable mutual
  pub IsDecoded : Value → Type 0
  IsDecoded null = Unit
  IsDecoded (bool b) = Unit
  IsDecoded (int n) = Unit
  IsDecoded (float x) = Unit
  IsDecoded (text s) = Unit
  IsDecoded (arr xs) = ItemsAreDecoded xs
  IsDecoded (slice xs) = ⊥
  IsDecoded (obj m) = FieldsAreDecoded m

  pub ItemsAreDecoded : Items → Type 0
  ItemsAreDecoded nil = Unit
  ItemsAreDecoded (cons v xs) = IsDecoded v × ItemsAreDecoded xs

  pub FieldsAreDecoded : Fields → Type 0
  FieldsAreDecoded end = Unit
  FieldsAreDecoded (field k v m) = IsDecoded v × FieldsAreDecoded m

mutual
  unfolding redact_value IsClean IsDecoded

  value-IsClean : (key : Str) (v : Value) → IsDecoded v → IsClean key (redact_value key v)
  value-IsClean key null d = elim (Bool-cases (is_secret_key key)) [
    | inl secret ↦ rw secret (inl refl)
    | inr open_key ↦ rw open_key open_key
  ]
  value-IsClean key (bool b) d = elim (Bool-cases (is_secret_key key)) [
    | inl secret ↦ rw secret (inl refl)
    | inr open_key ↦ rw open_key open_key
  ]
  value-IsClean key (int n) d = elim (Bool-cases (is_secret_key key)) [
    | inl secret ↦ rw secret (inl refl)
    | inr open_key ↦ rw open_key open_key
  ]
  value-IsClean key (float x) d = elim (Bool-cases (is_secret_key key)) [
    | inl secret ↦ rw secret (inl refl)
    | inr open_key ↦ rw open_key open_key
  ]
  value-IsClean key (text s) d = elim (Bool-cases (is_secret_key key)) [
    | inl secret ↦ rw secret (inl refl)
    | inr open_key ↦ rw open_key (elim (Bool-cases (is_secret_value s)) [
      | inl shaped ↦ rw shaped (inl refl)
      | inr plain ↦ rw plain (inr (open_key, plain))
    ])
  ]
  value-IsClean key (arr xs) d = elim (Bool-cases (is_secret_key key)) [
    | inl secret ↦ rw secret (inl refl)
    | inr open_key ↦ rw open_key (open_key, items_clean key xs d)
  ]
  value-IsClean key (slice xs) d = absurd d
  value-IsClean key (obj m) d = elim (Bool-cases (is_secret_key key)) [
    | inl secret ↦ rw secret (inl refl)
    | inr open_key ↦ rw open_key (open_key, fields_clean m d)
  ]

  items_clean :
      (key : Str) (xs : Items) → ItemsAreDecoded xs → ItemsAreClean key (redact_items key xs)
  items_clean key nil d = tt
  items_clean key (cons v xs) d = (value-IsClean key v d.0, items_clean key xs d.1)

  fields_clean : (m : Fields) → FieldsAreDecoded m → FieldsAreClean (redact_fields m)
  fields_clean end d = tt
  fields_clean (field k v m) d = (value-IsClean k v d.0, fields_clean m d.1)

-- A leaf is scrubbed once: a second pass finds its key open and the text no secret, or the mark.
marked_again : (key : Str) → redact_value key (text redacted) ≡ text redacted
unfolding redact_value
marked_again key = ground (arith, redacted-not-secret)

mutual
  unfolding redact_value

  value_twice : (key : Str) (v : Value) → redact_value key (redact_value key v) ≡ redact_value key v
  value_twice key null = ground (arith, marked_again key)
  value_twice key (bool b) = ground (arith, marked_again key)
  value_twice key (int n) = ground (arith, marked_again key)
  value_twice key (float x) = ground (arith, marked_again key)
  value_twice key (text s) = ground (arith, marked_again key)
  value_twice key (arr xs) = ground (arith, marked_again key, items_twice key xs)
  value_twice key (slice xs) = ground (arith, marked_again key)
  value_twice key (obj m) = ground (arith, marked_again key, fields_twice m)

  items_twice :
      (key : Str) (xs : Items) → redact_items key (redact_items key xs) ≡ redact_items key xs
  items_twice key nil = refl
  items_twice key (cons v xs) = rw (value_twice key v, items_twice key xs)

  fields_twice : (m : Fields) → redact_fields (redact_fields m) ≡ redact_fields m
  fields_twice end = refl
  fields_twice (field k v m) = rw (value_twice k v, fields_twice m)

-- Scrubbing a value as JSON decoding makes it leaves it clean at every depth: a text that stands
-- under a secret key or looks like a secret is replaced, and whatever else stands under a secret
-- key too.
pub redact_value-IsClean : (key : Str) (v : Value) → IsDecoded v → IsClean key (redact_value key v)
redact_value-IsClean key v d = value-IsClean key v d

-- Scrubbing is idempotent, on every value.
pub redact_value_idem :
    (key : Str) (v : Value) → redact_value key (redact_value key v) ≡ redact_value key v
redact_value_idem key v = value_twice key v

-- The entries of an exported payload are clean whatever the payload was; a THOUGHT's payload, and a
-- payload that is no map, is replaced whole.
pub redact_payload-FieldsAreClean :
    (kind : Str) (m : Fields)
    → FieldsAreDecoded m
    → (kind ≢ str "THOUGHT" → FieldsAreClean (redact_payload kind (obj m)))
      × (redact_payload (str "THOUGHT") (obj m) ≡ redacted_map)
unfolding redact_payload
redact_payload-FieldsAreClean kind m d = (
  λ other. elim (Bool-cases (kind == str "THOUGHT")) [
    | inl thought ↦ absurd (other (ground arith))
    | inr shown ↦ rw shown (fields_clean m d)
  ],
  ground arith,
)
