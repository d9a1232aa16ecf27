-- ===== src/Nodes.antt =====
-- Node identity, go/trajir/nodes/nodes.go: validation of identity components, the payload hash, the
-- content-addressed id and the construction of a node. A nil payload map is `none`.
pub mod Utf8
pub mod Kinds
pub mod Preimage
pub mod Construct
mod Tests
use trajectory_irmrd.Base.{
  ℕ, zero, suc, ◌+◌, ◌≡◌, refl, Bool, true, false, ◌&&◌, ◌||◌, not, Option, none, some, List, [],
  ◌∷◌, ◌++◌, arith, ltb, leb, if◌then◌else◌, ◌==◌, length, contains, Str, str, str_eq, contains_any,
  ℤ, itoa, Value, Fields, end, obj, get, Error, bad_id, IdFault, unknown_kind, ts_hashed,
  json_marshal, jcs_transform, Result, ok, err, and_then, or_fail, Env,
}
use trajectory_irmrd.Nodes.Utf8.{valid_utf8}
use trajectory_irmrd.Nodes.Kinds.{node_kinds}

-- The bytes that `ValidateIDComponent` refuses: `|`, LF, CR and NUL.
abbrev pub delimiters : Str
delimiters = 124 ∷ 10 ∷ 13 ∷ 0 ∷ []

abbrev pub max_id_length : ℕ
max_id_length = 512

unfoldable pub validate_id_component : Str → Str → Result (Unit {0})
validate_id_component name v =
    if v == []
    then err (bad_id name IdFault.empty)
    else if not (valid_utf8 v)
    then err (bad_id name IdFault.not_utf8)
    else if contains_any v delimiters
    then err (bad_id name IdFault.delimiter)
    else if ltb max_id_length (length v)
    then err (bad_id name IdFault.too_long)
    else ok tt

-- `if payload == nil { payload = map[string]any{} }`
abbrev pub non_nil : Option Fields → Fields
non_nil none = end
non_nil (some m) = m

abbrev pub has_key : Str → Fields → Bool
has_key k m = elim (get k m) [ none ↦ false | some v ↦ true ]

-- The text after the step separator: nil is written as Python writes None.
unfoldable pub step_text : Option ℤ → Str
step_text none = str "None"
step_text (some n) = itoa n

abbrev pub bar : ℕ
bar = b'|'

unfoldable pub preimage : Str → Str → Option ℤ → ℤ → Str → Str → Str
unfolding step_text
preimage tenant trajectory step_n seq kind phash =
    tenant
    ++ bar
      ∷ (trajectory ++ bar ∷ (step_text step_n ++ bar ∷ (itoa seq ++ bar ∷ (kind ++ bar ∷ phash))))

-- `_, ok := NODE_KINDS[kind]`
unfoldable pub known_kind : Str → Bool
known_kind kind = contains kind node_kinds

-- A hashed IR event.
pub record Node : Type 0 where
  pub kind : Str
  pub trajectory_id : Str
  pub tenant_id : Str
  pub step_n : Option ℤ
  pub seq : ℤ
  pub payload : Fields
  pub ts : ℕ
  pub phash : Str
  pub id : Str

module _ (E : Env) where
  unfoldable pub payload_hash : Option Fields → Result Str
  payload_hash payload =
      let m = non_nil payload in
      if has_key (str "ts") m
      then err ts_hashed
      else and_then (or_fail json_marshal (E.marshal (obj m))) (λ raw.
        and_then (or_fail jcs_transform (E.transform raw)) (λ canon. ok (E.sha256_hex canon)))

  unfoldable pub node_id : Str → Str → Option ℤ → ℤ → Str → Str → Result Str
  node_id tenant trajectory step_n seq kind phash =
      and_then (validate_id_component (str "tenant_id") tenant) (λ _.
        and_then (validate_id_component (str "trajectory_id") trajectory)
          (λ _. ok (E.sha256_hex (preimage tenant trajectory step_n seq kind phash))))

  -- `now` is the clock's reading.
  unfoldable pub new_node : Str → Str → Str → Option ℤ → ℤ → Option Fields → ℕ → Result Node
  new_node kind trajectory tenant step_n seq payload now =
      if not (known_kind kind)
      then err (unknown_kind kind)
      else and_then (validate_id_component (str "tenant_id") tenant) (λ _.
        and_then (validate_id_component (str "trajectory_id") trajectory) (λ _.
          and_then (payload_hash (some (non_nil payload))) (λ phash.
            and_then (node_id tenant trajectory step_n seq kind phash) (λ id. ok (record {
              kind = kind;
              trajectory_id = trajectory;
              tenant_id = tenant;
              step_n = step_n;
              seq = seq;
              payload = non_nil payload;
              ts = now;
              phash = phash;
              id = id;
            })))))
