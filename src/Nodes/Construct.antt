-- ===== src/Nodes/Construct.antt =====
-- `ValidateIDComponent` and `NewNode`.
use trajectory_irmrd.Base.{
  ℕ, ◌≤◌, ◌≡◌, ◌≢◌, ◌↔◌, refl, true, false, Option, some, [], ◌∷◌, arith, length, All, Str, str,
  str_eq, nat_eq, contains_any, ℤ, Fields, Error, ok, err, and_then-eq-ok, Env,
}
use trajectory_irmrd.Nodes.Utf8.{valid_utf8}
use trajectory_irmrd.Nodes.{
  Node, validate_id_component, delimiters, max_id_length, non_nil, has_key, payload_hash, node_id,
  new_node, known_kind, preimage,
}

-- Not `|`, LF, CR or NUL.
abbrev pub IsPlain : ℕ → Type 0
IsPlain c = (c ≢ b'|') × (c ≢ 10) × (c ≢ 13) × (c ≢ 0)

contains_any-IsPlain : (v : Str) → contains_any v delimiters ≡ false → All IsPlain v
unfolding contains_any
contains_any-IsPlain [] h = tt
contains_any-IsPlain (c ∷ v) h = (ground arith, contains_any-IsPlain v (ground arith))

of_plain : (v : Str) → All IsPlain v → contains_any v delimiters ≡ false
unfolding contains_any
of_plain [] h = refl
of_plain (c ∷ v) h = ground (arith, of_plain v h.1)

-- The values that may stand in a node's identity.
pub record IsIdComponent (v : Str) : Type 0 where
  pub not_empty : v ≢ []
  pub utf8 : valid_utf8 v ≡ true
  pub plain : All IsPlain v
  pub short : length v ≤ max_id_length

-- An identity component is accepted exactly when it is not empty, is valid UTF-8, holds no `|`, LF,
-- CR or NUL and has at most 512 bytes.
pub validate_id_component_iff :
    (name v : Str) → (validate_id_component name v ≡ ok tt) ↔ IsIdComponent v
unfolding validate_id_component
validate_id_component_iff name v = (
  λ h. record {
    not_empty = ground arith;
    utf8 = ground arith;
    plain = contains_any-IsPlain v (ground arith);
    short = ground arith;
  },
  λ c. ground (arith, of_plain v c.plain),
)

-- What a built node says of the arguments that it was built from.
pub record IsBuiltFrom (E : Env) (kind trajectory tenant : Str) (step_n : Option ℤ) (seq : ℤ)
    (payload : Option Fields) (now : ℕ) (n : Node) : Type 0 where
  pub kind_eq : n.kind ≡ kind
  pub trajectory_eq : n.trajectory_id ≡ trajectory
  pub tenant_eq : n.tenant_id ≡ tenant
  pub step_eq : n.step_n ≡ step_n
  pub seq_eq : n.seq ≡ seq
  pub payload_eq : n.payload ≡ non_nil payload
  pub ts_eq : n.ts ≡ now
  pub known : known_kind kind ≡ true
  pub hashed : payload_hash E (some (non_nil payload)) ≡ ok n.phash
  pub identified : node_id E tenant trajectory step_n seq kind n.phash ≡ ok n.id

module _ (E : Env) where
  -- A payload with a "ts" key is refused whatever else it holds, and the hash does not depend on
  -- whether an empty payload was nil.
  pub payload_hash_ts :
      (m : Fields) → has_key (str "ts") m ≡ true → payload_hash E (some m) ≡ err Error.ts_hashed
  unfolding payload_hash
  payload_hash_ts m h = rw h

  module _ (kind trajectory tenant : Str) (step_n : Option ℤ) (seq : ℤ) (payload : Option Fields)
      (now : ℕ) where
    pub new_node-IsBuiltFrom :
        {n : Node}
        → new_node E kind trajectory tenant step_n seq payload now ≡ ok n
        → IsBuiltFrom E kind trajectory tenant step_n seq payload now n
    unfolding new_node
    new_node-IsBuiltFrom {n} h = ground arith

    -- NewNode succeeds exactly when the kind is known, both identifiers are acceptable components
    -- and the payload has a hash.
    pub new_node_iff :
        ((n : Node) × (new_node E kind trajectory tenant step_n seq payload now ≡ ok n)) ↔ (
          (known_kind kind ≡ true)
          × IsIdComponent tenant
          × IsIdComponent trajectory
          × ((ph : Str) × (payload_hash E (some (non_nil payload)) ≡ ok ph)))
    unfolding new_node node_id
    new_node_iff = (
      λ (n, h). (
        ground arith,
        (validate_id_component_iff (str "tenant_id") tenant).0 (ground arith),
        (validate_id_component_iff (str "trajectory_id") trajectory).0 (ground arith),
        (n.phash, ground arith),
      ),
      λ (k, t, r, (ph, h)). (
        record {
          kind = kind;
          trajectory_id = trajectory;
          tenant_id = tenant;
          step_n = step_n;
          seq = seq;
          payload = non_nil payload;
          ts = now;
          phash = ph;
          id = E.sha256_hex (preimage tenant trajectory step_n seq kind ph);
        },
        ground (
          arith,
          (validate_id_component_iff (str "tenant_id") tenant).1 t,
          (validate_id_component_iff (str "trajectory_id") trajectory).1 r,
        ),
      ),
    )

module _ (E : Env) (hash : (s : Str) → E.sha256_hex s ≢ []) where
  -- An id is a hash.
  node_id-nonempty :
      (tenant trajectory : Str) (step_n : Option ℤ) (seq : ℤ) (kind phash : Str) {id : Str}
      → node_id E tenant trajectory step_n seq kind phash ≡ ok id
      → id ≢ []
  unfolding node_id
  node_id-nonempty tenant trajectory step_n seq kind phash {id} e =
      let (_, _, e1) = and_then-eq-ok (validate_id_component (str "tenant_id") tenant) _ e in
      let (_, _, e2) =
        and_then-eq-ok (validate_id_component (str "trajectory_id") trajectory) _ e1 in
      λ empty.
        let sha : E.sha256_hex (preimage tenant trajectory step_n seq kind phash) ≡ [] = cc in
        hash (preimage tenant trajectory step_n seq kind phash) sha

  pub new_node-nonempty :
      (kind trajectory tenant : Str) (step_n : Option ℤ) (seq : ℤ) (payload : Option Fields)
      (now : ℕ) {n : Node}
      → new_node E kind trajectory tenant step_n seq payload now ≡ ok n
      → n.id ≢ []
  new_node-nonempty kind trajectory tenant step_n seq payload now {n} e =
      let b = new_node-IsBuiltFrom E kind trajectory tenant step_n seq payload now e in
      node_id-nonempty tenant trajectory step_n seq kind n.phash b.identified
