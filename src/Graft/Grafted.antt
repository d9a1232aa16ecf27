-- ===== src/Graft/Grafted.antt =====
-- The node that a graft makes.
use trajectory_irmrd.Base.{
  ◌≡◌, ◌≢◌, refl, Bool, true, false, inl, inr, Bool-cases, some, List, [], ◌∷◌, arith, ◌==◌, any,
  sym, ◌∙◌, All, Str, str, str_eq, nat_eq, int_eq, Fields, bool, text, get, get-put, field, end,
  get_text, ok, ap, ◌⊎◌, and_then, and_then-eq-ok, lift, >>=-eq-ok, Env,
}
use trajectory_irmrd.Nodes.{Node}
use trajectory_irmrd.Nodes.Construct.{new_node-IsBuiltFrom}
use trajectory_irmrd.Log.{Db}
use trajectory_irmrd.Log.Replay.{append_inv}
use trajectory_irmrd.Graft.{
  Origin, is_private_match, origin_from, graft_origin, graft_payload, put_if, find_artifact_ref,
  GraftOptions, graft_artifact_ref, kind_of, payload_content_hash, payload_of,
}
use trajectory_irmrd.Graft.Laws.{In, IsArtifact, find-IsArtifact, find-In}

-- The text under `content_hash`, or else under `hash`, or else under `sha256`.
abbrev pub HasContent : Str → Fields → Type 0
HasContent content_hash payload =
    (get_text (str "content_hash") payload ≡ content_hash)
    ⊎ ((get_text (str "content_hash") payload ≡ [])
        × ((get_text (str "hash") payload ≡ content_hash)
            ⊎ ((get_text (str "hash") payload ≡ [])
                × (get_text (str "sha256") payload ≡ content_hash))))

-- A private node with this content.
pub record IsPrivate (content_hash : Str) (n : Fields) : Type 0 where
  pub kind : kind_of n ≡ str "THOUGHT"
  pub payload : Fields
  pub is_payload : payload_of n ≡ some payload
  pub content : HasContent content_hash payload

payload_content_hash-of :
    (content_hash : Str) (payload : Fields)
    → content_hash ≢ []
    → HasContent content_hash payload
    → payload_content_hash (some payload) ≡ content_hash
unfolding payload_content_hash
payload_content_hash-of c p ne (inl own) = ground (arith, own, ne)
payload_content_hash-of c p ne (inr (empty, inl hash)) = ground (arith, empty, hash, ne)
payload_content_hash-of c p ne (inr (empty, inr (none_too, sha))) =
    ground (arith, empty, none_too, sha, ne)

is_private_match-of :
    (content_hash : Str) (n : Fields)
    → content_hash ≢ []
    → IsPrivate content_hash n
    → is_private_match content_hash n ≡ true
unfolding is_private_match
is_private_match-of c n ne h =
    let same : payload_content_hash (payload_of n) ≡ c =
      ap payload_content_hash h.is_payload ∙ payload_content_hash-of c h.payload ne h.content in
    ground (arith, same, h.kind)

no-IsPrivate :
    (content_hash : Str) (nodes : List Fields)
    → content_hash ≢ []
    → any (is_private_match content_hash) nodes ≡ false
    → All (λ n. ¬ IsPrivate content_hash n) nodes
no-IsPrivate c [] ne h = tt
no-IsPrivate c (n ∷ nodes) ne h = (
  λ private. ground (arith, h, is_private_match-of c n ne private),
  no-IsPrivate c nodes ne (ground (arith, h)),
)

module _ (E : Env) where
  -- What a graft from a source's nodes leaves: no private node of the source has the content, one of
  -- the artifacts it found has, and the node on the target refers to that content.
  pub record IsGraft (opts : GraftOptions) (nodes : List Fields) (n : Node) : Type 0 where
    pub public : All (λ m. ¬ IsPrivate opts.content_hash m) nodes
    pub source : Fields
    pub is_source : In source nodes
    pub artifact : IsArtifact opts.content_hash source
    pub kind : n.kind ≡ str "ARTIFACT_REF"
    pub trajectory : n.trajectory_id ≡ opts.target_trajectory_id
    pub tenant : n.tenant_id ≡ opts.target_tenant_id
    pub content : get (str "content_hash") n.payload ≡ some (text opts.content_hash)
    pub grafted : get (str "grafted") n.payload ≡ some (bool true)

  -- The origin of a graft that is made from a source's nodes.
  graft_origin-inv :
      (opts : GraftOptions) (nodes : List Fields) {o : Origin}
      → opts.source_nodes ≡ some nodes
      → graft_origin E opts ≡ ok o
      → (any (is_private_match opts.content_hash) nodes ≡ false)
        × (source : Fields) × (find_artifact_ref E nodes opts.content_hash ≡ ok source)
  unfolding graft_origin
  graft_origin-inv opts nodes {o} s e =
      elim (Bool-cases (any (is_private_match opts.content_hash) nodes)) [
        | inl private ↦ ground (arith, s, private, e)
        | inr public ↦
            let e' : and_then (find_artifact_ref E nodes opts.content_hash)
                  (λ src. ok (origin_from opts src))
                ≡ ok o =
              ground (arith, s, public, e) in
            let (source, found, _) =
              and_then-eq-ok (find_artifact_ref E nodes opts.content_hash) _ e' in
            (public, source, found)
      ]

  put_if-get :
      (has : Bool) (k value : Str) (m : Fields) (wanted : Str)
      → (wanted == k) ≡ false
      → get wanted (put_if has k value m) ≡ get wanted m
  put_if-get has k value m wanted other = ground (arith, get-put wanted k (text value) m, other)

  -- The payload of a graft holds its first two entries whatever is put behind them.
  graft_payload-get :
      (opts : GraftOptions) (o : Origin) (wanted : Str)
      → (wanted == str "source_trajectory_id") ≡ false
      → (wanted == str "uri") ≡ false
      → (wanted == str "logical_path") ≡ false
      → get wanted (graft_payload opts o)
        ≡ get wanted (
            field
              (str "content_hash")
              (text opts.content_hash)
              (field (str "grafted") (bool true) end))
  unfolding graft_payload
  graft_payload-get opts o wanted a b c =
      put_if-get opts.has_source_trajectory _ o.source_trajectory_id _ wanted a
      ∙ put_if-get opts.has_uri _ o.uri _ wanted b
      ∙ put_if-get opts.has_logical_path _ o.logical_path _ wanted c

  graft_payload-entries :
      (opts : GraftOptions) (o : Origin)
      → (get (str "content_hash") (graft_payload opts o) ≡ some (text opts.content_hash))
        × (get (str "grafted") (graft_payload opts o) ≡ some (bool true))
  unfolding get str_eq
  graft_payload-entries opts o = (
    graft_payload-get opts o (str "content_hash") refl refl refl,
    graft_payload-get opts o (str "grafted") refl refl refl,
  )

  -- A graft from a source's nodes that succeeds had no THOUGHT with the wanted content in that
  -- source and found an ARTIFACT_PUT or ARTIFACT_REF with it, and its node is an ARTIFACT_REF of
  -- the target trajectory and tenant whose payload holds that content hash and the mark that it
  -- is grafted.
  pub graft_artifact_ref-IsGraft :
      (opts : GraftOptions) (nodes : List Fields) (db : Db) {n : Node}
      → opts.source_nodes ≡ some nodes
      → (graft_artifact_ref E opts db).0 ≡ ok n
      → IsGraft opts nodes n
  unfolding graft_artifact_ref lift
  graft_artifact_ref-IsGraft opts nodes db {n} s e =
      let (o, origin, q) = >>=-eq-ok (lift (graft_origin E opts)) _ db e in
      let (public, source, found) = graft_origin-inv opts nodes s origin in
      let (wanted, artifact) = find-IsArtifact E nodes opts.content_hash found in
      let a =
        append_inv E (str "ARTIFACT_REF") opts.step_n (some (graft_payload opts o))
          opts.target_trajectory_id opts.target_tenant_id opts.seq db (ap (λ p. p.0) (sym q) ∙ e) in
      let b =
        new_node-IsBuiltFrom E (str "ARTIFACT_REF") opts.target_trajectory_id opts.target_tenant_id
          opts.step_n opts.seq (some (graft_payload opts o)) (E.now db.clock) a.1 in
      let entries = graft_payload-entries opts o in
      record {
        public = no-IsPrivate opts.content_hash nodes wanted public;
        source = source;
        is_source = find-In E nodes opts.content_hash found;
        artifact = artifact;
        kind = b.kind_eq;
        trajectory = b.trajectory_eq;
        tenant = b.tenant_eq;
        content = ap (get (str "content_hash")) b.payload_eq ∙ entries.0;
        grafted = ap (get (str "grafted")) b.payload_eq ∙ entries.1;
      }
