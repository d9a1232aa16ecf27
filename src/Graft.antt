-- ===== src/Graft.antt =====
-- Artifact references between trajectories, go/trajir/graft/graft.go. The target's log is open.
pub mod Laws
pub mod Grafted
mod Tests
use trajectory_irmrd.Base.{
  ℕ, Bool, true, false, ◌&&◌, ◌||◌, not, Option, none, some, List, [], ◌∷◌, if◌then◌else◌, ◌==◌,
  any, contains, filter, ltb, Str, str, str_eq, nat_eq, ℤ, pos, int_eq, lt_int, Value, int, float,
  text, bool, Fields, end, field, get, put, get_text, or_null, as_text, as_obj, sort_by, Error,
  Result, ok, err, and_then, graft_failed, Action, raise, lift, ◌>>=◌, Env,
}
use trajectory_irmrd.Nodes.{Node}
use trajectory_irmrd.Log.{Db, append}

abbrev pub private_kinds : List Str
private_kinds = str "THOUGHT" ∷ []

abbrev pub artifact_kinds : List Str
artifact_kinds = str "ARTIFACT_PUT" ∷ str "ARTIFACT_REF" ∷ []

-- The first of the keys that holds a text that is not empty.
abbrev pub first_text : List Str → Fields → Str
first_text [] m = []
first_text (k ∷ keys) m =
    let rest = first_text keys m in if get_text k m == [] then rest else get_text k m

-- A nil map is `none`.
unfoldable pub payload_content_hash : Option Fields → Str
payload_content_hash none = []
payload_content_hash (some m) = first_text (str "content_hash" ∷ str "hash" ∷ str "sha256" ∷ []) m

abbrev pub payload_of : Fields → Option Fields
payload_of n = as_obj (or_null (get (str "payload") n))

abbrev pub kind_of : Fields → Str
kind_of n = get_text (str "kind") n

-- The nodes that the loop collects.
unfoldable pub is_match : Str → Fields → Bool
unfolding payload_content_hash
is_match content_hash n =
    not (contains (kind_of n) private_kinds)
    && contains (kind_of n) artifact_kinds
    && payload_content_hash (payload_of n) == content_hash

-- A private node with this content: no graft is made from a source that holds one.
unfoldable pub is_private_match : Str → Fields → Bool
unfolding payload_content_hash
is_private_match content_hash n =
    contains (kind_of n) private_kinds && payload_content_hash (payload_of n) == content_hash

unfoldable pub ref_rank : Fields → ℕ
ref_rank n = if kind_of n == str "ARTIFACT_REF" then 0 else 1

-- GraftOptions: an absent flag `Has…` with its text is kept as the source keeps it.
pub record GraftOptions : Type 0 where
  pub content_hash : Str
  pub target_trajectory_id : Str
  pub target_tenant_id : Str
  pub seq : ℤ
  pub step_n : Option ℤ
  -- `none` is nil
  pub source_nodes : Option (List Fields)
  pub logical_path : Str
  pub uri : Str
  pub source_trajectory_id : Str
  pub has_logical_path : Bool
  pub has_uri : Bool
  pub has_source_trajectory : Bool

-- `if !has { if v, ok := found.(string); ok { given = v } }`
abbrev pub unless_given : Bool → Str → Option Str → Str
unless_given true given found = given
unless_given false given none = given
unless_given false given (some v) = v

-- `m[k]` of a map that may be nil.
abbrev pub text_in : Str → Option Fields → Option Str
text_in k none = none
text_in k (some m) = as_text (or_null (get k m))

-- `if value != "" || has { payload[k] = value }`
abbrev pub put_if : Bool → Str → Str → Fields → Fields
put_if has k value m = if not (value == []) || has then put k (text value) m else m

-- The texts that go into the payload.
pub record Origin : Type 0 where
  pub logical_path : Str
  pub uri : Str
  pub source_trajectory_id : Str

unfoldable pub origin_from : GraftOptions → Fields → Origin
origin_from opts src = record {
  logical_path =
      unless_given opts.has_logical_path opts.logical_path
        (text_in (str "logical_path") (payload_of src));
  uri = unless_given opts.has_uri opts.uri (text_in (str "uri") (payload_of src));
  source_trajectory_id =
      unless_given opts.has_source_trajectory opts.source_trajectory_id
        (as_text (or_null (get (str "trajectory_id") src)));
}

unfoldable pub graft_payload : GraftOptions → Origin → Fields
graft_payload opts o =
    put_if opts.has_source_trajectory (str "source_trajectory_id") o.source_trajectory_id (
      put_if opts.has_uri (str "uri") o.uri (
        put_if opts.has_logical_path (str "logical_path") o.logical_path (
          field (str "content_hash") (text opts.content_hash)
            (field (str "grafted") (bool true) end))))

-- `matches[0]`, or the error where there is none.
abbrev pub first_match : List Fields → Result Fields
first_match [] = err graft_failed
first_match (n ∷ rest) = ok n

module _ (E : Env) where
  unfoldable pub seq_of : Value → ℤ
  seq_of (int v) = v
  seq_of (float x) = E.float_to_int x
  seq_of _ = pos 0

  -- References go before puts, and lower sequence numbers first.
  unfoldable pub ref_less : Fields → Fields → Bool
  unfolding ref_rank seq_of
  ref_less a b =
      if not (ref_rank a == ref_rank b)
      then ltb (ref_rank a) (ref_rank b)
      else lt_int (seq_of (or_null (get (str "seq") a))) (seq_of (or_null (get (str "seq") b)))

  unfoldable pub find_artifact_ref : List Fields → Str → Result Fields
  unfolding is_match ref_less
  find_artifact_ref source_nodes content_hash =
      if content_hash == []
      then err graft_failed
      else first_match (sort_by ref_less (filter (is_match content_hash) source_nodes))

  -- What is taken over from the source's nodes.
  unfoldable pub graft_origin : GraftOptions → Result Origin
  unfolding origin_from is_private_match find_artifact_ref
  graft_origin opts = elim opts.source_nodes [
    | none ↦ ok (record {
      logical_path = opts.logical_path;
      uri = opts.uri;
      source_trajectory_id = opts.source_trajectory_id;
    })
    | some nodes ↦
        if any (is_private_match opts.content_hash) nodes
        then err graft_failed
        else and_then (find_artifact_ref nodes opts.content_hash) (λ src. ok (origin_from opts src))
  ]

  unfoldable pub graft_artifact_ref : GraftOptions → Action Db Node
  graft_artifact_ref opts = do
    o ← lift (graft_origin opts)
    append E (str "ARTIFACT_REF") opts.step_n (some (graft_payload opts o))
        opts.target_trajectory_id opts.target_tenant_id opts.seq
