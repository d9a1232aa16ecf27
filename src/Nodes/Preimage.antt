-- ===== src/Nodes/Preimage.antt =====
-- The `|`-joined text that `NodeID` hashes.
use mathlib.Core.Path.{subst}
use trajectory_irmrd.Base.{
  ◌≡◌, refl, ap, sym, ◌∙◌, ◌≢◌, false, Option, none, some, [], ◌∷◌, ◌++◌, arith, str, All, Str,
  str_eq, contains_any, ℤ, itoa, itoa-lacks, itoa_injective, Result, ok, nat_eq, Env,
  and_then-eq-ok, Env,
}
use trajectory_irmrd.Nodes.{preimage, step_text, bar, delimiters, validate_id_component, node_id}

abbrev pub LacksBar : Str → Type 0
LacksBar = All (λ c. c ≢ bar)

-- A text before the first `|` is determined, and so is the rest.
split_bar :
    (a b : Str) {s t : Str}
    → LacksBar a
    → LacksBar b
    → a ++ bar ∷ s ≡ b ++ bar ∷ t
    → (a ≡ b) × (s ≡ t)
split_bar [] [] ha hb e = (refl, cc)
split_bar [] (d ∷ b) ha hb e = absurd (hb.0 (cc))
split_bar (c ∷ a) [] ha hb e = absurd (ha.0 (cc))
split_bar (c ∷ a) (d ∷ b) ha hb e = let r = split_bar a b ha.1 hb.1 (cc) in (cc r.0, r.1)

LacksBar-middle : (b t : Str) → LacksBar (b ++ bar ∷ t) → ⊥
LacksBar-middle [] t h = h.0 refl
LacksBar-middle (c ∷ b) t h = LacksBar-middle b t h.1

-- The same from the right: the part after the last `|`.
split_last_bar :
    (a b : Str) {s t : Str}
    → LacksBar s
    → LacksBar t
    → a ++ bar ∷ s ≡ b ++ bar ∷ t
    → (a ≡ b) × (s ≡ t)
split_last_bar [] [] hs ht e = (refl, cc)
split_last_bar [] (d ∷ b) {s} {t} hs ht e =
    let r : s ≡ b ++ bar ∷ t = cc in absurd (LacksBar-middle b t (subst LacksBar r hs))
split_last_bar (c ∷ a) [] {s} {t} hs ht e =
    let r : t ≡ a ++ bar ∷ s = cc in absurd (LacksBar-middle a s (subst LacksBar r ht))
split_last_bar (c ∷ a) (d ∷ b) hs ht e = let r = split_last_bar a b hs ht (cc) in (cc r.0, r.1)

contains_any-lacks : (v : Str) → contains_any v delimiters ≡ false → LacksBar v
unfolding contains_any
contains_any-lacks [] h = tt
contains_any-lacks (c ∷ v) h = (ground arith, contains_any-lacks v (ground arith))

-- An accepted component holds no `|`.
pub validate_id_component-LacksBar :
    (name v : Str) → validate_id_component name v ≡ ok tt → LacksBar v
unfolding validate_id_component
validate_id_component-LacksBar name v h = contains_any-lacks v (ground arith)

none_text_not_decimal : (z : ℤ) → itoa z ≢ str "None"
none_text_not_decimal z e = (subst (All (λ c. c ≢ b'N')) e (itoa-lacks z b'N' (omega arith))).0 refl

step_text-lacks : (s : Option ℤ) → LacksBar (step_text s)
unfolding step_text
step_text-lacks none = omega arith
step_text-lacks (some z) = itoa-lacks z bar (omega arith)

step_text_injective : (s t : Option ℤ) → step_text s ≡ step_text t → s ≡ t
unfolding step_text
step_text_injective none none e = refl
step_text_injective none (some z) e = absurd (none_text_not_decimal z (sym e))
step_text_injective (some z) none e = absurd (none_text_not_decimal z e)
step_text_injective (some y) (some z) e = ap some (itoa_injective y z e)

-- The six fields that make a node's identity.
pub record Identity : Type 0 where
  pub tenant : Str
  pub trajectory : Str
  pub step_n : Option ℤ
  pub seq : ℤ
  pub kind : Str
  pub phash : Str

abbrev pub preimage_of : Identity → Str
preimage_of i = preimage i.tenant i.trajectory i.step_n i.seq i.kind i.phash

preimage_injective :
    (i j : Identity)
    → LacksBar i.tenant
    → LacksBar j.tenant
    → LacksBar i.trajectory
    → LacksBar j.trajectory
    → LacksBar i.phash
    → LacksBar j.phash
    → preimage_of i ≡ preimage_of j
    → i ≡ j
unfolding preimage
preimage_injective i j hi hj ti tj pi pj e =
    let tenants = split_bar i.tenant j.tenant hi hj e in
    let trajectories = split_bar i.trajectory j.trajectory ti tj tenants.1 in
    let steps =
      split_bar (step_text i.step_n) (step_text j.step_n) (step_text-lacks i.step_n)
        (step_text-lacks j.step_n) trajectories.1 in
    let seqs =
      split_bar (itoa i.seq) (itoa j.seq) (itoa-lacks i.seq bar (omega arith))
        (itoa-lacks j.seq bar (omega arith)) steps.1 in
    let kinds = split_last_bar i.kind j.kind pi pj seqs.1 in
    let step_eq = step_text_injective i.step_n j.step_n steps.0 in
    let seq_eq = itoa_injective i.seq j.seq seqs.0 in
    λ k. record {
      tenant = tenants.0 k;
      trajectory = trajectories.0 k;
      step_n = step_eq k;
      seq = seq_eq k;
      kind = kinds.0 k;
      phash = kinds.1 k;
    }

abbrev pub node_id_of : Env → Identity → Result Str
node_id_of E i = node_id E i.tenant i.trajectory i.step_n i.seq i.kind i.phash

node_id-inv :
    (E : Env) (i : Identity) {id : Str}
    → node_id_of E i ≡ ok id
    → LacksBar i.tenant × LacksBar i.trajectory × (E.sha256_hex (preimage_of i) ≡ id)
unfolding node_id
node_id-inv E i h =
    let t = and_then-eq-ok (validate_id_component (str "tenant_id") i.tenant) _ h in
    let r = and_then-eq-ok (validate_id_component (str "trajectory_id") i.trajectory) _ t.2 in
    (
      validate_id_component-LacksBar (str "tenant_id") i.tenant t.1,
      validate_id_component-LacksBar (str "trajectory_id") i.trajectory r.1,
      cc r.2,
    )

-- Two identities that NodeID accepts and gives one id are equal in all six fields, a nil step told
-- apart from every number, if the payload hashes hold no `|` and SHA-256 does not collide on the
-- two texts.
pub node_id_injective :
    (E : Env) (i j : Identity) (id : Str)
    → LacksBar i.phash
    → LacksBar j.phash
    → (E.sha256_hex (preimage_of i) ≡ E.sha256_hex (preimage_of j) → preimage_of i ≡ preimage_of j)
    → node_id_of E i ≡ ok id
    → node_id_of E j ≡ ok id
    → i ≡ j
node_id_injective E i j id pi pj no_collision hi hj =
    let a = node_id-inv E i hi in
    let b = node_id-inv E j hj in
    preimage_injective i j a.0 b.0 a.1 b.1 pi pj (no_collision (a.2 ∙ sym b.2))
