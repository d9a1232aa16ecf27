-- ===== src/Durable/Laws.antt =====
-- `Step` over a backend with its laws.
use trajectory_irmrd.Base.{
  ◌≡◌, ◌≢◌, sym, ap, ◌∙◌, Option, none, some, [], arith, inl, inr, Str, str_eq, Value, ok, or_fail,
  or_fail-eq-ok, bad_memo, json_unmarshal, Option-cases, Action, Keeps, Keeps-lift, keeps_rules,
  lift, >>=-eq-ok, ◌>>=◌, Env,
}
use trajectory_irmrd.Durable.{Backend, IsBackend, step, finish, run_and_save}

-- A body that leaves the backend up and its memos as they are.
pub record IsInert {W : Type 0} {b : Backend W} (L : IsBackend b) (fn : Action W Value)
    : Type 0 where
  pub up : (s : W) → L.IsUp s → L.IsUp (fn s).1
  pub keeps : (s : W) (v j : Str) → L.memo (fn s).1 v j ≡ L.memo s v j

module _ (E : Env) {W : Type 0} {b : Backend W} (L : IsBackend b) (w k : Str) (w_set : w ≢ [])
    (k_set : k ≢ []) where
  -- Where an output is saved, a step decodes it: its body is not run, and the state changes only as
  -- a load changes it.
  pub step_replay :
      (fn : Action W Value) (s : W) {raw : Str}
      → L.IsUp s
      → L.memo s w k ≡ some raw
      → step E b w k fn s ≡ (or_fail bad_memo (E.unmarshal raw), (b.load w k s).1)
  unfolding step finish ◌>>=◌
  step_replay fn s {raw} up found = ground (arith, L.load_ok w k s up)

  -- Where no output is saved, a step loads, runs its body and saves.
  pub step_run :
      (fn : Action W Value) (s : W)
      → L.IsUp s
      → L.memo s w k ≡ none
      → step E b w k fn s ≡ run_and_save E b w k fn (b.load w k s).1
  unfolding step finish ◌>>=◌
  step_run fn s up missing = ground (arith, L.load_ok w k s up)

  run_and_save-memo :
      (fn : Action W Value) (s : W) {v : Value}
      → IsInert L fn
      → L.IsKey w
      → L.IsUp s
      → L.memo s w k ≡ none
      → (run_and_save E b w k fn s).0 ≡ ok v
      → (raw : Str) × (L.memo (run_and_save E b w k fn s).1 w k ≡ some raw)
        × (E.unmarshal raw ≡ some v)
  unfolding run_and_save lift
  run_and_save-memo fn s inert key up missing h =
      let a = >>=-eq-ok _ _ s h in
      let b' = >>=-eq-ok _ _ _ (ap (λ p. p.0) (sym a.2) ∙ h) in
      let c = >>=-eq-ok _ _ _ (ap (λ p. p.0) (sym b'.2) ∙ ap (λ p. p.0) (sym a.2) ∙ h) in
      let whole = a.2 ∙ b'.2 ∙ c.2 in
      (
        b'.0,
        ap (λ p. L.memo p.1 w k) whole
            ∙ L.save_new w k b'.0 (fn s).1 (inert.up s up) key (inert.keeps s w k ∙ missing) w k key
            ∙ ground arith,
        or_fail-eq-ok json_unmarshal _ (ap (λ p. p.0) (sym whole) ∙ h),
      )

  -- A step that succeeded with `v` has saved a text that decodes to `v`.
  pub step_memoizes :
      (fn : Action W Value) (s : W) {v : Value}
      → IsInert L fn
      → L.IsKey w
      → L.IsUp s
      → (step E b w k fn s).0 ≡ ok v
      → (raw : Str) × (L.memo (step E b w k fn s).1 w k ≡ some raw) × (E.unmarshal raw ≡ some v)
  step_memoizes fn s {v} inert key up h = elim (Option-cases (L.memo s w k)) [
    | inl missing ↦
        let e = step_run fn s up missing in
        let t =
          run_and_save-memo fn (b.load w k s).1 inert key (L.load_up w k s up)
            (L.load_keeps w k s w k ∙ missing) (ap (λ p. p.0) (sym e) ∙ h) in
        (t.0, ap (λ p. L.memo p.1 w k) e ∙ t.1, t.2)
    | inr (raw, found) ↦
        let e = step_replay fn s up found in
        (
          raw,
          ap (λ p. L.memo p.1 w k) e ∙ L.load_keeps w k s w k ∙ found,
          or_fail-eq-ok bad_memo _ (ap (λ p. p.0) (sym e) ∙ h),
        )
  ]

  -- Over a lawful backend, after a step that succeeded with a value any later step of the same
  -- key returns that value and runs no body, whatever body it is given, as long as the saved
  -- output is still there, the backend is up, and the first body left the backend's memos alone.
  pub step_once :
      (fn other : Action W Value) (s later : W) {v : Value}
      → IsInert L fn
      → L.IsKey w
      → L.IsUp s
      → L.IsUp later
      → (step E b w k fn s).0 ≡ ok v
      → L.memo later w k ≡ L.memo (step E b w k fn s).1 w k
      → step E b w k other later ≡ (ok v, (b.load w k later).1)
  step_once fn other s later inert key up up' h kept =
      let (raw, saved, decoded) = step_memoizes fn s inert key up h in
      step_replay other later up' (kept ∙ saved)
      ∙ ap (λ o. (or_fail bad_memo o, (b.load w k later).1)) decoded

-- A step keeps what the backend's load and save and its body keep.
module _ (E : Env) {W : Type 0} {P : W → Type 0} (b : Backend W) (w k : Str) (fn : Action W Value)
    (loads : Keeps P (b.load w k)) (saves : (x : Str) → Keeps P (b.save w k x))
    (kept : Keeps P fn) where
  finish-Keeps : (found : Option Str) → Keeps P (finish E b w k fn found)
  unfolding finish run_and_save
  finish-Keeps none = search (keeps_rules, saves) depth 20
  finish-Keeps (some raw) = Keeps-lift _

  pub step-Keeps : Keeps P (step E b w k fn)
  unfolding step
  step-Keeps = search (keeps_rules, finish-Keeps) depth 20
