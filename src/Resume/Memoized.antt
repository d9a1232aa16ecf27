-- ===== src/Resume/Memoized.antt =====
-- A step that is run again on a durable backend.
use mathlib.Core.Path.{subst}
use trajectory_irmrd.Base.{
  ℕ, ◌≡◌, ◌≢◌, refl, sym, ap, ◌∙◌, Option, none, some, [], ◌++◌, Str, str, str_eq, ℤ, pos, itoa,
  Fields, Value, Result, ok, Action, raise, lift, ◌>>=◌, ◌>>◌, bind-cong_left, bind-cong_right,
  unknown_tool, Keeps, keeps_rules, Env,
}
use trajectory_irmrd.Log.{Db, append}
use trajectory_irmrd.Effects.Mode.{assert_tool_allowed}
use trajectory_irmrd.Durable.{Backend, IsBackend, step, infer, tool}
use trajectory_irmrd.Durable.Laws.{step_replay, step_once, IsInert}
use trajectory_irmrd.Resume.Plan.{ToolCall}
use trajectory_irmrd.Resume.{
  World, ToolFunc, ModelFunc, Tool, RunStepConfig, on_log, on_memo, execute, world_backend,
  append_to, gated_tool_call, plain_tool_call, scope_of, tool_body, run_known, run_tool,
  run_step_with, tool_seq, tool_step_key,
}

module _ {S : Type 0} {b : Backend S} (L : IsBackend b) where
  -- A lawful backend is lawful as a part of the world.
  unfoldable pub world_backend-IsBackend : IsBackend (world_backend b)
  unfolding on_memo
  world_backend-IsBackend = record {
    IsKey = L.IsKey;
    IsUp = λ w. L.IsUp w.memo;
    memo = λ w. L.memo w.memo;
    load_ok = λ w k s. L.load_ok w k s.memo;
    load_up = λ w k s. L.load_up w k s.memo;
    load_keeps = λ w k s. L.load_keeps w k s.memo;
    save_ok = λ w k x s. L.save_ok w k x s.memo;
    save_up = λ w k x s. L.save_up w k x s.memo;
    save_first = λ w k x y s. L.save_first w k x y s.memo;
    save_new = λ w k x s. L.save_new w k x s.memo;
  }

module _ {S : Type 0} (m : S) where
  -- The durable store is as it was.
  abbrev SameMemo : World S → Type 0
  SameMemo w = w.memo ≡ m

  on_log-SameMemo {ℓ} : {A : Type ℓ} (l : Action Db A) → Keeps SameMemo (on_log l)
  unfolding on_log
  on_log-SameMemo l = record { at = λ w h. h }

  execute-SameMemo :
      (name : Str) (step_n seq : ℤ) (fn : ToolFunc) (args : Fields)
      → Keeps SameMemo (execute name step_n seq fn args)
  unfolding execute
  execute-SameMemo name step_n seq fn args = record { at = λ w h. h }

  ruleset memo_rules = (keeps_rules, on_log-SameMemo, execute-SameMemo)

  module _ (E : Env) (cfg : RunStepConfig S) (step_n : ℤ) where
    gated-SameMemo :
        (seq : ℤ) (name : Str) (fn : ToolFunc) (args : Option Fields)
        → Keeps SameMemo (gated_tool_call E (scope_of cfg) step_n seq name fn args)
    unfolding gated_tool_call append_to
    gated-SameMemo seq name fn args = search memo_rules depth 20

    plain-SameMemo :
        (seq : ℤ) (name : Str) (fn : ToolFunc) (args : Option Fields)
        → Keeps SameMemo (plain_tool_call E (scope_of cfg) step_n seq name fn args)
    unfolding plain_tool_call append_to
    plain-SameMemo seq name fn args = search memo_rules depth 20

    tool_body-SameMemo :
        (t : Tool) (call : ToolCall) (seq : ℤ) → Keeps SameMemo (tool_body E cfg step_n t call seq)
    unfolding tool_body
    tool_body-SameMemo t call seq = search (keeps_rules, gated-SameMemo, plain-SameMemo)

module _ (E : Env) {S : Type 0} (cfg : RunStepConfig S) (L : IsBackend cfg.backend) where
  prefixed-ne : (k : Str) → str "tool:" ++ k ≢ []
  prefixed-ne k e = cc

  tool_body-IsInert :
      (step_n : ℤ) (t : Tool) (call : ToolCall) (seq : ℤ)
      → IsInert (world_backend-IsBackend L) (tool_body E cfg step_n t call seq)
  unfolding world_backend-IsBackend
  tool_body-IsInert step_n t call seq = record {
    up = λ w up.
        subst L.IsUp (sym ((tool_body-SameMemo w.memo E cfg step_n t call seq).at w refl)) up;
    keeps = λ w v j.
        ap (λ m. L.memo m v j) ((tool_body-SameMemo w.memo E cfg step_n t call seq).at w refl);
  }

  run_tool_allowed :
      (step_n : ℤ) (t : Tool) (call : ToolCall) (i : ℕ) (w : World S)
      → cfg.tools call.name ≡ some t
      → assert_tool_allowed cfg.mode call.name t.effect ≡ ok tt
      → run_tool E cfg step_n call i w
        ≡ step E
            (world_backend cfg.backend)
            cfg.workflow_id
            (str "tool:" ++ tool_step_key call.name (tool_seq i))
            (tool_body E cfg step_n t call (tool_seq i))
            w
  unfolding run_tool run_known tool ◌>>=◌
  run_tool_allowed step_n t call i w found allowed =
      ap (λ o. tool_case step_n call i o w) found
      ∙ ap (λ r. allowed_case step_n t call i r w) allowed
    where
      tool_case : ℤ → ToolCall → ℕ → Option Tool → Action (World S) Value
      tool_case step_n call i o = elim o [
        | none ↦ raise (unknown_tool call.name)
        | some t ↦ run_known E cfg step_n t call (tool_seq i)
      ]

      allowed_case : ℤ → Tool → ToolCall → ℕ → Result (Unit {0}) → Action (World S) Value
      allowed_case step_n t call i r =
          lift r
          >> tool E (world_backend cfg.backend) cfg.workflow_id
              (tool_step_key call.name (tool_seq i)) (tool_body E cfg step_n t call (tool_seq i))

  -- After a tool call succeeded in one step, a call of the same tool at the same plan position of
  -- any other step, with any arguments, returns the first result, executes nothing and logs
  -- nothing, since the memo key names no step.
  pub tool_memo_ignores_step :
      (first second : ℤ) (t : Tool) (call again : ToolCall) (i : ℕ) (w later : World S) {v : Value}
      → cfg.workflow_id ≢ []
      → L.IsKey cfg.workflow_id
      → again.name ≡ call.name
      → cfg.tools call.name ≡ some t
      → assert_tool_allowed cfg.mode call.name t.effect ≡ ok tt
      → L.IsUp w.memo
      → L.IsUp later.memo
      → (run_tool E cfg first call i w).0 ≡ ok v
      → later.memo ≡ (run_tool E cfg first call i w).1.memo
      → ((run_tool E cfg second again i later).0 ≡ ok v)
        × ((run_tool E cfg second again i later).1.db ≡ later.db)
        × ((run_tool E cfg second again i later).1.executions ≡ later.executions)
  unfolding world_backend-IsBackend on_memo
  tool_memo_ignores_step first second t call again i w later set key same found allowed up up' h
        kept =
      let e = run_tool_allowed first t call i w found allowed in
      let e' =
        run_tool_allowed second t again i later (ap cfg.tools same ∙ found)
          (ap (λ n. assert_tool_allowed cfg.mode n t.effect) same ∙ allowed) in
      let body = tool_body E cfg second t again (tool_seq i) in
      let rekeyed =
        ap
          (λ n.
            step E (world_backend cfg.backend) cfg.workflow_id
              (str "tool:" ++ tool_step_key n (tool_seq i)) body later)
          same in
      let once =
        step_once E (world_backend-IsBackend L) cfg.workflow_id
          (str "tool:" ++ tool_step_key call.name (tool_seq i)) set
          (prefixed-ne (tool_step_key call.name (tool_seq i)))
          (tool_body E cfg first t call (tool_seq i)) body w later
          (tool_body-IsInert first t call (tool_seq i)) key up up' (ap (λ p. p.0) (sym e) ∙ h)
          (ap (λ m. L.memo m cfg.workflow_id (str "tool:" ++ tool_step_key call.name (tool_seq i)))
            (kept ∙ ap (λ p. p.1.memo) e)) in
      let whole = e' ∙ rekeyed ∙ once in
      (ap (λ p. p.0) whole, ap (λ p. p.1.db) whole, ap (λ p. p.1.executions) whole)

  -- Once a step's plan is saved in a lawful backend, a run of the step is the same for every
  -- model: the model is not asked again.
  pub plan_memoized :
      (step_n : ℤ) (model other : ModelFunc) (context : Fields) (w : World S) {raw : Str}
      → cfg.workflow_id ≢ []
      → L.IsUp w.memo
      → L.memo w.memo cfg.workflow_id (str "infer:" ++ (str "step" ++ itoa step_n)) ≡ some raw
      → run_step_with E cfg step_n model context w ≡ run_step_with E cfg step_n other context w
  unfolding run_step_with infer append_to on_log world_backend-IsBackend
  plan_memoized step_n model other context w {raw} set up saved =
      bind-cong_right
        (append_to E (scope_of cfg) (str "PROJECT_CONTEXT") step_n (some context) (pos 0)) _ _ w
        λ node.
          let w' : World S =
            (on_log
              (append E (str "PROJECT_CONTEXT") (some step_n) (some context) cfg.trajectory_id
                cfg.tenant_id (pos 0))
              w).1 in
          let key = str "infer:" ++ (str "step" ++ itoa step_n) in
          bind-cong_left _ _ _ w' (
            step_replay E (world_backend-IsBackend L) cfg.workflow_id key set (λ x. cc)
              (lift (model context)) w' up saved
            ∙ sym (
                step_replay E (world_backend-IsBackend L) cfg.workflow_id key set (λ x. cc)
                  (lift (other context)) w' up saved))
