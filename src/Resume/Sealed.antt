-- ===== src/Resume/Sealed.antt =====
-- The order of `RunStep`, go/trajir/resume/step.go: the DECISION row and the executions of tools.
use trajectory_irmrd.Base.{
  ℕ, suc, ◌≡◌, ◌≢◌, ◌⊎◌, refl, inl, inr, Option, some, List, [], ◌∷◌, Option-cases, Str, str, ℤ,
  pos, itoa, Fields, ok, Action, lift, bind-state-ok, Keeps, keeps_rules, Keeps-raise, Keeps-lift,
  Keeps-bind, Keeps-pure, Env, ◌++◌,
}
use trajectory_irmrd.Nodes.{Node}
use trajectory_irmrd.Nodes.Construct.{new_node-IsBuiltFrom, new_node-nonempty}
use trajectory_irmrd.Log.AppendOnly.{Separated, append_only}
use trajectory_irmrd.Log.Replay.{append_inv}
use trajectory_irmrd.Log.Stored.{HaveIds, append-HaveIds, append_stores}
use trajectory_irmrd.Durable.{infer, tool}
use trajectory_irmrd.Durable.Laws.{step-Keeps}
use trajectory_irmrd.Resume.Plan.{ToolCall}
use trajectory_irmrd.Resume.{
  World, Execution, ModelFunc, Tool, RunStepConfig, on_log, on_memo, append_to, world_backend,
  scope_of, with_defaults, args_or_empty, tool_body, run_known, run_tool, run_tools, run_plan,
  run_step_with, run_step, tool_seq,
}
use trajectory_irmrd.Resume.SealKept.{
  plan_payload, IsSealed, IsIdle, on_memo-IsSealed, append_to-IsSealed, gated-IsSealed,
  plain-IsSealed,
}

module _ (E : Env) {S : Type 0} (cfg : RunStepConfig S) (step_n : ℤ) where
  abbrev Sealed : World S → Type 0
  Sealed = IsSealed E (scope_of cfg) step_n

  tool_body-IsSealed :
      (t : Tool) (call : ToolCall) (seq : ℤ) → Keeps Sealed (tool_body E cfg step_n t call seq)
  unfolding tool_body
  tool_body-IsSealed t call seq =
      search (
        keeps_rules,
        gated-IsSealed E (scope_of cfg) step_n,
        plain-IsSealed E (scope_of cfg) step_n,
      )

  run_known-IsSealed :
      (t : Tool) (call : ToolCall) (seq : ℤ) → Keeps Sealed (run_known E cfg step_n t call seq)
  unfolding run_known tool
  run_known-IsSealed t call seq =
      search
        (
          keeps_rules,
          step-Keeps E (world_backend cfg.backend) cfg.workflow_id _ _
              (on_memo-IsSealed E (scope_of cfg) step_n (cfg.backend.load cfg.workflow_id _))
              (λ x. on_memo-IsSealed E (scope_of cfg) step_n (cfg.backend.save cfg.workflow_id _ x))
              (tool_body-IsSealed t call seq),
        )
        depth 20

  run_tool-IsSealed : (call : ToolCall) (i : ℕ) → Keeps Sealed (run_tool E cfg step_n call i)
  unfolding run_tool
  run_tool-IsSealed call i = elim (Option-cases (cfg.tools call.name)) [
    | inl unknown ↦ rw (unknown, run_tool) (Keeps-raise _)
    | inr (t, found) ↦ rw (found, run_tool) (run_known-IsSealed t call (tool_seq i))
  ]

  run_tools-IsSealed :
      (calls : List ToolCall) (i : ℕ) → Keeps Sealed (run_tools E cfg step_n calls i)
  unfolding run_tools
  run_tools-IsSealed [] i = search keeps_rules
  run_tools-IsSealed (call ∷ calls) i =
      Keeps-bind (run_tool E cfg step_n call i) _ (run_tool-IsSealed call i) λ result.
        Keeps-bind (run_tools E cfg step_n calls (suc i)) _ (run_tools-IsSealed calls (suc i))
          λ results. Keeps-pure (result ∷ results)

  run_plan-IsSealed : (calls : List ToolCall) → Keeps Sealed (run_plan E cfg step_n calls)
  unfolding run_plan
  run_plan-IsSealed calls = search (keeps_rules, run_tools-IsSealed, append_to-IsSealed) depth 20

  -- Nothing has run since, or the DECISION stands.
  abbrev pub SealedFirst : List Execution → World S → Type 0
  SealedFirst past w = (w.executions ≡ past) ⊎ Sealed w

  -- After an accepted append the table still is one that `Append` makes.
  append_to-IsIdle :
      (past : List Execution) (kind : Str) (payload : Option Fields) (seq : ℤ) (w : World S)
      {n : Node}
      → ((s : Str) → E.sha256_hex s ≢ [])
      → IsIdle E (scope_of cfg) step_n past w
      → (append_to E (scope_of cfg) kind step_n payload seq w).0 ≡ ok n
      → IsIdle E (scope_of cfg) step_n past (append_to E (scope_of cfg) kind step_n payload seq w).1
  unfolding append_to on_log
  append_to-IsIdle past kind payload seq w {n} hash h e =
      let (json, built, _, _) =
        append_inv E kind (some step_n) payload cfg.trajectory_id cfg.tenant_id seq w.db e in
      let ne =
        new_node-nonempty E hash kind cfg.trajectory_id cfg.tenant_id (some step_n) seq payload _
          built in
      record {
        idle = h.idle;
        separated =
            (append_only E kind (some step_n) payload cfg.trajectory_id cfg.tenant_id seq w.db
              h.separated).separated;
        ids =
            append-HaveIds E kind (some step_n) payload cfg.trajectory_id cfg.tenant_id seq w.db
              h.ids ne e;
      }

  decision-IsSealed :
      (past : List Execution) (plan : Fields) (w : World S) {n : Node}
      → ((s : Str) → E.sha256_hex s ≢ [])
      → IsIdle E (scope_of cfg) step_n past w
      → (append_to E (scope_of cfg) (str "DECISION") step_n (plan_payload plan) (pos 1) w).0 ≡ ok n
      → Sealed (append_to E (scope_of cfg) (str "DECISION") step_n (plan_payload plan) (pos 1) w).1
  unfolding append_to on_log
  decision-IsSealed past plan w {n} hash h e =
      let payload = plan_payload plan in
      let (json, built, _, _) =
        append_inv E (str "DECISION") (some step_n) payload cfg.trajectory_id cfg.tenant_id (pos 1)
          w.db e in
      let ne =
        new_node-nonempty E hash (str "DECISION") cfg.trajectory_id cfg.tenant_id (some step_n)
          (pos 1) payload _ built in
      record {
        separated =
            (append_only E (str "DECISION") (some step_n) payload cfg.trajectory_id cfg.tenant_id
              (pos 1) w.db h.separated).separated;
        plan = plan;
        time = E.now w.db.clock;
        node = n;
        built =
            new_node-IsBuiltFrom E (str "DECISION") cfg.trajectory_id cfg.tenant_id (some step_n)
              (pos 1) payload _ built;
        stored =
            append_stores E (str "DECISION") (some step_n) payload cfg.trajectory_id cfg.tenant_id
              (pos 1) w.db h.ids ne e;
      }

  on_memo-IsIdle {ℓ} :
      {A : Type ℓ} (past : List Execution) (m : Action S A)
      → Keeps (IsIdle E (scope_of cfg) step_n past) (on_memo m)
  unfolding on_memo
  on_memo-IsIdle past m = record {
    at = λ w h. record { idle = h.idle; separated = h.separated; ids = h.ids };
  }

  infer-IsIdle :
      (past : List Execution) (model : ModelFunc) (context : Fields)
      → Keeps (IsIdle E (scope_of cfg) step_n past) (
          infer E
            (world_backend cfg.backend)
            cfg.workflow_id
            (str "step" ++ itoa step_n)
            (lift (model context)))
  unfolding infer
  infer-IsIdle past model context =
      step-Keeps E (world_backend cfg.backend) cfg.workflow_id _ (lift (model context))
        (on_memo-IsIdle past (cfg.backend.load cfg.workflow_id _))
        (λ x. on_memo-IsIdle past (cfg.backend.save cfg.workflow_id _ x))
        (Keeps-lift (model context))

  append_to-executions :
      (past : List Execution) (kind : Str) (payload : Option Fields) (seq : ℤ) (w : World S)
      → w.executions ≡ past
      → (append_to E (scope_of cfg) kind step_n payload seq w).1.executions ≡ past
  unfolding append_to on_log
  append_to-executions past kind payload seq w h = h

  -- A run with its defaults filled in.
  run_step_with-SealedFirst :
      (model : ModelFunc) (context : Fields) (w : World S)
      → ((s : Str) → E.sha256_hex s ≢ [])
      → Separated w.db.rows
      → HaveIds w.db.rows
      → SealedFirst w.executions (run_step_with E cfg step_n model context w).1
  unfolding run_step_with lift
  run_step_with-SealedFirst model context w hash separated ids =
      let past = w.executions in
      let P = SealedFirst past in
      let start : IsIdle E (scope_of cfg) step_n past w = record {
        idle = refl;
        separated = separated;
        ids = ids;
      } in
      bind-state-ok P _ _ w
        (inl (append_to-executions past (str "PROJECT_CONTEXT") (some context) (pos 0) w refl))
        λ n logged.
          let begun =
            append_to-IsIdle past (str "PROJECT_CONTEXT") (some context) (pos 0) w hash start
              logged in
          let asked = (infer-IsIdle past model context).at _ begun in
          bind-state-ok P _ _ _ (inl asked.idle) λ plan_any _.
            bind-state-ok P _ _ _ (inl asked.idle) λ plan _.
              bind-state-ok P _ _ _
                (inl (
                  append_to-executions past (str "DECISION") (plan_payload plan) (pos 1) _
                    asked.idle))
                λ m decided.
                  let sealed_now = decision-IsSealed past plan _ hash asked decided in
                  bind-state-ok P _ _ _ (inr sealed_now)
                    λ calls _. inr ((run_plan-IsSealed calls).at _ sealed_now)

-- A run of a step, with any model, tools and failures of statements, executes no tool, or else the
-- log holds a DECISION node of the step that is built from a plan, if the log's keys are unique,
-- its rows have ids, and the hash gives no empty text.
pub run_step-SealedFirst :
    (E : Env) {S : Type 0} (cfg : RunStepConfig S) (step_n : ℤ) (model : ModelFunc)
    (context : Option Fields) (w : World S)
    → ((s : Str) → E.sha256_hex s ≢ [])
    → Separated w.db.rows
    → HaveIds w.db.rows
    → SealedFirst E cfg step_n w.executions (run_step E cfg step_n model context w).1
unfolding run_step
run_step-SealedFirst E cfg step_n model context w =
    run_step_with-SealedFirst E (with_defaults cfg) step_n model (args_or_empty context) w
