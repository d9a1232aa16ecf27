-- ===== src/Resume/AtMostOnce.antt =====
-- The executions of a gated tool over any runs of `RunStep`.
use mathlib.Core.Path.{subst}
use trajectory_irmrd.Base.{
  ℕ, suc, ◌≤◌, ◌≡◌, sym, ap, ◌∙◌, inl, inr, true, Option, some, List, [], ◌∷◌, arith, count,
  Bool-cases, Option-cases, Str, str_eq, ℤ, Fields, lift, Keeps, keeps_rules, Keeps-raise,
  Keeps-lift, Keeps-bind, Keeps-pure, Env,
}
use trajectory_irmrd.Log.{Db}
use trajectory_irmrd.Log.AppendOnly.{Separated, Extends}
use trajectory_irmrd.Effects.{requires_block_and_gate}
use trajectory_irmrd.Durable.{infer, tool}
use trajectory_irmrd.Durable.Laws.{step-Keeps}
use trajectory_irmrd.Resume.Plan.{ToolCall}
use trajectory_irmrd.Resume.{
  World, ModelFunc, Tool, Scope, RunStepConfig, world_backend, scope_of, with_defaults, tool_body,
  run_known, run_tool, run_tools, run_plan, run_step_with, run_step, tool_seq,
}
use trajectory_irmrd.Resume.Guard.{
  IsGuarded, taken_grown, ran_at, append_to-IsGuarded, on_memo-IsGuarded, plain-IsGuarded,
  gated-IsGuarded,
}

-- The tool of this name, if the run has one, is gated.
abbrev pub IsGated : {S : Type 0} → RunStepConfig S → Str → Type 0
IsGated cfg name = (t : Tool) → cfg.tools name ≡ some t → requires_block_and_gate t.effect ≡ true

module _ (name : Str) (step_n seq : ℤ) (E : Env) {S : Type 0} (cfg : RunStepConfig S)
    (gated : IsGated cfg name) (step' : ℤ) where
  abbrev Guarded : World S → Type 0
  Guarded = IsGuarded (scope_of cfg) name step_n seq

  tool_body-IsGuarded :
      (t : Tool) (call : ToolCall) (seq' : ℤ)
      → cfg.tools call.name ≡ some t
      → Keeps Guarded (tool_body E cfg step' t call seq')
  unfolding tool_body
  tool_body-IsGuarded t call seq' found = elim (Bool-cases (requires_block_and_gate t.effect)) [
    | inl gate ↦ rw gate (gated-IsGuarded _ name step_n seq E step' seq' call.name t.fn _)
    | inr plain ↦ rw plain (
        plain-IsGuarded _ name step_n seq E step' seq' call.name t.fn _
          (λ same. ground (arith, gated t (ap cfg.tools (sym same) ∙ found))))
  ]

  run_known-IsGuarded :
      (t : Tool) (call : ToolCall) (seq' : ℤ)
      → cfg.tools call.name ≡ some t
      → Keeps Guarded (run_known E cfg step' t call seq')
  unfolding run_known tool
  run_known-IsGuarded t call seq' found =
      search
        (
          keeps_rules,
          step-Keeps E (world_backend cfg.backend) cfg.workflow_id _ _
              (on_memo-IsGuarded _ name step_n seq (cfg.backend.load cfg.workflow_id _))
              (λ x. on_memo-IsGuarded _ name step_n seq (cfg.backend.save cfg.workflow_id _ x))
              (tool_body-IsGuarded t call seq' found),
        )
        depth 20

  run_tool-IsGuarded : (call : ToolCall) (i : ℕ) → Keeps Guarded (run_tool E cfg step' call i)
  unfolding run_tool
  run_tool-IsGuarded call i = elim (Option-cases (cfg.tools call.name)) [
    | inl unknown ↦ rw (unknown, run_tool) (Keeps-raise _)
    | inr (t, found) ↦ rw (found, run_tool) (run_known-IsGuarded t call (tool_seq i) found)
  ]

  run_tools-IsGuarded :
      (calls : List ToolCall) (i : ℕ) → Keeps Guarded (run_tools E cfg step' calls i)
  unfolding run_tools
  run_tools-IsGuarded [] i = search keeps_rules
  run_tools-IsGuarded (call ∷ calls) i =
      Keeps-bind (run_tool E cfg step' call i) _ (run_tool-IsGuarded call i) λ result.
        Keeps-bind (run_tools E cfg step' calls (suc i)) _ (run_tools-IsGuarded calls (suc i))
          λ results. Keeps-pure (result ∷ results)

  run_step_with-IsGuarded :
      (model : ModelFunc) (context : Fields)
      → Keeps Guarded (run_step_with E cfg step' model context)
  unfolding run_step_with run_plan infer
  run_step_with-IsGuarded model context =
      search
        (
          keeps_rules,
          append_to-IsGuarded,
          run_tools-IsGuarded,
          step-Keeps E (world_backend cfg.backend) cfg.workflow_id _ (lift (model context))
              (on_memo-IsGuarded _ name step_n seq (cfg.backend.load cfg.workflow_id _))
              (λ x. on_memo-IsGuarded _ name step_n seq (cfg.backend.save cfg.workflow_id _ x))
              (Keeps-lift (model context)),
        )
        depth 20

-- Runs of one trajectory, one after another, each with its own failures, tools, step, model and
-- context; between them other writers may add rows and change the durable store.
pub data Runs {S : Type 0} (scope : Scope) (name : Str) (start : World S) : World S → Type 0 where
  begin : Runs scope name start start
  run :
      {w : World S}
      → Runs scope name start w
      → (E : Env) (cfg : RunStepConfig S) → scope_of cfg ≡ scope
      → IsGated cfg name
      → (step_n : ℤ) (model : ModelFunc) (context : Option Fields)
      → Runs scope name start (run_step E cfg step_n model context w).1
  others :
      {w : World S}
      → Runs scope name start w
      → (db : Db) (memo : S) → Extends w.db.rows db.rows
      → Separated db.rows
      → Runs scope name start (record w { db = db; memo = memo })

module _ {S : Type 0} (scope : Scope) (name : Str) (step_n seq : ℤ) where
  run_step-IsGuarded :
      (E : Env) (cfg : RunStepConfig S)
      → scope_of cfg ≡ scope
      → IsGated cfg name
      → (step' : ℤ) (model : ModelFunc) (context : Option Fields)
      → Keeps (IsGuarded scope name step_n seq) (run_step E cfg step' model context)
  unfolding run_step
  run_step-IsGuarded E cfg same gated step' model context =
      subst (λ sc. Keeps (IsGuarded sc name step_n seq) (run_step E cfg step' model context)) same
        (run_step_with-IsGuarded name step_n seq E (with_defaults cfg) gated step' model _)

  Runs-IsGuarded :
      {start w : World S}
      → IsGuarded scope name step_n seq start
      → Runs scope name start w
      → IsGuarded scope name step_n seq w
  Runs-IsGuarded h begin = h
  Runs-IsGuarded h (run r E cfg same gated step' model context) =
      (run_step-IsGuarded E cfg same gated step' model context).at _ (Runs-IsGuarded h r)
  Runs-IsGuarded h (others r db memo grown separated) =
      let g = Runs-IsGuarded h r in
      record {
        separated = separated;
        at_most_once = g.at_most_once;
        claimed_first = λ free. g.claimed_first (taken_grown scope name step_n seq grown free);
      }

-- Over any runs of a trajectory's steps, with any models, contexts, failures and outcomes of tools,
-- and with rows that other writers add in between, a tool that is gated in every run executes at
-- most once for a step and sequence number, if it had not executed there and the table's keys were
-- unique at the start.
pub gated_at_most_once :
    {S : Type 0} (scope : Scope) (name : Str) (step_n seq : ℤ) {start w : World S}
    → Separated start.db.rows
    → count (ran_at name step_n seq) start.executions ≡ 0
    → Runs scope name start w
    → count (ran_at name step_n seq) w.executions ≤ 1
gated_at_most_once scope name step_n seq separated fresh runs =
    (Runs-IsGuarded scope name step_n seq
      (record { separated = separated; at_most_once = omega arith; claimed_first = λ _. fresh })
      runs).at_most_once
