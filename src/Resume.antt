-- ===== src/Resume.antt =====
-- Seal and resume, go/trajir/resume/gate.go and step.go: gated and plain tool calls, and `RunStep`.
pub mod Plan
pub mod Guard
pub mod AtMostOnce
pub mod Memoized
pub mod SealKept
pub mod Sealed
mod Tests
use trajectory_irmrd.Base.{
  ℕ, zero, suc, ◌+◌, ◌*◌, Bool, true, false, not, Option, none, some, List, [], ◌∷◌, ◌++◌,
  if◌then◌else◌, ◌==◌, length, Str, str, str_eq, ℤ, pos, next, itoa, Value, null, text, arr, obj,
  Fields, end, field, list_to_items, Error, Result, ok, err, and_then, blocked_needs_gate,
  tool_failed, unknown_tool, Action, pure, raise, lift, gets, ◌>>=◌, ◌>>◌, Env,
}
use trajectory_irmrd.Nodes.{Node}
use trajectory_irmrd.Log.{Db, append, claim_tool_call}
use trajectory_irmrd.Effects.{EffectClass, requires_block_and_gate}
use trajectory_irmrd.Effects.Mode.{Mode, mode_live, assert_tool_allowed}
use trajectory_irmrd.Durable.{Backend, infer, tool}
use trajectory_irmrd.Resume.Plan.{ToolCall, as_string_map, tool_calls_from_plan}

-- One execution of a tool body: its name, the step and sequence number it ran for, its arguments.
pub record Execution : Type 0 where
  pub tool_name : Str
  pub step_n : ℤ
  pub seq : ℤ
  pub args : Fields

-- The log's table, the durable backend's state, and every execution of a tool body so far.
pub record World (S : Type 0) : Type 0 where
  pub db : Db
  pub memo : S
  pub executions : List Execution

-- A tool body: its outcome may depend on its arguments and on every earlier execution.
abbrev pub ToolFunc : Type 0
ToolFunc = Fields → List Execution → Result Value

-- A model: its plan for a step's context.
abbrev pub ModelFunc : Type 0
ModelFunc = Fields → Result Value

pub record Tool : Type 0 where
  pub name : Str
  pub effect : EffectClass
  pub fn : ToolFunc

-- Who writes: the identifiers of a trajectory.
pub record Scope : Type 0 where
  pub trajectory_id : Str
  pub tenant_id : Str

module _ {S : Type 0} where
  unfoldable pub on_log {ℓ} : {A : Type ℓ} → Action Db A → Action (World S) A
  on_log m w = ((m w.db).0, record w { db = (m w.db).1 })

  unfoldable pub on_memo {ℓ} : {A : Type ℓ} → Action S A → Action (World S) A
  on_memo m w = ((m w.memo).0, record w { memo = (m w.memo).1 })

  abbrev pub world_backend : Backend S → Backend (World S)
  world_backend b = record {
    load = λ w k. on_memo (b.load w k);
    save = λ w k x. on_memo (b.save w k x);
    close = on_memo b.close;
  }

  -- The tool's body runs: from here on the execution has happened, whatever it returns.
  unfoldable pub execute : Str → ℤ → ℤ → ToolFunc → Fields → Action (World S) Value
  execute tool_name step_n seq fn args w = (
    fn args w.executions,
    record w {
      executions =
          w.executions
          ++ record { tool_name = tool_name; step_n = step_n; seq = seq; args = args } ∷ [];
    },
  )

-- `if args == nil { args = map[string]any{} }`
abbrev pub args_or_empty : Option Fields → Fields
args_or_empty none = end
args_or_empty (some m) = m

abbrev pub call_payload : Str → Fields → Option Fields
call_payload tool_name args =
    some (field (str "tool") (text tool_name) (field (str "args") (obj args) end))

abbrev pub result_payload : Value → Option Fields
result_payload result = some (field (str "result") result end)

abbrev pub abort_payload : Str → Option Fields
abort_payload tool_name = some (
    field (str "reason") (text (str "BLOCKED_NEEDS_GATE"))
      (field (str "tool") (text tool_name) end))

module _ (E : Env) {S : Type 0} (scope : Scope) where
  -- `log.Append` for a step of this trajectory.
  unfoldable pub append_to : Str → ℤ → Option Fields → ℤ → Action (World S) Node
  append_to kind step_n payload seq =
      on_log (append E kind (some step_n) payload scope.trajectory_id scope.tenant_id seq)

  unfoldable pub run_claimed : ℤ → ℤ → Str → ToolFunc → Fields → Bool → Action (World S) Value
  run_claimed step_n seq tool_name fn args claimed =
      if not claimed
      then (do
        append_to (str "ABORT") step_n (abort_payload tool_name) (next seq)
        raise (blocked_needs_gate step_n tool_name))
      else (do
        result ← execute tool_name step_n seq fn args
        append_to (str "TOOL_RESULT") step_n (result_payload result) (next seq)
        pure result)

  unfoldable pub gated_tool_call : ℤ → ℤ → Str → ToolFunc → Option Fields → Action (World S) Value
  unfolding run_claimed
  gated_tool_call step_n seq tool_name fn args? = do
    let args = args_or_empty args?
    claimed ← on_log (
        claim_tool_call E step_n (call_payload tool_name args) scope.trajectory_id scope.tenant_id
          seq)
    run_claimed step_n seq tool_name fn args claimed

  unfoldable pub plain_tool_call : ℤ → ℤ → Str → ToolFunc → Option Fields → Action (World S) Value
  plain_tool_call step_n seq tool_name fn args? = do
    let args = args_or_empty args?
    append_to (str "TOOL_CALL") step_n (call_payload tool_name args) seq
    result ← execute tool_name step_n seq fn args
    append_to (str "TOOL_RESULT") step_n (result_payload result) (next seq)
    pure result

-- RunStepConfig, with the defaults of the empty workflow id and mode filled in by `run_step`. The
-- test hook OnDecisionSealed has no effect on the state and is left out.
pub record RunStepConfig (S : Type 0) : Type 0 where
  pub backend : Backend S
  pub tenant_id : Str
  pub trajectory_id : Str
  pub workflow_id : Str
  pub tools : Str → Option Tool
  pub mode : Mode

abbrev pub scope_of : {S : Type 0} → RunStepConfig S → Scope
scope_of cfg = record { trajectory_id = cfg.trajectory_id; tenant_id = cfg.tenant_id }

-- The empty workflow id and mode stand for the trajectory's id and the live mode.
abbrev pub with_defaults : {S : Type 0} → RunStepConfig S → RunStepConfig S
with_defaults cfg = record cfg {
  workflow_id = if cfg.workflow_id == [] then cfg.trajectory_id else cfg.workflow_id;
  mode = if cfg.mode == [] then mode_live else cfg.mode;
}

-- `seq := 2 + 2*i`. A slice index is far below 2^62, so the product does not wrap.
abbrev pub tool_seq : ℕ → ℤ
tool_seq i = pos (2 + 2 * i)

-- `fmt.Sprintf("%s@%d", call.Name, seq)`
abbrev pub tool_step_key : Str → ℤ → Str
tool_step_key name seq = name ++ b'@' ∷ itoa seq

module _ (E : Env) {S : Type 0} (cfg : RunStepConfig S) (step_n : ℤ) where
  -- The body that the durable step wraps: gated or plain by the tool's effect.
  unfoldable pub tool_body : Tool → ToolCall → ℤ → Action (World S) Value
  tool_body t call seq =
      if requires_block_and_gate t.effect
      then gated_tool_call E (scope_of cfg) step_n seq call.name t.fn
          (some (args_or_empty call.args))
      else plain_tool_call E (scope_of cfg) step_n seq call.name t.fn
          (some (args_or_empty call.args))

  unfoldable pub run_known : Tool → ToolCall → ℤ → Action (World S) Value
  run_known t call seq = do
    lift (assert_tool_allowed cfg.mode call.name t.effect)
    tool E (world_backend cfg.backend) cfg.workflow_id (tool_step_key call.name seq)
        (tool_body t call seq)

  -- One round of the loop over the plan's calls.
  unfoldable pub run_tool : ToolCall → ℕ → Action (World S) Value
  run_tool call i = elim (cfg.tools call.name) [
    | none ↦ raise (unknown_tool call.name)
    | some t ↦ run_known t call (tool_seq i)
  ]

  -- The loop, from round `i` on.
  unfoldable pub run_tools : List ToolCall → ℕ → Action (World S) (List Value)
  run_tools [] i = pure []
  run_tools (call ∷ calls) i = do
    result ← run_tool call i
    results ← run_tools calls (suc i)
    pure (result ∷ results)

  -- After the plan is sealed: the tools, then COMMIT_STEP behind the last tool's slots.
  unfoldable pub run_plan : List ToolCall → Action (World S) (List Value)
  run_plan calls = do
    results ← run_tools calls 0
    append_to E (scope_of cfg) (str "COMMIT_STEP") step_n (some end) (tool_seq (length calls))
    pure results

  unfoldable pub run_step_with : ModelFunc → Fields → Action (World S) (List Value)
  run_step_with model step_context = do
    append_to E (scope_of cfg) (str "PROJECT_CONTEXT") step_n (some step_context) (pos 0)
    plan_any ←
        infer E (world_backend cfg.backend) cfg.workflow_id (str "step" ++ itoa step_n)
          (lift (model step_context))
    plan ← lift (as_string_map plan_any)
    append_to E (scope_of cfg) (str "DECISION") step_n (some (field (str "plan") (obj plan) end))
        (pos 1)
    calls ← lift (tool_calls_from_plan plan)
    run_plan calls

-- `RunStep` with a log and a backend.
unfoldable pub run_step :
    Env
    → {S : Type 0} → RunStepConfig S
    → ℤ
    → ModelFunc
    → Option Fields
    → Action (World S) (List Value)
run_step E cfg step_n model step_context =
    run_step_with E (with_defaults cfg) step_n model (args_or_empty step_context)
