-- ===== src/Client.antt =====
-- The client's open handle on a trajectory, go/trajir/client/client.go: the methods that write a
-- step. The handle's log and backend are open; how they are opened and closed is not modelled.
pub mod Laws
mod Tests
use trajectory_irmrd.Base.{
  Bool, Option, none, some, List, str, Str, ℤ, pos, Value, obj, Fields, end, field, Result, Action,
  pure, lift, ◌>>=◌, ◌>>◌, Env, if◌then◌else◌,
}
use trajectory_irmrd.Effects.{requires_block_and_gate}
use trajectory_irmrd.Effects.Mode.{Mode, assert_tool_allowed}
use trajectory_irmrd.Durable.{Backend}
use trajectory_irmrd.Resume.{
  World, Scope, Tool, ModelFunc, RunStepConfig, args_or_empty, append_to, gated_tool_call,
  plain_tool_call, run_step,
}

-- `Trajectory`: its identifiers, its mode and its backend. The log's table is in the world.
pub record Trajectory (S : Type 0) : Type 0 where
  pub trajectory_id : Str
  pub tenant_id : Str
  pub workflow_id : Str
  pub mode : Mode
  pub backend : Backend S

pub record ProjectContext : Type 0 where
  pub step_n : ℤ
  pub context : Fields

pub record Decision : Type 0 where
  pub step_n : ℤ
  pub plan : Fields

pub record ToolResult : Type 0 where
  pub step_n : ℤ
  pub result : Value

module _ (E : Env) {S : Type 0} (t : Trajectory S) where
  abbrev pub scope : Scope
  scope = record { trajectory_id = t.trajectory_id; tenant_id = t.tenant_id }

  unfoldable pub project : ℤ → Option Fields → Action (World S) ProjectContext
  project step_n context? = do
    let context = args_or_empty context?
    append_to E scope (str "PROJECT_CONTEXT") step_n (some context) (pos 0)
    pure (record { step_n = step_n; context = context })

  unfoldable pub seal_decision : ℤ → Option Fields → Action (World S) Decision
  seal_decision step_n plan? = do
    let plan = args_or_empty plan?
    append_to E scope (str "DECISION") step_n (some (field (str "plan") (obj plan) end)) (pos 1)
    pure (record { step_n = step_n; plan = plan })

  unfoldable pub exec_tool : ℤ → ℤ → Tool → Option Fields → Action (World S) ToolResult
  exec_tool step_n seq tool args? = do
    let args = args_or_empty args?
    lift (assert_tool_allowed t.mode tool.name tool.effect)
    result ←
        if requires_block_and_gate tool.effect
        then gated_tool_call E scope step_n seq tool.name tool.fn (some args)
        else plain_tool_call E scope step_n seq tool.name tool.fn (some args)
    pure (record { step_n = step_n; result = result })

  unfoldable pub commit_step : ℤ → ℤ → Action (World S) (Unit {0})
  commit_step step_n seq = do append_to E scope (str "COMMIT_STEP") step_n (some end) seq; pure tt

  -- `RunStep` through the handle, without the test hook.
  unfoldable pub run_trajectory_step :
      ℤ → ModelFunc → (Str → Option Tool) → Option Fields → Action (World S) (List Value)
  run_trajectory_step step_n model tools step_context =
      run_step E
        (record {
          backend = t.backend;
          tenant_id = t.tenant_id;
          trajectory_id = t.trajectory_id;
          workflow_id = t.workflow_id;
          tools = tools;
          mode = t.mode;
        })
        step_n model step_context
