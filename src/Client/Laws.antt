-- ===== src/Client/Laws.antt =====
-- The client's `ExecTool` in the sandbox and on the log.
use trajectory_irmrd.Base.{
  ◌≡◌, refl, true, Bool-cases, inl, inr, Option, Str, str_eq, arith, ℤ, Fields, err,
  sandbox_forbidden, ◌>>=◌, Keeps, keeps_rules, Env,
}
use trajectory_irmrd.Effects.{requires_block_and_gate}
use trajectory_irmrd.Effects.Mode.{mode_sandbox, assert_tool_allowed}
use trajectory_irmrd.Resume.{World, Tool}
use trajectory_irmrd.Resume.Guard.{IsGuarded, plain-IsGuarded, gated-IsGuarded}
use trajectory_irmrd.Client.{Trajectory, scope, exec_tool}

module _ (E : Env) {S : Type 0} (t : Trajectory S) where
  -- In the sandbox the client's ExecTool refuses a gated tool with its name and effect, and
  -- leaves the log, the memos and the executions as they were.
  pub exec_tool_sandbox :
      (step_n seq : ℤ) (tool : Tool) (args : Option Fields) (w : World S)
      → t.mode ≡ mode_sandbox
      → requires_block_and_gate tool.effect ≡ true
      → exec_tool E t step_n seq tool args w ≡ (err (sandbox_forbidden tool.name tool.effect), w)
  unfolding exec_tool assert_tool_allowed ◌>>=◌ str_eq
  exec_tool_sandbox step_n seq tool args w m g = rw (m, g) refl

  exec_tool-Keeps :
      (name : Str) (step_n seq step' seq' : ℤ) (tool : Tool) (args : Option Fields)
      → (tool.name ≡ name → requires_block_and_gate tool.effect ≡ true)
      → Keeps (IsGuarded (scope E t) name step_n seq) (exec_tool E t step' seq' tool args)
  unfolding exec_tool
  exec_tool-Keeps name step_n seq step' seq' tool args gated =
      elim (Bool-cases (requires_block_and_gate tool.effect)) [
        | inl gate ↦ rw gate (
            search
              (
                keeps_rules,
                gated-IsGuarded (scope E t) name step_n seq E step' seq' tool.name tool.fn _,
              )
              depth 20)
        | inr plain ↦ rw plain (
            search
              (
                keeps_rules,
                plain-IsGuarded (scope E t) name step_n seq E step' seq' tool.name tool.fn _
                    (λ same. ground (arith, gated same)),
              )
              depth 20)
      ]

  -- The client's ExecTool, at any step and sequence number, keeps the claim discipline of a slot
  -- (unique keys, at most one execution of the name there, and none before the slot is taken), if
  -- the tool is gated whenever it has that name.
  pub exec_tool-IsGuarded :
      (name : Str) (step_n seq step' seq' : ℤ) (tool : Tool) (args : Option Fields) (w : World S)
      → (tool.name ≡ name → requires_block_and_gate tool.effect ≡ true)
      → IsGuarded (scope E t) name step_n seq w
      → IsGuarded (scope E t) name step_n seq (exec_tool E t step' seq' tool args w).1
  exec_tool-IsGuarded name step_n seq step' seq' tool args w gated h =
      (exec_tool-Keeps name step_n seq step' seq' tool args gated).at w h
