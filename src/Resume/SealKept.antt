-- ===== src/Resume/SealKept.antt =====
-- A sealed step stays sealed: what the DECISION row is, and the calls of tools that keep it.
use trajectory_irmrd.Base.{
  ℕ, ◌≡◌, Option, some, List, Str, str, ℤ, pos, Fields, field, end, obj, Action, Keeps, keeps_rules,
  Env,
}
use trajectory_irmrd.Nodes.{Node}
use trajectory_irmrd.Nodes.Construct.{IsBuiltFrom}
use trajectory_irmrd.Log.{Row, Db, claim_tool_call}
use trajectory_irmrd.Log.AppendOnly.{
  Extends-refl, Separated, IsGrown, append-IsGrown, claim_tool_call-IsGrown,
}
use trajectory_irmrd.Log.Stored.{Holds, HaveIds, Extends-Holds}
use trajectory_irmrd.Resume.{
  World, Execution, ToolFunc, Scope, on_log, on_memo, execute, append_to, run_claimed,
  gated_tool_call, plain_tool_call,
}

abbrev pub plan_payload : Fields → Option Fields
plan_payload plan = some (field (str "plan") (obj plan) end)

module _ (E : Env) {S : Type 0} (scope : Scope) (step_n : ℤ) where
  -- The log holds a DECISION node of the step, built from a plan.
  pub record IsSealed (w : World S) : Type 0 where
    pub separated : Separated w.db.rows
    pub plan : Fields
    pub time : ℕ
    pub node : Node
    pub built :
        IsBuiltFrom E
          (str "DECISION")
          scope.trajectory_id
          scope.tenant_id
          (some step_n)
          (pos 1)
          (plan_payload plan)
          time
          node
    pub stored : Holds node.id w.db.rows

  -- Nothing has run yet, and the table is one that `Append` makes.
  pub record IsIdle (past : List Execution) (w : World S) : Type 0 where
    pub idle : w.executions ≡ past
    pub separated : Separated w.db.rows
    pub ids : HaveIds w.db.rows

  on_log-IsSealed {ℓ} :
      {A : Type ℓ} (m : Action Db A)
      → ((base : List Row) → Keeps (IsGrown base) m)
      → Keeps IsSealed (on_log m)
  unfolding on_log
  on_log-IsSealed m grows = record {
    at = λ w h.
        let g =
          (grows w.db.rows).at w.db
            (record { grown = Extends-refl w.db.rows; separated = h.separated }) in
        record {
          separated = g.separated;
          plan = h.plan;
          time = h.time;
          node = h.node;
          built = h.built;
          stored = Extends-Holds h.node.id g.grown h.stored;
        };
  }

  pub on_memo-IsSealed {ℓ} : {A : Type ℓ} (m : Action S A) → Keeps IsSealed (on_memo m)
  unfolding on_memo
  on_memo-IsSealed m = record {
    at = λ w h. record {
      separated = h.separated;
      plan = h.plan;
      time = h.time;
      node = h.node;
      built = h.built;
      stored = h.stored;
    };
  }

  execute-IsSealed :
      (name : Str) (step' seq : ℤ) (fn : ToolFunc) (args : Fields)
      → Keeps IsSealed (execute name step' seq fn args)
  unfolding execute
  execute-IsSealed name step' seq fn args = record {
    at = λ w h. record {
      separated = h.separated;
      plan = h.plan;
      time = h.time;
      node = h.node;
      built = h.built;
      stored = h.stored;
    };
  }

  pub append_to-IsSealed :
      (kind : Str) (step' : ℤ) (payload : Option Fields) (seq : ℤ)
      → Keeps IsSealed (append_to E scope kind step' payload seq)
  unfolding append_to
  append_to-IsSealed kind step' payload seq = on_log-IsSealed _ (λ base.
      append-IsGrown E base kind (some step') payload scope.trajectory_id scope.tenant_id seq)

  claim-IsSealed :
      (step' : ℤ) (payload : Option Fields) (seq : ℤ)
      → Keeps IsSealed
          (on_log (claim_tool_call E step' payload scope.trajectory_id scope.tenant_id seq))
  claim-IsSealed step' payload seq =
      on_log-IsSealed _ (λ base.
        claim_tool_call-IsGrown E base step' payload scope.trajectory_id scope.tenant_id seq)

  ruleset sealed_rules =
      (keeps_rules, append_to-IsSealed, claim-IsSealed, on_memo-IsSealed, execute-IsSealed)

  pub gated-IsSealed :
      (step' seq : ℤ) (name : Str) (fn : ToolFunc) (args : Option Fields)
      → Keeps IsSealed (gated_tool_call E scope step' seq name fn args)
  unfolding gated_tool_call run_claimed
  gated-IsSealed step' seq name fn args = search sealed_rules depth 20

  pub plain-IsSealed :
      (step' seq : ℤ) (name : Str) (fn : ToolFunc) (args : Option Fields)
      → Keeps IsSealed (plain_tool_call E scope step' seq name fn args)
  unfolding plain_tool_call
  plain-IsSealed step' seq name fn args = search sealed_rules depth 20
