-- ===== src/Resume/Guard.antt =====
-- The invariant behind the gate, go/trajir/resume/gate.go: a tool has run at most once at a slot, and
-- only after a TOOL_CALL row stood there. Gated calls, and plain calls of other tools, keep it.
use trajectory_irmrd.Base.{
  ℕ, zero, suc, ◌+◌, ◌≤◌, ◌≡◌, ◌≢◌, refl, sym, ap, ◌∙◌, ◌⊎◌, inl, inr, Bool, true, false, ◌&&◌, not,
  Option, none, some, List, [], ◌∷◌, ◌++◌, arith, if◌then◌else◌, ◌==◌, any, count, count-append,
  Bool-cases, Option-cases, Str, str, str_eq, int_eq, ℤ, pos, next, Fields, Value, Error, Result,
  ok, err, Action, pure, raise, lift, gets, ◌>>=◌, ◌>>◌, Keeps, keeps_rules, Keeps-raise,
  bind-state, bind-state-ok, Env, field, obj, end, blocked_needs_gate,
}
use trajectory_irmrd.Log.{Row, Db, is_claimed, claim_tool_call}
use trajectory_irmrd.Log.AppendOnly.{
  Extends, Extends-refl, Separated, IsGrown, append-IsGrown, claim_tool_call-IsGrown,
}
use trajectory_irmrd.Log.Claim.{Extends-IsTaken, claim-true}
use trajectory_irmrd.Resume.{
  Execution, World, ToolFunc, Scope, on_log, on_memo, execute, append_to, run_claimed,
  gated_tool_call, plain_tool_call, call_payload, abort_payload, args_or_empty,
}

-- An execution of this tool for this step and sequence number.
abbrev pub ran_at : Str → ℤ → ℤ → Execution → Bool
ran_at name step_n seq x = x.tool_name == name && x.step_n == step_n && x.seq == seq

module _ (scope : Scope) (name : Str) (step_n seq : ℤ) where
  abbrev pub taken_in : List Row → Bool
  taken_in rows = any (is_claimed step_n scope.trajectory_id scope.tenant_id seq) rows

  -- The table's keys are unique; the tool has run at most once at the slot, and not at all before a
  -- TOOL_CALL row stood there.
  pub record IsGuarded {S : Type 0} (w : World S) : Type 0 where
    pub separated : Separated w.db.rows
    pub at_most_once : count (ran_at name step_n seq) w.executions ≤ 1
    pub claimed_first : taken_in w.db.rows ≡ false → count (ran_at name step_n seq) w.executions ≡ 0

  pub taken_grown :
      {old new : List Row} → Extends old new → taken_in new ≡ false → taken_in old ≡ false
  taken_grown {old} {new} x free = elim (Bool-cases (taken_in old)) [
    | inl taken ↦
        let t = Extends-IsTaken step_n scope.trajectory_id scope.tenant_id seq x taken in
        ground arith
    | inr free' ↦ free'
  ]

  module _ {S : Type 0} where
    -- A log method that only adds rows keeps the guard.
    on_log-IsGuarded {ℓ} :
        {A : Type ℓ} (m : Action Db A)
        → ((base : List Row) → Keeps (IsGrown base) m)
        → Keeps (IsGuarded {S = S}) (on_log m)
    unfolding on_log
    on_log-IsGuarded m grows = record {
      at = λ w h.
          let g =
            (grows w.db.rows).at w.db
              (record { grown = Extends-refl w.db.rows; separated = h.separated }) in
          record {
            separated = g.separated;
            at_most_once = h.at_most_once;
            claimed_first = λ free. h.claimed_first (taken_grown g.grown free);
          };
    }

    pub on_memo-IsGuarded {ℓ} :
        {A : Type ℓ} (m : Action S A) → Keeps (IsGuarded {S = S}) (on_memo m)
    unfolding on_memo
    on_memo-IsGuarded m = record {
      at = λ w h. record {
        separated = h.separated;
        at_most_once = h.at_most_once;
        claimed_first = h.claimed_first;
      };
    }

    -- The guard lets a body run if it is another slot's or another tool's, or if the slot is taken
    -- and the tool has not run there.
    execute-IsGuarded :
        (name' : Str) (step' seq' : ℤ) (fn : ToolFunc) (args : Fields) (w : World S)
        → IsGuarded w
        → (name' ≡ name
            → step' ≡ step_n
            → seq' ≡ seq
            → (count (ran_at name step_n seq) w.executions ≡ 0) × (taken_in w.db.rows ≡ true))
        → IsGuarded (execute {S = S} name' step' seq' fn args w).1
    unfolding execute
    execute-IsGuarded name' step' seq' fn args w h ready =
        let x : Execution = record { tool_name = name'; step_n = step'; seq = seq'; args = args } in
        let grown = count-append (ran_at name step_n seq) w.executions (x ∷ []) in
        elim (Bool-cases (ran_at name step_n seq x)) [
          | inl here ↦
              let r = ready (ground arith) (ground arith) (ground arith) in
              record {
                separated = h.separated;
                at_most_once = ground (arith, grown, r.0);
                claimed_first = λ free. ground (arith, r.1);
              }
          | inr elsewhere ↦ record {
            separated = h.separated;
            at_most_once = ground (arith, grown, h.at_most_once);
            claimed_first = λ free. ground (arith, grown, h.claimed_first free);
          }
        ]

    module _ (E : Env) where
      pub append_to-IsGuarded :
          (kind : Str) (step' : ℤ) (payload : Option Fields) (seq' : ℤ)
          → Keeps (IsGuarded {S = S}) (append_to E scope kind step' payload seq')
      unfolding append_to
      append_to-IsGuarded kind step' payload seq' = on_log-IsGuarded _ (λ base.
          append-IsGrown E base kind (some step') payload scope.trajectory_id scope.tenant_id seq')

      pub ruleset guarded_rules = (keeps_rules, append_to-IsGuarded, on_memo-IsGuarded)

      -- A plain tool call keeps the guard of every tool of another name.
      pub plain-IsGuarded :
          (step' seq' : ℤ) (name' : Str) (fn : ToolFunc) (args : Option Fields)
          → name' ≢ name
          → Keeps (IsGuarded {S = S}) (plain_tool_call E scope step' seq' name' fn args)
      unfolding plain_tool_call
      plain-IsGuarded step' seq' name' fn args other =
          search (guarded_rules, execute_other) depth 20
        where
          execute_other : (a : Fields) → Keeps (IsGuarded {S = S}) (execute name' step' seq' fn a)
          execute_other a = record {
            at = λ w h. execute-IsGuarded name' step' seq' fn a w h (λ e. absurd (other e));
          }

      claim-IsGuarded :
          (step' : ℤ) (payload : Option Fields) (seq' : ℤ)
          → Keeps
              (IsGuarded {S = S})
              (on_log (claim_tool_call E step' payload scope.trajectory_id scope.tenant_id seq'))
      claim-IsGuarded step' payload seq' = on_log-IsGuarded _ (λ base.
          claim_tool_call-IsGrown E base step' payload scope.trajectory_id scope.tenant_id seq')

      -- After a won claim the slot is taken and nothing has run there.
      won_ready :
          (step' : ℤ) (payload : Option Fields) (seq' : ℤ) (w : World S)
          → let m = claim_tool_call E step' payload scope.trajectory_id scope.tenant_id seq' in
            IsGuarded w
            → (m w.db).0 ≡ ok true
            → step' ≡ step_n
            → seq' ≡ seq
            → (count (ran_at name step_n seq) w.executions ≡ 0) × (taken_in (m w.db).1.rows ≡ true)
      won_ready step' payload seq' w h won es eq =
          let t = claim-true E step' payload scope.trajectory_id scope.tenant_id seq' w.db won in
          (h.claimed_first (rw (← es, ← eq) t.0), rw (← es, ← eq) t.1)

      run_claimed-IsGuarded :
          (step' seq' : ℤ) (name' : Str) (fn : ToolFunc) (args : Fields) (payload : Option Fields)
          (claimed : Bool) (w : World S)
          → let m = claim_tool_call E step' payload scope.trajectory_id scope.tenant_id seq' in
            IsGuarded w
            → (on_log m w).0 ≡ ok claimed
            → IsGuarded (run_claimed E scope step' seq' name' fn args claimed (on_log m w).1).1
      unfolding run_claimed on_log
      run_claimed-IsGuarded step' seq' name' fn args payload false w h lost =
          (aborts step' seq' name').at _ ((claim-IsGuarded step' payload seq').at w h)
        where
          aborts :
              (step' seq' : ℤ) (name' : Str)
              → Keeps (IsGuarded {S = S}) (
                  append_to E scope (str "ABORT") step' (abort_payload name') (next seq')
                  >> raise {A = Value} (blocked_needs_gate step' name'))
          aborts step' seq' name' = search guarded_rules depth 20
      run_claimed-IsGuarded step' seq' name' fn args payload true w h won =
          bind-state IsGuarded (execute name' step' seq' fn args) _ _
            (execute-IsGuarded name' step' seq' fn args _
              ((claim-IsGuarded step' payload seq').at w h)
              (λ _. won_ready step' payload seq' w h won))
            (λ result. search guarded_rules depth 20)

      -- A gated tool call keeps the guard of every slot and tool.
      pub gated-IsGuarded :
          (step' seq' : ℤ) (name' : Str) (fn : ToolFunc) (args : Option Fields)
          → Keeps (IsGuarded {S = S}) (gated_tool_call E scope step' seq' name' fn args)
      unfolding gated_tool_call
      gated-IsGuarded step' seq' name' fn args = record {
        at = λ w h.
            bind-state-ok IsGuarded _ _ w
              ((claim-IsGuarded step' (call_payload name' (args_or_empty args)) seq').at w h)
              (λ claimed e.
                run_claimed-IsGuarded step' seq' name' fn (args_or_empty args) _ claimed w h e);
      }
