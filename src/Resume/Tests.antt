-- ===== src/Resume/Tests.antt =====
-- Sealed and resumed steps: two runs of a step whose plan calls one gated tool.
use mathlib.Core.Path.{subst}
use trajectory_irmrd.Base.{
  Env, field, arr, cons, nil, text, ◌≡◌, ◌≤◌, refl, true, some, none, [], ◌∷◌, ok, pos, str, Value,
  str_eq, nat_eq, int_eq, obj, end, null, count, err, model_failed, itoa, ◌>>=◌,
}
use trajectory_irmrd.Effects.{non_idempotent_write, requires_block_and_gate}
use trajectory_irmrd.Effects.Mode.{mode_live}
use trajectory_irmrd.Durable.Sqlite.{
  LocalSqlite, local_sqlite, local_sqlite-IsBackend, find_memo, load, save,
}
use trajectory_irmrd.Base.{contains_any, option_eq, get, get_text}
use trajectory_irmrd.Nodes.{
  new_node, node_id, payload_hash, validate_id_component, preimage, step_text, known_kind,
}
use trajectory_irmrd.Nodes.Utf8.{valid_utf8}
use trajectory_irmrd.Log.{
  append, store_node, slot_owner, insert_or_ignore, statement, conflicts, owner_in, row_of, slot_eq,
  step_key, claim_slot, claim_tool_call, is_claimed, insert_and_commit,
}
use trajectory_irmrd.Durable.{infer, run_and_save}
use trajectory_irmrd.Resume.Plan.{as_string_map, tool_call_of, tool_calls_from_plan, tool_calls_of}
use trajectory_irmrd.Resume.{
  append_to, on_log, execute, gated_tool_call, plain_tool_call, run_claimed, run_plan, run_tools,
  tool_body,
}
use trajectory_irmrd.Resume.{
  World, Tool, RunStepConfig, ModelFunc, run_step, scope_of, run_step_with,
}
use trajectory_irmrd.Resume.Memoized.{plan_memoized, tool_memo_ignores_step}
use trajectory_irmrd.Resume.Sealed.{SealedFirst, run_step-SealedFirst}
use trajectory_irmrd.Resume.Plan.{ToolCall}
use trajectory_irmrd.Durable.{tool, step, finish}
use trajectory_irmrd.Effects.Mode.{assert_tool_allowed}
use trajectory_irmrd.Resume.{run_tool, run_known, on_memo}
use trajectory_irmrd.Resume.Guard.{ran_at}
use trajectory_irmrd.Resume.AtMostOnce.{begin, run, gated_at_most_once}
use trajectory_irmrd.Samples.{calm, empty_db, run_id, tenant}

abbrev deploy : Tool
deploy = record { name = str "deploy"; effect = non_idempotent_write; fn = λ args past. ok null }

abbrev cfg : RunStepConfig LocalSqlite
cfg = record {
  backend = local_sqlite calm;
  tenant_id = tenant;
  trajectory_id = run_id;
  workflow_id = [];
  tools = λ name. some deploy;
  mode = mode_live;
}

abbrev fresh : World LocalSqlite
fresh = record {
  db = empty_db;
  memo = record { memos = []; is_open = true; clock = 0 };
  executions = [];
}

abbrev plan : ModelFunc
plan context = ok (obj end)

-- A plan that calls the tool once.
abbrev one_call : Value
one_call = obj (
    field (str "tool_calls") (arr (cons (obj (field (str "name") (text (str "deploy")) end)) nil))
      end)

-- A hash that is never empty, and saved texts that decode to that plan.
abbrev decoding : Env
decoding = record calm { sha256_hex = λ s. 97 ∷ s; unmarshal = λ s. some one_call }

abbrev calling : ModelFunc
calling context = ok one_call

abbrev after_one : World LocalSqlite
after_one = (run_step decoding cfg (pos 1) calling none fresh).1

-- The first run executed the tool, and the second executes it no more.
abbrev after_two : World LocalSqlite
after_two = (run_step decoding cfg (pos 1) calling none after_one).1

ran_once : count (ran_at (str "deploy") (pos 1) (pos 2)) after_one.executions ≡ 1
unfolding run_step run_step_with append_to on_log on_memo append new_node known_kind
    validate_id_component valid_utf8 contains_any payload_hash get str_eq nat_eq int_eq option_eq
    node_id store_node infer run_and_save step finish tool assert_tool_allowed
    requires_block_and_gate conflicts insert_or_ignore is_claimed owner_in row_of slot_eq step_key
    claim_slot claim_tool_call insert_and_commit slot_owner statement preimage step_text
    as_string_map tool_call_of tool_calls_from_plan tool_calls_of execute gated_tool_call
    plain_tool_call run_claimed run_known run_plan run_tool run_tools tool_body find_memo load save
    itoa get_text ◌>>=◌
ran_once = refl

gated : (t : Tool) → cfg.tools (str "deploy") ≡ some t → requires_block_and_gate t.effect ≡ true
unfolding requires_block_and_gate str_eq
gated t e = let s : deploy ≡ t = cc in subst (λ t. requires_block_and_gate t.effect ≡ true) s refl

gated_at_most_once_example : count (ran_at (str "deploy") (pos 1) (pos 2)) after_two.executions ≤ 1
gated_at_most_once_example =
    gated_at_most_once (scope_of cfg) (str "deploy") (pos 1) (pos 2) {start = fresh} tt refl (
      run (run begin decoding cfg refl gated (pos 1) calling none) decoding cfg refl gated (pos 1)
        calling none)

abbrev named : RunStepConfig LocalSqlite
named = record cfg { workflow_id = str "wf" }

-- The plan of step 1 is saved.
abbrev planned : World LocalSqlite
planned = record fresh {
  memo = record {
    memos =
        record { workflow_id = str "wf"; step_key = str "infer:step1"; value_json = str "{}" } ∷ [];
    is_open = true;
    clock = 0;
  };
}

plan_memoized_example :
    run_step_with calm named (pos 1) plan end planned
    ≡ run_step_with calm named (pos 1) (λ context. err model_failed) end planned
unfolding local_sqlite-IsBackend find_memo str_eq itoa
plan_memoized_example =
    plan_memoized calm named (local_sqlite-IsBackend calm (λ n. refl)) (pos 1) plan
      (λ context. err model_failed) end planned (λ e. cc) refl refl

abbrev call : ToolCall
call = record { name = str "deploy"; args = none }

-- The call of step 1 is saved.
abbrev called : World LocalSqlite
called = record fresh {
  memo = record {
    memos =
        record { workflow_id = str "wf"; step_key = str "tool:deploy@2"; value_json = str "{}" }
        ∷ [];
    is_open = true;
    clock = 0;
  };
}

abbrev after_call : World LocalSqlite
after_call = (run_tool calm named (pos 1) call 0 called).1

tool_memo_ignores_step_example :
    ((run_tool calm named (pos 2) call 0 after_call).0 ≡ ok (obj end))
    × ((run_tool calm named (pos 2) call 0 after_call).1.db ≡ after_call.db)
    × ((run_tool calm named (pos 2) call 0 after_call).1.executions ≡ after_call.executions)
unfolding local_sqlite-IsBackend find_memo load save str_eq nat_eq itoa run_tool run_known tool step
    finish on_memo assert_tool_allowed requires_block_and_gate ◌>>=◌
tool_memo_ignores_step_example =
    tool_memo_ignores_step calm named (local_sqlite-IsBackend calm (λ n. refl)) (pos 1) (pos 2)
      deploy call call 0 called after_call (λ e. cc) tt refl refl refl refl refl refl refl

run_step-SealedFirst_example : SealedFirst decoding cfg (pos 1) [] after_one
run_step-SealedFirst_example =
    run_step-SealedFirst decoding cfg (pos 1) calling none fresh (λ s e. cc) tt tt
