-- ===== src/Client/Tests.antt =====
-- The client's theorems at a sandbox run and at a run on an empty log.
use trajectory_irmrd.Base.{refl, true, none, [], ok, pos, str, str_eq, null, arith}
use trajectory_irmrd.Effects.{non_idempotent_write, requires_block_and_gate}
use trajectory_irmrd.Effects.Mode.{mode_sandbox}
use trajectory_irmrd.Durable.Sqlite.{LocalSqlite, local_sqlite}
use trajectory_irmrd.Resume.{World, Tool}
use trajectory_irmrd.Resume.Guard.{IsGuarded}
use trajectory_irmrd.Client.{Trajectory, scope, exec_tool}
use trajectory_irmrd.Client.Laws.{exec_tool-IsGuarded}
use trajectory_irmrd.Samples.{calm, empty_db, run_id, tenant}

abbrev handle : Trajectory LocalSqlite
handle = record {
  trajectory_id = run_id;
  tenant_id = tenant;
  workflow_id = run_id;
  mode = mode_sandbox;
  backend = local_sqlite calm;
}

abbrev deploy : Tool
deploy = record { name = str "deploy"; effect = non_idempotent_write; fn = λ args past. ok null }

abbrev fresh : World LocalSqlite
fresh = record {
  db = empty_db;
  memo = record { memos = []; is_open = true; clock = 0 };
  executions = [];
}

exec_tool-IsGuarded_example :
    IsGuarded
      (scope calm handle)
      (str "deploy")
      (pos 1)
      (pos 2)
      (exec_tool calm (record handle { mode = str "live" }) (pos 1) (pos 2) deploy none fresh).1
unfolding requires_block_and_gate str_eq
exec_tool-IsGuarded_example =
    exec_tool-IsGuarded calm (record handle { mode = str "live" }) (str "deploy") (pos 1) (pos 2)
      (pos 1) (pos 2) deploy none fresh (λ same. refl)
      (record { separated = tt; at_most_once = omega arith; claimed_first = λ free. refl })
