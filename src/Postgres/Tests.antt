-- ===== src/Postgres/Tests.antt =====
-- The theorems on the PostgreSQL log at concrete tables.
use trajectory_irmrd.Log.{owner_in}
use trajectory_irmrd.Postgres.{fits_step}
use trajectory_irmrd.Base.{
  ◌≡◌, refl, none, some, [], ok, pos, str, str_eq, nat_eq, int_eq, option_eq, end, ◌==◌,
  contains_any, itoa, get, Env,
}
use trajectory_irmrd.Nodes.{
  Node, new_node, node_id, payload_hash, validate_id_component, preimage, known_kind,
}
use trajectory_irmrd.Nodes.Utf8.{valid_utf8}
use trajectory_irmrd.Log.{append, claim_tool_call}
use trajectory_irmrd.Postgres.{pg_append, pg_claim_tool_call}
use trajectory_irmrd.Postgres.Refinement.{Agrees, pg_append-Agrees, pg_claim-Agrees}
use trajectory_irmrd.Postgres.Loss.{pg_append_lost}
use trajectory_irmrd.Samples.{calm, empty_db, run_id, tenant}

pg_append-Agrees_example :
    Agrees
      (pg_append calm (str "DECISION") (some (pos 1)) none run_id tenant (pos 1) empty_db)
      (append calm (str "DECISION") (some (pos 1)) none run_id tenant (pos 1) empty_db)
unfolding fits_step
pg_append-Agrees_example =
    pg_append-Agrees calm none run_id tenant (pos 1) empty_db (str "DECISION") (some (pos 1))
      (λ n. refl) (refl, refl)

-- An environment in which the third statement fails.
abbrev broken : Env
broken = record calm { sql_fails = λ n. n == 2 }

pg_claim-Agrees_example :
    Agrees
      (pg_claim_tool_call broken (pos 1) none run_id tenant (pos 2) empty_db)
      (claim_tool_call broken (pos 1) none run_id tenant (pos 2) empty_db)
unfolding fits_step
pg_claim-Agrees_example =
    pg_claim-Agrees broken none run_id tenant (pos 2) empty_db (pos 1) (refl, refl)

abbrev decision : Node
decision = record {
  kind = str "DECISION";
  trajectory_id = run_id;
  tenant_id = tenant;
  step_n = some (pos 1);
  seq = pos 1;
  payload = end;
  ts = 0;
  phash = str "{}";
  id = str "acme|run|1|1|DECISION|{}";
}

pg_append_lost_example :
    ((pg_append broken (str "DECISION") (some (pos 1)) none run_id tenant (pos 1) empty_db).0
      ≡ ok decision)
    × ((pg_append broken (str "DECISION") (some (pos 1)) none run_id tenant (pos 1) empty_db).1.rows
        ≡ [])
unfolding new_node known_kind str_eq validate_id_component valid_utf8 contains_any payload_hash get
    node_id preimage itoa fits_step owner_in
pg_append_lost_example =
    pg_append_lost broken (str "DECISION") (some (pos 1)) none run_id tenant (pos 1) empty_db
      {n = decision} {json = str "{}"} refl refl (refl, refl)
      (record { begun = refl; saved = refl; fails = refl; back = refl; asked = refl }) refl
