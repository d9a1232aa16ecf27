-- ===== src/Nodes/Tests.antt =====
-- The theorems on nodes at concrete inputs.
use trajectory_irmrd.Base.{◌≡◌, refl, none, pos, str, str_eq, nat_eq, arith, itoa, contains_any}
use trajectory_irmrd.Nodes.{node_id, validate_id_component, preimage, step_text}
use trajectory_irmrd.Nodes.Utf8.{valid_utf8}
use trajectory_irmrd.Nodes.Preimage.{Identity, node_id_injective}
use trajectory_irmrd.Samples.{calm, run_id, tenant}

abbrev identity : Identity
identity = record {
  tenant = tenant;
  trajectory = run_id;
  step_n = none;
  seq = pos 0;
  kind = str "DECISION";
  phash = str "{}";
}

node_id_injective_example : identity ≡ identity
unfolding node_id validate_id_component valid_utf8 contains_any preimage step_text itoa str_eq
    nat_eq
node_id_injective_example =
    node_id_injective calm identity identity (str "acme|run|None|0|DECISION|{}") (omega arith)
      (omega arith) (λ e. e) refl refl
