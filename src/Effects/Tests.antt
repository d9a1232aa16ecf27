-- ===== src/Effects/Tests.antt =====
-- The theorems on effects and modes at concrete inputs.
use trajectory_irmrd.Base.{
  ◌≡◌, ◌≢◌, ◌↔◌, ◌⊎◌, true, false, some, ok, err, str, str_eq, nat_eq, bool, field, end, Fields,
  sandbox_forbidden,
}
use trajectory_irmrd.Effects.{requires_block_and_gate, classify_from_mcp, non_idempotent_write}
use trajectory_irmrd.Effects.Mode.{mode_sandbox, assert_tool_allowed}
use trajectory_irmrd.Effects.Laws.{
  IsReadOnly, IsIdempotentWrite, classify_ungated_iff, assert_tool_allowed_iff,
}

abbrev reader : Fields
reader = field (str "readOnlyHint") (bool true) end

classify_ungated_iff_example :
    (requires_block_and_gate (classify_from_mcp (some reader)) ≡ false)
    ↔ (IsReadOnly reader ⊎ IsIdempotentWrite reader)
classify_ungated_iff_example = classify_ungated_iff reader

assert_tool_allowed_iff_example :
    ((assert_tool_allowed mode_sandbox (str "deploy") non_idempotent_write
        ≡ err (sandbox_forbidden (str "deploy") non_idempotent_write))
      ↔ ((mode_sandbox ≡ mode_sandbox) × (non_idempotent_write ≡ non_idempotent_write)))
    × ((assert_tool_allowed mode_sandbox (str "deploy") non_idempotent_write ≡ ok tt)
        ↔ ((mode_sandbox ≢ mode_sandbox) ⊎ (non_idempotent_write ≢ non_idempotent_write)))
assert_tool_allowed_iff_example =
    assert_tool_allowed_iff mode_sandbox (str "deploy") non_idempotent_write
