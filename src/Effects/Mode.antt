-- ===== src/Effects/Mode.antt =====
-- Live and sandbox runs, go/trajir/sandbox/sandbox.go.
use trajectory_irmrd.Base.{
  ◌&&◌, ◌||◌, [], if◌then◌else◌, ◌==◌, Str, str, str_eq, Result, ok, err, bad_mode,
  sandbox_forbidden,
}
use trajectory_irmrd.Effects.{EffectClass, requires_block_and_gate}
use trajectory_irmrd.Base.Space.{trim_space, to_lower}

abbrev pub Mode : Type 0
Mode = Str

abbrev pub mode_live : Mode
mode_live = str "live"

abbrev pub mode_sandbox : Mode
mode_sandbox = str "sandbox"

unfoldable pub normalize_mode : Str → Result Mode
normalize_mode mode =
    let m = trim_space (to_lower mode) in
    if m == [] || m == str "live"
    then ok mode_live
    else if m == str "sandbox"
    then ok mode_sandbox
    else err (bad_mode mode)

unfoldable pub assert_tool_allowed : Mode → Str → EffectClass → Result (Unit {0})
assert_tool_allowed mode tool_name effect =
    if mode == mode_sandbox && requires_block_and_gate effect
    then err (sandbox_forbidden tool_name effect)
    else ok tt
