-- ===== src/Effects.antt =====
-- Tool effect classes and their derivation from MCP annotations (go/trajir/effects/effects.go), and
-- the run modes (go/trajir/sandbox/sandbox.go). An effect class is a string type in the source, so a
-- value that is none of the constants is possible.
pub mod Mode
pub mod Laws
mod Tests
use trajectory_irmrd.Base.{
  Bool, true, false, ◌&&◌, not, Option, none, some, if◌then◌else◌, ◌==◌, Str, str, str_eq, Fields,
  get, or_null, as_bool,
}

abbrev pub EffectClass : Type 0
EffectClass = Str

abbrev pub pure : EffectClass
pure = str "PURE"

abbrev pub read_only : EffectClass
read_only = str "READ_ONLY"

abbrev pub idempotent_write : EffectClass
idempotent_write = str "IDEMPOTENT_WRITE"

abbrev pub non_idempotent_write : EffectClass
non_idempotent_write = str "NON_IDEMPOTENT_WRITE"

abbrev pub agent_spawn : EffectClass
agent_spawn = str "AGENT_SPAWN"

abbrev pub sensitive : EffectClass
sensitive = str "SENSITIVE"

unfoldable pub requires_block_and_gate : EffectClass → Bool
requires_block_and_gate e = e == non_idempotent_write

-- A hint that is present, is a boolean and has this value.
unfoldable pub hint_is : Bool → Str → Fields → Bool
hint_is b k annotations = elim (as_bool (or_null (get k annotations))) [
  | none ↦ false
  | some v ↦ if b then v else not v
]

-- A nil annotation map is `none`.
unfoldable pub classify_from_mcp : Option Fields → EffectClass
classify_from_mcp none = non_idempotent_write
classify_from_mcp (some annotations) =
    if hint_is true (str "readOnlyHint") annotations
      && not (hint_is true (str "destructiveHint") annotations)
    then read_only
    else if hint_is false (str "readOnlyHint") annotations
        && hint_is true (str "idempotentHint") annotations
        && hint_is false (str "destructiveHint") annotations
        && not (hint_is true (str "openWorldHint") annotations)
    then idempotent_write
    else non_idempotent_write
