-- ===== src/Base/Environment.antt =====
-- What the program calls and does not implement: encoding/json, crypto/sha256, the JCS package
-- github.com/gowebpki/jcs, the wall clock, and the SQL engine's failures. Nothing is assumed of
-- these functions here; a theorem that relies on a law of one names it as a hypothesis.
use Prim.Native.Nat.{ℕ}
use mathlib.Core.Bool.{Bool}
use mathlib.Core.Option.{Option}
use trajectory_irmrd.Base.Text.{Str}
use trajectory_irmrd.Base.Int.{ℤ}
use trajectory_irmrd.Base.Json.{Value}

pub record Env : Type 0 where
  -- json.Marshal and json.Unmarshal; `none` is an error
  pub marshal : Value → Option Str
  -- json.MarshalIndent with two spaces
  pub marshal_indent : Value → Option Str
  pub unmarshal : Str → Option Value
  -- jcs.Transform
  pub transform : Str → Option Str
  -- hex.EncodeToString(sha256.Sum256(b))
  pub sha256_hex : Str → Str
  -- int(v) of a float64, given by its bits
  pub float_to_int : ℕ → ℤ
  -- time.Now() at the n-th reading, as the bits of a float64 of seconds
  pub now : ℕ → ℕ
  -- whether the n-th SQL statement fails for a reason outside the model (disk, lock, lost process)
  pub sql_fails : ℕ → Bool
  -- whether the n-th operation on the file system fails for such a reason
  pub io_fails : ℕ → Bool
