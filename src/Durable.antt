-- ===== src/Durable.antt =====
-- Memoized steps, go/trajir/durable/backend.go: the interface of a backend with its laws, and `Step`,
-- `Infer` and `Tool` over any backend. The two stores are in modules below.
pub mod Laws
pub mod Sqlite
pub mod Memory
mod Tests
use trajectory_irmrd.Base.{
  ℕ, suc, ◌≡◌, Bool, true, false, ◌||◌, ◌&&◌, Option, none, some, [], ◌∷◌, ◌++◌, if◌then◌else◌,
  ◌==◌, Str, str, str_eq, Value, Error, Result, ok, err, or_fail, missing_key, bad_memo,
  use_after_close, json_marshal, json_unmarshal, Action, pure, raise, lift, ◌>>=◌, ◌>>◌, Env,
}

-- `Backend`: a store of saved outputs by workflow id and step key, over a state `W`.
pub record Backend (W : Type 0) : Type 0 where
  pub load : Str → Str → Action W (Option Str)
  pub save : Str → Str → Str → Action W (Unit {0})
  pub close : Action W (Unit {0})

-- What the interface's comments promise of a backend that is up: a load returns what is saved and
-- changes nothing; a save keeps a first value, adds a missing one, and touches no other key.
-- `IsKey` delimits the workflow ids for which the store tells keys apart.
pub record IsBackend {W : Type 0} (b : Backend W) : Type 1 where
  pub IsKey : Str → Type 0
  pub IsUp : W → Type 0
  pub memo : W → Str → Str → Option Str
  pub load_ok : (w k : Str) (s : W) → IsUp s → (b.load w k s).0 ≡ ok (memo s w k)
  pub load_up : (w k : Str) (s : W) → IsUp s → IsUp (b.load w k s).1
  pub load_keeps : (w k : Str) (s : W) (v j : Str) → memo (b.load w k s).1 v j ≡ memo s v j
  pub save_ok : (w k x : Str) (s : W) → IsUp s → (b.save w k x s).0 ≡ ok tt
  pub save_up : (w k x : Str) (s : W) → IsUp s → IsUp (b.save w k x s).1
  pub save_first :
      (w k x y : Str) (s : W)
      → IsUp s
      → memo s w k ≡ some y
      → (v j : Str) → memo (b.save w k x s).1 v j ≡ memo s v j
  pub save_new :
      (w k x : Str) (s : W)
      → IsUp s
      → IsKey w
      → memo s w k ≡ none
      → (v j : Str) → IsKey v
      → memo (b.save w k x s).1 v j ≡ (if w == v && k == j then some x else memo s v j)

module _ (E : Env) {W : Type 0} where
  -- Run `fn`, save its encoded value, and return what a later load would decode.
  unfoldable pub run_and_save : Backend W → Str → Str → Action W Value → Action W Value
  run_and_save b workflow_id step_key fn = do
    val ← fn
    raw ← lift (or_fail json_marshal (E.marshal val))
    b.save workflow_id step_key raw
    lift (or_fail json_unmarshal (E.unmarshal raw))

  unfoldable pub finish : Backend W → Str → Str → Action W Value → Option Str → Action W Value
  finish b workflow_id step_key fn none = run_and_save b workflow_id step_key fn
  finish b workflow_id step_key fn (some raw) = lift (or_fail bad_memo (E.unmarshal raw))

  unfoldable pub step : Backend W → Str → Str → Action W Value → Action W Value
  step b workflow_id step_key fn =
      if workflow_id == [] || step_key == []
      then raise missing_key
      else do found ← b.load workflow_id step_key; finish b workflow_id step_key fn found

  unfoldable pub infer : Backend W → Str → Str → Action W Value → Action W Value
  infer b workflow_id name = step b workflow_id (str "infer:" ++ name)

  unfoldable pub tool : Backend W → Str → Str → Action W Value → Action W Value
  tool b workflow_id name = step b workflow_id (str "tool:" ++ name)
