-- ===== src/Durable/Tests.antt =====
-- The theorems on durable steps at an open SQLite store.
use trajectory_irmrd.Base.{
  arith, false, none, ◌≡◌, refl, true, [], ok, str, str_eq, obj, end, text, pure, ◌>>=◌, Value,
  Action,
}
use trajectory_irmrd.Durable.{step, run_and_save, finish, IsBackend}
use trajectory_irmrd.Durable.Sqlite.{
  LocalSqlite, find_memo, load, save, local_sqlite, local_sqlite-IsBackend,
}
use trajectory_irmrd.Durable.Memory.{
  Memory, memory_load, memory_save, find_entry, mem_key, memory_load-memory_save,
}
use trajectory_irmrd.Durable.Laws.{step_once}
use trajectory_irmrd.Samples.{calm}

abbrev open_store : LocalSqlite
open_store = record { memos = []; is_open = true; clock = 0 }

abbrev empty_memory : Memory
empty_memory = record { entries = []; closed = false }

abbrev answer : Action LocalSqlite Value
answer = pure (text (str "yes"))

abbrev after : LocalSqlite
after = (step calm (local_sqlite calm) (str "wf") (str "tool:a@2") answer open_store).1

local_sqlite-IsBackend_example : IsBackend (local_sqlite calm)
local_sqlite-IsBackend_example = local_sqlite-IsBackend calm (λ n. refl)

step_once_example :
    step calm (local_sqlite calm) (str "wf") (str "tool:a@2") (pure (text (str "no"))) after
    ≡ (ok (obj end), (load calm (str "wf") (str "tool:a@2") after).1)
unfolding step run_and_save finish local_sqlite-IsBackend load save find_memo str_eq ◌>>=◌ pure
step_once_example =
    step_once calm (local_sqlite-IsBackend calm (λ n. refl)) (str "wf") (str "tool:a@2") (λ e. cc)
      (λ e. cc) answer (pure (text (str "no"))) open_store after
      (record { up = λ s u. u; keeps = λ s v j. refl }) tt refl refl refl refl

memory_load-memory_save_example :
    (memory_load (str "wf") (str "b") (memory_save (str "wf") (str "a") (str "1") empty_memory).1).0
    ≡ ok none
unfolding memory_load memory_save find_entry mem_key str_eq
memory_load-memory_save_example =
    memory_load-memory_save (str "wf") (str "a") (str "1") (str "wf") (str "b") empty_memory
      (omega arith) (omega arith) refl
