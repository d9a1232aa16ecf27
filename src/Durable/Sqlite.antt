-- ===== src/Durable/Sqlite.antt =====
-- `LocalSQLite`, go/trajir/durable/sqlite.go: the table `step_memos`, keyed by both columns.
use trajectory_irmrd.Base.{
  ℕ, suc, ◌≡◌, refl, Bool, true, false, ◌&&◌, not, Option, none, some, List, [], ◌∷◌, ◌++◌, arith,
  if◌then◌else◌, ◌==◌, Str, str_eq, ok, err, use_after_close, sql_failed, Action, Env,
}
use trajectory_irmrd.Durable.{Backend, IsBackend}

pub record Memo : Type 0 where
  pub workflow_id : Str
  pub step_key : Str
  pub value_json : Str

-- The rows, whether the handle is open, and how many statements have been executed.
pub record LocalSqlite : Type 0 where
  pub memos : List Memo
  pub is_open : Bool
  pub clock : ℕ

unfoldable pub find_memo : Str → Str → List Memo → Option Str
find_memo w k [] = none
find_memo w k (m ∷ ms) =
    if m.workflow_id == w && m.step_key == k then some m.value_json else find_memo w k ms

abbrev is_some : Option Str → Bool
is_some none = false
is_some (some v) = true

module _ (E : Env) where
  -- A use of the closed handle is a nil dereference.
  unfoldable pub load : Str → Str → Action LocalSqlite (Option Str)
  load w k s =
      if not s.is_open
      then (err use_after_close, s)
      else if E.sql_fails s.clock
      then (err sql_failed, record s { clock = suc s.clock })
      else (ok (find_memo w k s.memos), record s { clock = suc s.clock })

  -- INSERT OR IGNORE under the primary key.
  unfoldable pub save : Str → Str → Str → Action LocalSqlite (Unit {0})
  save w k x s =
      if not s.is_open
      then (err use_after_close, s)
      else if E.sql_fails s.clock
      then (err sql_failed, record s { clock = suc s.clock })
      else if is_some (find_memo w k s.memos)
      then (ok tt, record s { clock = suc s.clock })
      else (
        ok tt,
        record s {
          memos = s.memos ++ record { workflow_id = w; step_key = k; value_json = x } ∷ [];
          clock = suc s.clock;
        },
      )

  unfoldable pub close : Action LocalSqlite (Unit {0})
  close s = (ok tt, record s { is_open = false })

  abbrev pub local_sqlite : Backend LocalSqlite
  local_sqlite = record { load = load; save = save; close = close }

  pub find_memo-append :
      (w k x v j : Str) (ms : List Memo)
      → find_memo v j (ms ++ record { workflow_id = w; step_key = k; value_json = x } ∷ []) ≡ (
          if is_some (find_memo v j ms)
          then find_memo v j ms
          else if w == v && k == j
          then some x
          else none)
  unfolding find_memo
  find_memo-append w k x v j [] = refl
  find_memo-append w k x v j (m ∷ ms) = ground (arith, find_memo-append w k x v j ms)

  IsOpen : LocalSqlite → Type 0
  IsOpen s = s.is_open ≡ true

  memo_in : LocalSqlite → Str → Str → Option Str
  memo_in s w k = find_memo w k s.memos

  find_memo_open :
      (w k : Str) (s : LocalSqlite) → find_memo w k (load w k s).1.memos ≡ find_memo w k s.memos
  unfolding load
  find_memo_open w k s = ground arith

  -- The SQLite store keeps the backend's promises for every workflow id, as long as the handle is
  -- open and no statement fails.
  unfoldable pub local_sqlite-IsBackend : ((n : ℕ) → E.sql_fails n ≡ false) → IsBackend local_sqlite
  unfolding IsOpen memo_in load save
  local_sqlite-IsBackend quiet = record {
    IsKey = λ w. Unit {0};
    IsUp = IsOpen;
    memo = memo_in;
    load_ok = λ w k s up. ground (arith, quiet s.clock);
    load_up = λ w k s up. ground arith;
    load_keeps = λ w k s v j. ground arith;
    save_ok = λ w k x s up. ground (arith, quiet s.clock);
    save_up = λ w k x s up. ground arith;
    save_first = λ w k x y s up found v j. ground arith;
    save_new = λ w k x s up key missing v j key'.
        ground (arith, quiet s.clock, find_memo-append w k x v j s.memos);
  }
