-- ===== src/Log/AppendOnly.antt =====
-- The rows and the unique keys of the log across its methods.
use trajectory_irmrd.Base.{
  suc, ◌≡◌, refl, sym, ap, ◌∙◌, inl, inr, false, ◌||◌, Option, List, [], ◌∷◌, ◌++◌, arith, any,
  Bool-cases, Str, str_eq, ℤ, Fields, Env, Keeps, keeps_rules,
}
use mathlib.Core.List.{append-nil, append_assoc}
use trajectory_irmrd.Log.{
  Row, Db, slot_eq, conflicts, statement, insert_or_ignore, slot_owner, store_node, append,
  claim_slot, insert_and_commit, claim_tool_call,
}

-- The later table is the earlier one with rows added at its end.
pub record Extends (old new : List Row) : Type 0 where
  pub added : List Row
  pub eq : new ≡ old ++ added

pub Extends-refl : (rows : List Row) → Extends rows rows
Extends-refl rows = record { added = []; eq = sym (append-nil rows) }

Extends-append :
    (base rows : List Row) (r : Row) → Extends base rows → Extends base (rows ++ r ∷ [])
Extends-append base rows r h = record {
  added = h.added ++ r ∷ [];
  eq = ap (λ l. l ++ r ∷ []) h.eq ∙ append_assoc base h.added (r ∷ []);
}

-- No two rows share an id or a slot: the primary key and `idx_nodes_slot`.
abbrev pub Separated : List Row → Type 0
Separated [] = Unit
Separated (r ∷ rows) = (any (conflicts r) rows ≡ false) × Separated rows

conflicts_symm : (a b : Row) → conflicts a b ≡ conflicts b a
unfolding conflicts
conflicts_symm a b = ground arith

pub any_append :
    (r s : Row) (rows : List Row)
    → any (conflicts s) (rows ++ r ∷ []) ≡ (any (conflicts s) rows || conflicts s r)
any_append r s [] = ground arith
any_append r s (x ∷ rows) = ground (arith, any_append r s rows)

Separated-append :
    (rows : List Row) (r : Row)
    → Separated rows
    → any (conflicts r) rows ≡ false
    → Separated (rows ++ r ∷ [])
Separated-append [] r h free = (refl, tt)
Separated-append (x ∷ rows) r h free = (
  ground (arith, any_append r x rows, conflicts_symm x r),
  Separated-append rows r h.1 (ground arith),
)

-- What a table must be, seen from an earlier one.
pub record IsGrown (base : List Row) (db : Db) : Type 0 where
  pub grown : Extends base db.rows
  pub separated : Separated db.rows

module _ (E : Env) (base : List Row) where
  statement-IsGrown : Keeps (IsGrown base) (statement E)
  unfolding statement
  statement-IsGrown = record { at = λ s h. record { grown = h.grown; separated = h.separated } }

  insert-IsGrown : (r : Row) → Keeps (IsGrown base) (insert_or_ignore r)
  unfolding insert_or_ignore
  insert-IsGrown r = record {
    at = λ s h. elim (Bool-cases (any (conflicts r) s.rows)) [
      | inl taken ↦ rw taken h
      | inr free ↦ rw free (record {
        grown = Extends-append base s.rows r h.grown;
        separated = Separated-append s.rows r h.separated free;
      })
    ];
  }

  insert_and_commit-IsGrown : (r : Row) → Keeps (IsGrown base) (insert_and_commit E r)
  unfolding insert_and_commit
  insert_and_commit-IsGrown r = record {
    at = λ db h. elim (Bool-cases (E.sql_fails db.clock || any (conflicts r) db.rows)) [
      | inl lost ↦ rw lost (record { grown = h.grown; separated = h.separated })
      | inr won ↦ rw won (elim (Bool-cases (E.sql_fails (suc db.clock))) [
        | inl failed ↦ rw failed (record { grown = h.grown; separated = h.separated })
        | inr done ↦ rw done (record {
          grown = Extends-append base db.rows r h.grown;
          separated = Separated-append db.rows r h.separated (ground arith);
        })
      ])
    ];
  }

  ruleset grown_rules = (keeps_rules, statement-IsGrown, insert-IsGrown, insert_and_commit-IsGrown)

  pub append-IsGrown :
      (kind : Str) (step_n : Option ℤ) (payload : Option Fields) (trajectory tenant : Str) (seq : ℤ)
      → Keeps (IsGrown base) (append E kind step_n payload trajectory tenant seq)
  unfolding append store_node slot_owner
  append-IsGrown kind step_n payload trajectory tenant seq = search grown_rules depth 20

  pub claim_tool_call-IsGrown :
      (step_n : ℤ) (payload : Option Fields) (trajectory tenant : Str) (seq : ℤ)
      → Keeps (IsGrown base) (claim_tool_call E step_n payload trajectory tenant seq)
  unfolding claim_tool_call claim_slot
  claim_tool_call-IsGrown step_n payload trajectory tenant seq = search grown_rules depth 20

module _ (E : Env) where
  -- An append, whatever its arguments and outcome and whichever statement fails, only adds rows
  -- behind those of the table, and keeps ids and slots unique.
  pub append_only :
      (kind : Str) (step_n : Option ℤ) (payload : Option Fields) (trajectory tenant : Str) (seq : ℤ)
      (db : Db)
      → Separated db.rows
      → IsGrown db.rows (append E kind step_n payload trajectory tenant seq db).1
  append_only kind step_n payload trajectory tenant seq db h =
      (append-IsGrown E db.rows kind step_n payload trajectory tenant seq).at db
        (record { grown = Extends-refl db.rows; separated = h })

  -- A claim, whatever its arguments and outcome and whichever statement fails, only adds rows
  -- behind those of the table, and keeps ids and slots unique.
  pub claim_only :
      (step_n : ℤ) (payload : Option Fields) (trajectory tenant : Str) (seq : ℤ) (db : Db)
      → Separated db.rows
      → IsGrown db.rows (claim_tool_call E step_n payload trajectory tenant seq db).1
  claim_only step_n payload trajectory tenant seq db h =
      (claim_tool_call-IsGrown E db.rows step_n payload trajectory tenant seq).at db
        (record { grown = Extends-refl db.rows; separated = h })
