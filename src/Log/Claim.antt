-- ===== src/Log/Claim.antt =====
-- `ClaimToolCall` against a table that others write too.
use mathlib.Core.Path.{subst}
use trajectory_irmrd.Base.{
  suc, ◌≡◌, ◌≢◌, sym, ap, ◌∙◌, ◌⊎◌, Bool, true, false, Option, some, List, [], ◌∷◌, ◌++◌, arith,
  any, Str, str, str_eq, int_eq, option_eq, ℤ, Fields, ok, lift, gets, >>=-eq-ok, ◌>>=◌, Env,
}
use trajectory_irmrd.Nodes.{Node, new_node}
use trajectory_irmrd.Nodes.Construct.{new_node-IsBuiltFrom}
use trajectory_irmrd.Log.{
  Row, Db, slot_eq, conflicts, row_of, statement, is_claimed, insert_and_commit, claim_slot,
  claim_tool_call,
}
use trajectory_irmrd.Log.AppendOnly.{Extends}
use trajectory_irmrd.Log.Replay.{IsQuiet}

-- A TOOL_CALL row stands at the slot.
abbrev pub IsTaken : ℤ → Str → Str → ℤ → List Row → Type 0
IsTaken step_n trajectory tenant seq rows =
    any (is_claimed step_n trajectory tenant seq) rows ≡ true

any_append_list : (p : Row → Bool) (xs ys : List Row) → any p xs ≡ true → any p (xs ++ ys) ≡ true
any_append_list p [] ys h = cc
any_append_list p (x ∷ xs) ys h = ground (arith, any_append_list p xs ys)

-- A slot that is taken stays taken in every table that extends the first.
pub Extends-IsTaken :
    (step_n : ℤ) (trajectory tenant : Str) (seq : ℤ) {old new : List Row}
    → Extends old new
    → IsTaken step_n trajectory tenant seq old
    → IsTaken step_n trajectory tenant seq new
Extends-IsTaken step_n trajectory tenant seq {old} x h =
    subst (λ rows. IsTaken step_n trajectory tenant seq rows) (sym x.eq)
      (any_append_list (is_claimed step_n trajectory tenant seq) old x.added h)

any_last : (p : Row → Bool) (r : Row) (rows : List Row) → p r ≡ true → any p (rows ++ r ∷ []) ≡ true
any_last p r [] h = ground arith
any_last p r (x ∷ rows) h = ground (arith, any_last p r rows)

module _ (E : Env) (step_n : ℤ) (n : Node) (json : Str) (db : Db) where
  -- A won claim found the slot free and left the new row at the table's end.
  claim_slot-true :
      (claim_slot E step_n n json db).0 ≡ ok true
      → (any (is_claimed step_n n.trajectory_id n.tenant_id n.seq) db.rows ≡ false)
        × ((claim_slot E step_n n json db).1.rows ≡ db.rows ++ row_of n json ∷ [])
  unfolding claim_slot statement insert_and_commit ◌>>=◌
  claim_slot-true h = ground arith

  -- A claim that is not won, lost or failed, leaves the table as it was.
  claim_slot_not_won :
      (claim_slot E step_n n json db).0 ≢ ok true → (claim_slot E step_n n json db).1.rows ≡ db.rows
  unfolding claim_slot statement insert_and_commit ◌>>=◌
  claim_slot_not_won h = ground arith

  claim_slot-false :
      IsQuiet E
      → (claim_slot E step_n n json db).0 ≡ ok false
      → (any (is_claimed step_n n.trajectory_id n.tenant_id n.seq) db.rows ≡ true)
        ⊎ (any (conflicts (row_of n json)) db.rows ≡ true)
  unfolding claim_slot statement insert_and_commit ◌>>=◌
  claim_slot-false quiet h = ground (
    arith,
    quiet db.clock,
    quiet (suc db.clock),
    quiet (suc (suc db.clock)),
    quiet (suc (suc (suc db.clock))),
  )

module _ (E : Env) (step_n : ℤ) (payload : Option Fields) (trajectory tenant : Str) (seq : ℤ)
    (db : Db) where
  claim_inv :
      {won : Bool}
      → (claim_tool_call E step_n payload trajectory tenant seq db).0 ≡ ok won
      → (n : Node) × (json : Str) × (new_node E
            (str "TOOL_CALL")
            trajectory
            tenant
            (some step_n)
            seq
            payload
            (E.now db.clock)
          ≡ ok n)
        × (claim_tool_call E step_n payload trajectory tenant seq db
            ≡ claim_slot E step_n n json db)
  unfolding claim_tool_call gets lift
  claim_inv h =
      let a = >>=-eq-ok _ _ db h in
      let b = >>=-eq-ok _ _ db (ap (λ p. p.0) (sym a.2) ∙ h) in (a.0, b.0, a.1, a.2 ∙ b.2)

  row_of-is_claimed :
      (n : Node) (json : Str)
      → new_node E (str "TOOL_CALL") trajectory tenant (some step_n) seq payload (E.now db.clock)
        ≡ ok n
      → is_claimed step_n trajectory tenant seq (row_of n json) ≡ true
  unfolding is_claimed row_of
  row_of-is_claimed n json h =
      let b =
        new_node-IsBuiltFrom E (str "TOOL_CALL") trajectory tenant (some step_n) seq payload
          (E.now db.clock) h in
      ground (arith, b.kind_eq, b.trajectory_eq, b.tenant_eq, b.step_eq, b.seq_eq)

  -- A won claim found the slot free, and leaves it taken.
  pub claim-true :
      (claim_tool_call E step_n payload trajectory tenant seq db).0 ≡ ok true
      → (any (is_claimed step_n trajectory tenant seq) db.rows ≡ false)
        × IsTaken step_n trajectory tenant seq
            (claim_tool_call E step_n payload trajectory tenant seq db).1.rows
  claim-true h =
      let (n, json, built, whole) = claim_inv h in
      let t = claim_slot-true E step_n n json db (ap (λ p. p.0) (sym whole) ∙ h) in
      let b =
        new_node-IsBuiltFrom E (str "TOOL_CALL") trajectory tenant (some step_n) seq payload
          (E.now db.clock) built in
      (
        (rw (b.trajectory_eq, b.tenant_eq, b.seq_eq) at (t.0)),
        ap (λ p. any (is_claimed step_n trajectory tenant seq) p.1.rows) whole
            ∙ ap (any (is_claimed step_n trajectory tenant seq)) t.1
            ∙ any_last (is_claimed step_n trajectory tenant seq) (row_of n json) db.rows
                (row_of-is_claimed n json built),
      )

  -- A claim that is not won, lost or failed, leaves the table as it was.
  pub claim_not_won :
      (claim_tool_call E step_n payload trajectory tenant seq db).0 ≢ ok true
      → (claim_tool_call E step_n payload trajectory tenant seq db).1.rows ≡ db.rows
  unfolding claim_tool_call claim_slot statement insert_and_commit ◌>>=◌
  claim_not_won h = ground arith

  -- A claim of a taken slot is not won, whatever its payload and whatever fails.
  pub claim_taken :
      IsTaken step_n trajectory tenant seq db.rows
      → (claim_tool_call E step_n payload trajectory tenant seq db).0 ≢ ok true
  claim_taken taken won = ground (arith, claim-true won)

-- After a won claim no other claim of the same tenant, trajectory, step and sequence number is won,
-- with any payload, whatever statements fail, in any table that extends the one that the winner
-- left.
pub claim_exclusive :
    (E : Env) (step_n : ℤ) (trajectory tenant : Str) (seq : ℤ) (first second : Option Fields)
    (db later : Db)
    → (claim_tool_call E step_n first trajectory tenant seq db).0 ≡ ok true
    → Extends (claim_tool_call E step_n first trajectory tenant seq db).1.rows later.rows
    → (claim_tool_call E step_n second trajectory tenant seq later).0 ≢ ok true
claim_exclusive E step_n trajectory tenant seq first second db later won grown =
    claim_taken E step_n second trajectory tenant seq later (
      Extends-IsTaken step_n trajectory tenant seq grown
        (claim-true E step_n first trajectory tenant seq db won).1)

-- Where no statement fails, a claim that is not won had its slot or its id in the table already.
pub claim_lost_taken :
    (E : Env) (step_n : ℤ) (trajectory tenant : Str) (seq : ℤ) (payload : Option Fields) (db : Db)
    → IsQuiet E
    → (claim_tool_call E step_n payload trajectory tenant seq db).0 ≡ ok false
    → (n : Node) × (json : Str) × (new_node E
          (str "TOOL_CALL")
          trajectory
          tenant
          (some step_n)
          seq
          payload
          (E.now db.clock)
        ≡ ok n)
      × ((any (is_claimed step_n trajectory tenant seq) db.rows ≡ true)
          ⊎ (any (conflicts (row_of n json)) db.rows ≡ true))
claim_lost_taken E step_n trajectory tenant seq payload db quiet h =
    let (n, json, built, whole) = claim_inv E step_n payload trajectory tenant seq db h in
    let b =
      new_node-IsBuiltFrom E (str "TOOL_CALL") trajectory tenant (some step_n) seq payload
        (E.now db.clock) built in
    let t = claim_slot-false E step_n n json db quiet (ap (λ p. p.0) (sym whole) ∙ h) in
    (n, json, built, (rw (b.trajectory_eq, b.tenant_eq, b.seq_eq) at t))
