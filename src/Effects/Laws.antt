-- ===== src/Effects/Laws.antt =====
-- The gate test on annotations and modes.
use trajectory_irmrd.Base.{
  ◌≡◌, ◌≢◌, ◌↔◌, ◌⊎◌, inl, inr, refl, Bool-cases, not, ◌&&◌, ◌==◌, Bool, true, false, some, arith,
  Str, str, str_eq, Fields, bool, get, ok, err, sandbox_forbidden,
}
use trajectory_irmrd.Base.Space.{trim_space, to_lower}
use trajectory_irmrd.Effects.{
  EffectClass, non_idempotent_write, requires_block_and_gate, hint_is, classify_from_mcp,
}
use trajectory_irmrd.Effects.Mode.{
  Mode, mode_live, mode_sandbox, normalize_mode, assert_tool_allowed,
}

-- The annotations give this hint this boolean, and nothing else.
abbrev pub Hints : Str → Bool → Fields → Type 0
Hints k b annotations = get k annotations ≡ some (bool b)

normalize_mode-cases :
    (text : Str) {m : Mode} → normalize_mode text ≡ ok m → (m ≡ mode_live) ⊎ (m ≡ mode_sandbox)
unfolding normalize_mode
normalize_mode-cases text h = ground arith

normalize_live : normalize_mode mode_live ≡ ok mode_live
unfolding normalize_mode trim_space to_lower str_eq
normalize_live = refl

normalize_sandbox : normalize_mode mode_sandbox ≡ ok mode_sandbox
unfolding normalize_mode trim_space to_lower str_eq
normalize_sandbox = refl

-- What makes a tool read-only, and what makes it an idempotent write.
pub record IsReadOnly (a : Fields) : Type 0 where
  pub reads : Hints (str "readOnlyHint") true a
  pub not_destructive : ¬ Hints (str "destructiveHint") true a

pub record IsIdempotentWrite (a : Fields) : Type 0 where
  pub writes : Hints (str "readOnlyHint") false a
  pub idempotent : Hints (str "idempotentHint") true a
  pub not_destructive : Hints (str "destructiveHint") false a
  pub not_open : ¬ Hints (str "openWorldHint") true a

hint_is_iff : (b : Bool) (k : Str) (a : Fields) → (hint_is b k a ≡ true) ↔ Hints k b a
unfolding hint_is
hint_is_iff b k a = (λ h. ground arith, λ h. ground arith)

module _ (a : Fields) where
  -- The tests that the two safe classes rest on.
  IsReadOnly-eq :
      IsReadOnly a
      → (hint_is true (str "readOnlyHint") a ≡ true)
        × (hint_is true (str "destructiveHint") a ≡ false)
  IsReadOnly-eq h = (
    (hint_is_iff true (str "readOnlyHint") a).1 h.reads,
    elim (Bool-cases (hint_is true (str "destructiveHint") a)) [
      | inl hinted ↦
          absurd (h.not_destructive ((hint_is_iff true (str "destructiveHint") a).0 hinted))
      | inr unhinted ↦ unhinted
    ],
  )

  IsReadOnly-of :
      hint_is true (str "readOnlyHint") a ≡ true
      → hint_is true (str "destructiveHint") a ≡ false
      → IsReadOnly a
  IsReadOnly-of r d = record {
    reads = (hint_is_iff true (str "readOnlyHint") a).0 r;
    not_destructive = λ h. ground (arith, (hint_is_iff true (str "destructiveHint") a).1 h);
  }

  IsIdempotentWrite-of :
      hint_is false (str "readOnlyHint") a ≡ true
      → hint_is true (str "idempotentHint") a ≡ true
      → hint_is false (str "destructiveHint") a ≡ true
      → hint_is true (str "openWorldHint") a ≡ false
      → IsIdempotentWrite a
  IsIdempotentWrite-of r i d o = record {
    writes = (hint_is_iff false (str "readOnlyHint") a).0 r;
    idempotent = (hint_is_iff true (str "idempotentHint") a).0 i;
    not_destructive = (hint_is_iff false (str "destructiveHint") a).0 d;
    not_open = λ h. ground (arith, (hint_is_iff true (str "openWorldHint") a).1 h);
  }

  IsIdempotentWrite-eq :
      IsIdempotentWrite a
      → (hint_is false (str "readOnlyHint") a ≡ true)
        × (hint_is true (str "idempotentHint") a ≡ true)
        × (hint_is false (str "destructiveHint") a ≡ true)
        × (hint_is true (str "openWorldHint") a ≡ false)
  IsIdempotentWrite-eq h = (
    (hint_is_iff false (str "readOnlyHint") a).1 h.writes,
    (hint_is_iff true (str "idempotentHint") a).1 h.idempotent,
    (hint_is_iff false (str "destructiveHint") a).1 h.not_destructive,
    elim (Bool-cases (hint_is true (str "openWorldHint") a)) [
      | inl hinted ↦ absurd (h.not_open ((hint_is_iff true (str "openWorldHint") a).0 hinted))
      | inr unhinted ↦ unhinted
    ],
  )

  -- A tool escapes the gate exactly when its annotations say that it is read-only and do not say
  -- destructive, or that it is an idempotent write that is not destructive and do not say
  -- open-world; all other annotations leave it gated.
  pub classify_ungated_iff :
      (requires_block_and_gate (classify_from_mcp (some a)) ≡ false)
      ↔ (IsReadOnly a ⊎ IsIdempotentWrite a)
  unfolding classify_from_mcp requires_block_and_gate
  classify_ungated_iff = (
    λ h.
        elim (Bool-cases
          (hint_is true (str "readOnlyHint") a && not (hint_is true (str "destructiveHint") a))) [
            | inl reads ↦ inl (IsReadOnly-of (ground arith) (ground arith))
            | inr rest ↦
                inr
                  (IsIdempotentWrite-of (ground arith) (ground arith) (ground arith) (ground arith))
          ],
    elim [
      | inl reads ↦ ground (arith, IsReadOnly-eq reads)
      | inr writes ↦ ground (arith, IsIdempotentWrite-eq writes)
    ],
  )

-- A tool is refused, with an error that names it and its effect, exactly when the run is a sandbox
-- run and the tool's effect is gated; it is allowed exactly when the run is no sandbox run or the
-- effect is another one.
pub assert_tool_allowed_iff :
    (mode : Mode) (tool : Str) (effect : EffectClass)
    → ((assert_tool_allowed mode tool effect ≡ err (sandbox_forbidden tool effect))
        ↔ ((mode ≡ mode_sandbox) × (effect ≡ non_idempotent_write)))
      × ((assert_tool_allowed mode tool effect ≡ ok tt)
          ↔ ((mode ≢ mode_sandbox) ⊎ (effect ≢ non_idempotent_write)))
unfolding assert_tool_allowed requires_block_and_gate
assert_tool_allowed_iff mode tool effect = (
  (λ h. (ground arith, ground arith), λ h. ground arith),
  (
    λ h. elim (Bool-cases (mode == mode_sandbox)) [
      | inl sandbox ↦ inr (λ gated. ground (arith, sandbox, gated, h))
      | inr other ↦ inl (λ sandbox. ground (arith, other, sandbox))
    ],
    elim [ inl other ↦ ground (arith, other) | inr ungated ↦ ground (arith, ungated) ],
  ),
)

-- A normalized mode is one of the two modes, and to normalize it again changes nothing.
pub normalize_mode_idem :
    (text : Str) {m : Mode}
    → normalize_mode text ≡ ok m
    → ((m ≡ mode_live) ⊎ (m ≡ mode_sandbox)) × (normalize_mode m ≡ ok m)
normalize_mode_idem text {m} h = elim (normalize_mode-cases text h) [
  | inl live ↦ (inl live, rw live normalize_live)
  | inr sandbox ↦ (inr sandbox, rw sandbox normalize_sandbox)
]
