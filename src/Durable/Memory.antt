-- ===== src/Durable/Memory.antt =====
-- `Memory`, go/trajir/durable/memory.go: a map by the workflow id and the step key, joined by a NUL.
use trajectory_irmrd.Base.{
  ◌≡◌, ◌≢◌, refl, Bool, true, false, ◌&&◌, Bool-cases, inl, inr, Option, none, some, List, [], ◌∷◌,
  ◌++◌, arith, if◌then◌else◌, ◌==◌, Str, str_eq, All, ok, err, use_after_close, Action,
}
use trajectory_irmrd.Durable.{Backend, IsBackend}

-- The entries, and whether `Close` has set the map to nil.
pub record Memory : Type 0 where
  pub entries : List (Str × Str)
  pub closed : Bool

unfoldable pub mem_key : Str → Str → Str
mem_key workflow_id step_key = workflow_id ++ 0 ∷ step_key

unfoldable pub find_entry : Str → List (Str × Str) → Option Str
find_entry k [] = none
find_entry k ((j, v) ∷ entries) = if k == j then some v else find_entry k entries

abbrev is_entry : Option Str → Bool
is_entry none = false
is_entry (some v) = true

-- A nil map reads as empty.
unfoldable pub memory_load : Str → Str → Action Memory (Option Str)
memory_load w k s = (ok (if s.closed then none else find_entry (mem_key w k) s.entries), s)

-- The first writer wins. A write to the nil map panics.
unfoldable pub memory_save : Str → Str → Str → Action Memory (Unit {0})
memory_save w k x s =
    if s.closed
    then (err use_after_close, s)
    else if is_entry (find_entry (mem_key w k) s.entries)
    then (ok tt, s)
    else (ok tt, record s { entries = (mem_key w k, x) ∷ s.entries })

unfoldable pub memory_close : Action Memory (Unit {0})
memory_close s = (ok tt, record { entries = []; closed = true })

abbrev pub memory : Backend Memory
memory = record { load = memory_load; save = memory_save; close = memory_close }

abbrev pub LacksNul : Str → Type 0
LacksNul = All (λ c. c ≢ 0)

-- Joined keys are told apart.
pub mem_key_injective :
    (w v : Str) {k j : Str}
    → LacksNul w
    → LacksNul v
    → mem_key w k ≡ mem_key v j
    → (w ≡ v) × (k ≡ j)
unfolding mem_key
mem_key_injective [] [] hw hv e = (refl, cc)
mem_key_injective [] (d ∷ v) hw hv e = absurd (hv.0 (cc))
mem_key_injective (c ∷ w) [] hw hv e = absurd (hw.0 (cc))
mem_key_injective (c ∷ w) (d ∷ v) hw hv e =
    let r = mem_key_injective w v hw.1 hv.1 (cc) in (cc r.0, r.1)

IsOpen : Memory → Type 0
IsOpen s = s.closed ≡ false

memory_in : Memory → Str → Str → Option Str
memory_in s w k = find_entry (mem_key w k) s.entries

pub same_key :
    (w k v j : Str) → LacksNul w → LacksNul v → (mem_key v j == mem_key w k) ≡ (w == v && k == j)
same_key w k v j hw hv = elim (Bool-cases (mem_key v j == mem_key w k)) [
  | inl same ↦
      let e : mem_key w k ≡ mem_key v j = ground (arith, same) in
      let r = mem_key_injective w v hw hv e in ground (arith, same, r.0, r.1)
  | inr other ↦ ground (arith, other)
]

-- The map keeps the backend's promises for the workflow ids that hold no NUL, until it is closed.
unfoldable pub memory-IsBackend : IsBackend memory
unfolding IsOpen memory_in memory_load memory_save find_entry
memory-IsBackend = record {
  IsKey = LacksNul;
  IsUp = IsOpen;
  memo = memory_in;
  load_ok = λ w k s up. ground arith;
  load_up = λ w k s up. ground arith;
  load_keeps = λ w k s v j. ground arith;
  save_ok = λ w k x s up. ground arith;
  save_up = λ w k x s up. ground arith;
  save_first = λ w k x y s up found v j. ground arith;
  save_new = λ w k x s up key missing v j key'. ground (arith, same_key w k v j key key');
}

-- The value that the first writer leaves.
abbrev pub first_of : Option Str → Str → Str
first_of none x = x
first_of (some y) x = y

-- A load from the open in-memory store after a save gives, under the saved key, the value that was
-- there before the save and else the saved one, and under any other key what it gave before; if the
-- two workflow ids hold no NUL.
pub memory_load-memory_save :
    (w k x v j : Str) (s : Memory)
    → LacksNul w
    → LacksNul v
    → s.closed ≡ false
    → (memory_load v j (memory_save w k x s).1).0 ≡ (
        if w == v && k == j
        then ok (some (first_of (find_entry (mem_key w k) s.entries) x))
        else (memory_load v j s).0)
unfolding memory_load memory_save find_entry
memory_load-memory_save w k x v j s hw hv up = ground (arith, same_key w k v j hw hv)
