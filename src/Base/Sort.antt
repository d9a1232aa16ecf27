-- ===== src/Base/Sort.antt =====
-- A stable sort, for `sort.SliceStable`, `sort.Strings` and SQL's `ORDER BY`.
use mathlib.Core.Path.{◌≡◌, refl}
use mathlib.Core.Logic.{inl, inr}
use mathlib.Core.Bool.{Bool, true, false}
use mathlib.Core.List.{List, [], ◌∷◌}
use native.Mathlib.Omega.{arith}
use trajectory_irmrd.Base.Logic.{if◌then◌else◌, Bool-cases}
use trajectory_irmrd.Base.Lists.{count, All}

module _ {ℓ} {A : Type ℓ} where
  -- `x` goes before the first element that is strictly greater.
  unfoldable pub insert_by : (A → A → Bool) → A → List A → List A
  insert_by less x [] = x ∷ []
  insert_by less x (y ∷ ys) = if less y x then y ∷ insert_by less x ys else x ∷ y ∷ ys

  unfoldable pub sort_by : (A → A → Bool) → List A → List A
  unfolding insert_by
  sort_by less [] = []
  sort_by less (x ∷ xs) = insert_by less x (sort_by less xs)

  count-insert_by :
      (less : A → A → Bool) (p : A → Bool) (x : A) (xs : List A)
      → count p (insert_by less x xs) ≡ count p (x ∷ xs)
  unfolding insert_by
  count-insert_by less p x [] = refl
  count-insert_by less p x (y ∷ ys) = ground (arith, count-insert_by less p x ys)

  -- Sorting keeps how many elements pass any test.
  pub count-sort_by :
      (less : A → A → Bool) (p : A → Bool) (xs : List A) → count p (sort_by less xs) ≡ count p xs
  unfolding sort_by
  count-sort_by less p [] = refl
  count-sort_by less p (x ∷ xs) =
      ground (arith, count-insert_by less p x (sort_by less xs), count-sort_by less p xs)

  -- No element is strictly less than an earlier neighbour.
  abbrev pub IsSorted : (A → A → Bool) → List A → Type 0
  IsSorted less [] = Unit
  IsSorted less (x ∷ []) = Unit
  IsSorted less (x ∷ y ∷ ys) = (less y x ≡ false) × IsSorted less (y ∷ ys)

  module _ (less : A → A → Bool) (asym : (a b : A) → less a b ≡ true → less b a ≡ false) where
    insert_by-IsSorted :
        (x : A) (xs : List A) → IsSorted less xs → IsSorted less (insert_by less x xs)
    unfolding insert_by
    insert_by-IsSorted x [] h = tt
    insert_by-IsSorted x (y ∷ []) h = ground (arith, asym y x)
    insert_by-IsSorted x (y ∷ z ∷ zs) h =
        ground (arith, asym y x, asym z x, insert_by-IsSorted x (z ∷ zs) h.1)

    pub sort_by-IsSorted : (xs : List A) → IsSorted less (sort_by less xs)
    unfolding sort_by
    sort_by-IsSorted [] = tt
    sort_by-IsSorted (x ∷ xs) = insert_by-IsSorted x (sort_by less xs) (sort_by-IsSorted xs)

  module _ {κ} (P : A → Type κ) where
    pub insert_by-All :
        (less : A → A → Bool) (x : A) (xs : List A) → P x → All P xs → All P (insert_by less x xs)
    unfolding insert_by
    insert_by-All less x [] px h = (px, tt)
    insert_by-All less x (y ∷ ys) px h = elim (Bool-cases (less y x)) [
      | inl lt ↦ rw lt (h.0, insert_by-All less x ys px h.1)
      | inr ge ↦ rw ge (px, h)
    ]

    -- What holds of all elements holds of all after sorting.
    pub sort_by-All : (less : A → A → Bool) (xs : List A) → All P xs → All P (sort_by less xs)
    unfolding sort_by
    sort_by-All less [] h = tt
    sort_by-All less (x ∷ xs) h =
        insert_by-All less x (sort_by less xs) h.0 (sort_by-All less xs h.1)
