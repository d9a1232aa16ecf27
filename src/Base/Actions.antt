-- ===== src/Base/Actions.antt =====
-- Methods that change state and may fail. What was written before a failure stays written.
use mathlib.Core.Bool.{Bool, true, false}
use mathlib.Core.Path.{◌≡◌, refl, ap}
use trajectory_irmrd.Base.Logic.{if◌then◌else◌}
use trajectory_irmrd.Base.Results.{Error, Result, ok, err}

abbrev pub Action {ℓ κ} : Type ℓ → Type κ → Type (ℓ ⊔ κ)
Action S A = S → Result A × S

module _ {ℓ κ} {S : Type ℓ} {A : Type κ} where
  unfoldable pub pure : A → Action S A
  pure a s = (ok a, s)

  unfoldable pub raise : Error → Action S A
  raise e s = (err e, s)

  unfoldable pub lift : Result A → Action S A
  lift r s = (r, s)

  -- A read of the state that may fail and changes nothing.
  unfoldable pub gets : (S → Result A) → Action S A
  gets f s = (f s, s)

module _ {ℓ κ μ} {S : Type ℓ} {A : Type κ} {B : Type μ} where
  abbrev pub continue : Result A → (A → Action S B) → Action S B
  continue (ok a) f s = f a s
  continue (err e) f s = (err e, s)

  infixl 10 ◌>>=◌ ◌>>◌
  -- Opening this opens `pure`, `raise`, `lift` and `gets` too.
  unfoldable pub ◌>>=◌ : Action S A → (A → Action S B) → Action S B
  unfolding pure raise lift gets
  ◌>>=◌ m f s = continue (m s).0 f (m s).1

  abbrev pub ◌>>◌ : Action S A → Action S B → Action S B
  m >> n = m >>= λ _. n

-- `P` holds after `m` where it held before, whether `m` succeeds or fails.
pub record Keeps {ℓ κ μ} {S : Type ℓ} {A : Type κ} (P : S → Type μ) (m : Action S A)
    : Type (ℓ ⊔ μ) where
  pub at : (s : S) → P s → P (m s).1

module _ {ℓ κ μ} {S : Type ℓ} {A : Type κ} {P : S → Type μ} where
  pub Keeps-pure : (a : A) → Keeps P (pure {S = S} a)
  unfolding pure
  Keeps-pure a = record { at = λ s h. h }

  pub Keeps-raise : (e : Error) → Keeps P (raise {S = S} {A = A} e)
  unfolding raise
  Keeps-raise e = record { at = λ s h. h }

  pub Keeps-lift : (r : Result A) → Keeps P (lift {S = S} r)
  unfolding lift
  Keeps-lift r = record { at = λ s h. h }

  pub Keeps-gets : (f : S → Result A) → Keeps P (gets f)
  unfolding gets
  Keeps-gets f = record { at = λ s h. h }

  pub Keeps-if :
      (b : Bool) (m n : Action S A) → Keeps P m → Keeps P n → Keeps P (if b then m else n)
  Keeps-if true m n km kn = km
  Keeps-if false m n km kn = kn

module _ {ℓ κ μ ν} {S : Type ℓ} {A : Type κ} {B : Type μ} {P : S → Type ν} where
  Keeps-continue :
      (r : Result A) (f : A → Action S B) → ((a : A) → Keeps P (f a)) → Keeps P (continue r f)
  Keeps-continue (ok a) f kf = kf a
  Keeps-continue (err e) f kf = record { at = λ s h. h }

  pub Keeps-bind :
      (m : Action S A) (f : A → Action S B)
      → Keeps P m
      → ((a : A) → Keeps P (f a))
      → Keeps P (m >>= f)
  unfolding ◌>>=◌
  Keeps-bind m f km kf = record { at = λ s h. (Keeps-continue (m s).0 f kf).at (m s).1 (km.at s h) }

pub ruleset keeps_rules = (Keeps-pure, Keeps-raise, Keeps-lift, Keeps-gets, Keeps-if, Keeps-bind)

module _ {ℓ κ μ} {S : Type ℓ} {A : Type κ} {B : Type μ} where
  -- Inversion of a block that succeeded.
  pub >>=-eq-ok :
      (m : Action S A) (f : A → Action S B) (s : S) {b : B}
      → ((m >>= f) s).0 ≡ ok b
      → (a : A) × ((m s).0 ≡ ok a) × ((m >>= f) s ≡ f a (m s).1)
  unfolding ◌>>=◌
  >>=-eq-ok m f s {b} h = continued (m s).0 refl h
    where
      continued :
          (r : Result A)
          → (m s).0 ≡ r
          → (continue r f (m s).1).0 ≡ ok b
          → (a : A) × ((m s).0 ≡ ok a) × (continue (m s).0 f (m s).1 ≡ f a (m s).1)
      continued (ok a) e h = (a, e, ap (λ r. continue r f (m s).1) e)
      continued (err c) e h = cc

module _ {ℓ κ μ ν} {S : Type ℓ} {A : Type κ} {B : Type μ} (P : S → Type ν) where
  -- A block keeps what its first action establishes and its rest keeps.
  pub bind-state :
      (m : Action S A) (f : A → Action S B) (s : S)
      → P (m s).1
      → ((a : A) → Keeps P (f a))
      → P ((m >>= f) s).1
  unfolding ◌>>=◌
  bind-state m f s h kf = (Keeps-continue (m s).0 f kf).at (m s).1 h

  -- The same, where the rest need keep it only after a success.
  pub bind-state-ok :
      (m : Action S A) (f : A → Action S B) (s : S)
      → P (m s).1
      → ((a : A) → (m s).0 ≡ ok a → P (f a (m s).1).1)
      → P ((m >>= f) s).1
  unfolding ◌>>=◌
  bind-state-ok m f s h kf = continued (m s).0 refl
    where
      continued : (r : Result A) → (m s).0 ≡ r → P (continue r f (m s).1).1
      continued (ok a) e = kf a e
      continued (err c) e = h

module _ {ℓ κ μ} {S : Type ℓ} {A : Type κ} {B : Type μ} where
  -- Two blocks that agree on their first action, or after it, agree.
  pub bind-cong_left :
      (m n : Action S A) (f : A → Action S B) (s : S) → m s ≡ n s → (m >>= f) s ≡ (n >>= f) s
  unfolding ◌>>=◌
  bind-cong_left m n f s e = ap (λ p. continue p.0 f p.1) e

  pub bind-cong_right :
      (m : Action S A) (f g : A → Action S B) (s : S)
      → ((a : A) → f a (m s).1 ≡ g a (m s).1)
      → (m >>= f) s ≡ (m >>= g) s
  unfolding ◌>>=◌
  bind-cong_right m f g s e = continued (m s).0
    where
      continued : (r : Result A) → continue r f (m s).1 ≡ continue r g (m s).1
      continued (ok a) = e a
      continued (err c) = refl

  -- What a block does, by what its first action returns.
  pub >>=-ok :
      (m : Action S A) (f : A → Action S B) (s : S) {a : A}
      → (m s).0 ≡ ok a
      → (m >>= f) s ≡ f a (m s).1
  unfolding ◌>>=◌
  >>=-ok m f s e = ap (λ r. continue r f (m s).1) e

  pub >>=-err :
      (m : Action S A) (f : A → Action S B) (s : S) {e : Error}
      → (m s).0 ≡ err e
      → (m >>= f) s ≡ (err e, (m s).1)
  unfolding ◌>>=◌
  >>=-err m f s h = ap (λ r. continue r f (m s).1) h
