-- ===== src/Effect.antt =====
-- Go's `error` results, and code that runs against the outside world. What was written before an
-- error stays written, so the world comes back beside the error too.
use food_delivery_analytics.Prelude.{ℕ, String, ◌≡◌, refl}

-- `AppError` of lib/errors/apperror.go.
pub record AppError : Type 0 where
  pub code : String
  pub message : String
  pub status_code : ℕ

-- A non-nil `error`: one that the service made, MongoDB's report of a duplicate key, or any other
-- with its text.
pub data Fault : Type 0 where
  app_fault : AppError → Fault
  duplicate_key : Fault
  other_fault : String → Fault

pub data Result {ℓ} (A : Type ℓ) : Type ℓ where
  ok : A → Result A
  err : Fault → Result A

abbrev pub Action : Type 0 → Type 0 → Type 0
Action W A = W → Result A × W

module _ {W A : Type 0} where
  abbrev pub pure : A → Action W A
  pure a w = (ok a, w)

  abbrev pub fail : Fault → Action W A
  fail e w = (err e, w)

  abbrev pub lift : Result A → Action W A
  lift r w = (r, w)

abbrev pub continue : {W A B : Type 0} → Result A → (A → Action W B) → Action W B
continue (ok a) f w = f a w
continue (err e) f w = (err e, w)

-- `if err := m(); err != nil { return err }`, then the rest.
infixl 5 ◌>>=◌ ◌>>◌
abbrev pub ◌>>=◌ : {W A B : Type 0} → Action W A → (A → Action W B) → Action W B
◌>>=◌ m f w = let (r, w') = m w in continue r f w'

abbrev pub ◌>>◌ : {W A B : Type 0} → Action W A → Action W B → Action W B
m >> k = m >>= λ _. k

continue-eq-ok :
    {W A B : Type 0} (r : Result A) (f : A → Action W B) (w : W) {b : B}
    → (continue r f w).0 ≡ ok b
    → (a : A) × (r ≡ ok a) × (continue r f w ≡ f a w)
continue-eq-ok (ok a) f w e = (a, refl, refl)
continue-eq-ok (err x) f w e = cc

-- Inversion: an action that returned a value ran both of its parts.
pub bind-eq-ok :
    {W A B : Type 0} (m : Action W A) (f : A → Action W B) (w : W) {b : B}
    → ((m >>= f) w).0 ≡ ok b
    → (a : A) × ((m w).0 ≡ ok a) × ((m >>= f) w ≡ f a (m w).1)
bind-eq-ok m f w e = continue-eq-ok (m w).0 f (m w).1 e
