-- ===== src/Effect.antt =====
-- Python calls that change the process's state and may raise. The state comes back beside the
-- exception too, since what was written before a raise stays written.
use fast_api_layers.Prelude.{ℕ, String, Option, none, some, ◌≡◌, refl, ◌⊎◌, inl, inr}
use fast_api_layers.Value.{Fields}

-- The exceptions that the modelled code raises or catches; `external` is one of a library,
-- a broker, a database or an index.
pub data PyError : Type 0 where
  key_error : String → PyError
  type_error attribute_error value_error assertion_error : PyError
  runtime_error external : String → PyError
  -- `DomainError(detail, code, extra)` of app/core/errors.py
  domain_error : String → String → Fields → PyError
  -- FastAPI's `HTTPException(status_code, detail)`, and its refusal of a query parameter
  http_error : ℕ → String → PyError
  request_validation_error : PyError

pub data Result {ℓ} (A : Type ℓ) : Type ℓ where
  ok : A → Result A
  err : PyError → Result A

abbrev pub Action : Type 0 → Type 0 → Type 0
Action S A = S → Result A × S

-- To split on a computed result and keep the equation.
pub Result-cases :
    {A : Type 0} (r : Result A) → ((e : PyError) × (r ≡ err e)) ⊎ ((a : A) × (r ≡ ok a))
Result-cases (err e) = inl (e, refl)
Result-cases (ok a) = inr (a, refl)

module _ {S A : Type 0} where
  abbrev pub pure : A → Action S A
  pure a s = (ok a, s)

  abbrev pub raise : PyError → Action S A
  raise e s = (err e, s)

  abbrev pub gets : (S → A) → Action S A
  gets f s = (ok (f s), s)

  -- a failing read of a pure value
  abbrev pub lift : Result A → Action S A
  lift r s = (r, s)

module _ {S : Type 0} where
  abbrev pub modify : (S → S) → Action S (Unit {0})
  modify f s = (ok tt, f s)

  -- A stuck call of `continue` shows the call that it waits for, so an equation rewrites there.
  abbrev pub continue : {A B : Type 0} → Result A × S → (A → Action S B) → Result B × S
  continue (ok a, s) f = f a s
  continue (err e, s) f = (err e, s)

  infixl 5 ◌>>=◌ ◌>>◌
  abbrev pub ◌>>=◌ : {A B : Type 0} → Action S A → (A → Action S B) → Action S B
  ◌>>=◌ m f s = continue (m s) f

  abbrev pub ◌>>◌ : {A B : Type 0} → Action S A → Action S B → Action S B
  m >> k = m >>= λ _. k

  abbrev pub handle : {A : Type 0} → Result A × S → (PyError → Action S A) → Result A × S
  handle (ok a, s) f = (ok a, s)
  handle (err e, s) f = f e s

  -- `try: m except Exception as e: f(e)`
  abbrev pub catch : {A : Type 0} → Action S A → (PyError → Action S A) → Action S A
  catch m f s = handle (m s) f

abbrev pub or_raise {ℓ} : {A : Type ℓ} → PyError → Option A → Result A
or_raise e none = err e
or_raise e (some a) = ok a
