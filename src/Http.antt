-- ===== src/Http.antt =====
-- A call that raises: `HTTPException(code, detail)`, the database's `IntegrityError` at a flush,
-- and the monad in which the reads of a handler are written.
use electa.Base.{ℕ, String, Bool, Option, none, some, ◌≡◌, refl, ◌⊎◌, inl, inr, true, false, arith}

pub data HttpError : Type 0 where
  http_exception : ℕ → String → HttpError
  integrity_error : HttpError

pub data Result {ℓ} (A : Type ℓ) : Type ℓ where
  raised : HttpError → Result A
  returned : A → Result A

module _ {ℓ} {A : Type ℓ} where
  infixl 5 ◌>>=◌ ◌>>◌
  -- The calls of a handler in order: the first that raises ends it.
  abbrev pub ◌>>=◌ {κ} : {B : Type κ} → Result A → (A → Result B) → Result B
  raised error >>= next = raised error
  returned value >>= next = next value

  abbrev pub ◌>>◌ : Result (Unit {0}) → Result A → Result A
  raised error >> next = raised error
  returned _ >> next = next

  -- `if not x: raise HTTPException(code, detail)`
  abbrev pub or_raise : Option A → ℕ → String → Result A
  or_raise none code detail = raised (http_exception code detail)
  or_raise (some value) code detail = returned value

  pub or_raise-eq-returned :
      (o : Option A) (code : ℕ) (detail : String) {a : A}
      → or_raise o code detail ≡ returned a
      → o ≡ some a
  or_raise-eq-returned none code detail h = cc
  or_raise-eq-returned (some value) code detail h = ground arith

  pub Result-cases :
      (r : Result A) → ((a : A) × (r ≡ returned a)) ⊎ ((e : HttpError) × (r ≡ raised e))
  Result-cases (returned a) = inl (a, refl)
  Result-cases (raised e) = inr (e, refl)

  pub returned-injective : {a b : A} → returned a ≡ returned b → a ≡ b
  returned-injective h = cc

-- `if c: raise HTTPException(code, detail)`
abbrev pub raise_if : Bool → ℕ → String → Result (Unit {0})
raise_if true code detail = raised (http_exception code detail)
raise_if false code detail = returned tt
