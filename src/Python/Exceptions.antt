-- ===== src/Python/Exceptions.antt =====
-- The exception classes that the program raises or catches, and their places in Python's class
-- tree: `BackendUnavailable` and `NotImplementedError` are kinds of `RuntimeError`, and a failed
-- validation by pydantic is a kind of `ValueError`.
use npp_ai.Prelude.{ℕ, Bool, true, false, ◌≡◌, refl, ap}
use Prim.Native.String.{String}

pub data Exception : Type 0 where
  value_error : String → Exception
  validation_error : Exception
  runtime_error : String → Exception
  backend_unavailable : String → Exception
  not_implemented_error : String → Exception
  os_error : String → Exception
  struct_error : Exception
  http_exception : ℕ → String → Exception
  other_exception : String → Exception

-- `isinstance(exc, ValueError)`
unfoldable pub is_value_error : Exception → Bool
is_value_error (value_error m) = true
is_value_error validation_error = true
is_value_error _ = false

-- `isinstance(exc, BackendUnavailable)`
unfoldable pub is_backend_unavailable : Exception → Bool
is_backend_unavailable (backend_unavailable m) = true
is_backend_unavailable _ = false

-- `except (ValueError, RuntimeError, OSError)`
unfoldable pub is_stage_failure : Exception → Bool
is_stage_failure (value_error m) = true
is_stage_failure validation_error = true
is_stage_failure (runtime_error m) = true
is_stage_failure (backend_unavailable m) = true
is_stage_failure (not_implemented_error m) = true
is_stage_failure (os_error m) = true
is_stage_failure _ = false

-- A pure function that may raise.
pub data Result {ℓ} (A : Type ℓ) : Type ℓ where
  err : Exception → Result A
  ok : A → Result A

-- What is returned twice the same is the same.
pub ok_inj {ℓ} : {A : Type ℓ} (a b : A) → ok a ≡ ok b → a ≡ b
ok_inj {A = A} a b h = ap (returned_or a) h
  where
    returned_or : A → Result A → A
    returned_or d (err e) = d
    returned_or d (ok x) = x

-- `if not test: raise e`
abbrev pub require : Bool → Exception → Result (Unit {0})
require false e = err e
require true e = ok tt

pub require-eq-ok : (b : Bool) (e : Exception) {u : Unit {0}} → require b e ≡ ok u → b ≡ true
require-eq-ok false e raised = cc
require-eq-ok true e passed = refl

-- One statement behind another: a raise ends both.
module _ {ℓ κ} {A : Type ℓ} {B : Type κ} where
  infixl 5 ◌>>=◌
  abbrev pub ◌>>=◌ : Result A → (A → Result B) → Result B
  err e >>= rest = err e
  ok value >>= rest = rest value

  -- What two statements that returned went through.
  pub >>=-eq-ok :
      (first : Result A) (rest : A → Result B) {returned : B}
      → (first >>= rest) ≡ ok returned
      → (value : A) × (first ≡ ok value) × (rest value ≡ ok returned)
  >>=-eq-ok (err e) rest raised = cc
  >>=-eq-ok (ok value) rest passed = (value, refl, passed)

infixl 5 ◌>>◌
abbrev pub ◌>>◌ {ℓ} : {B : Type ℓ} → Result (Unit {0}) → Result B → Result B
first >> rest = first >>= λ _. rest

-- Statements that do the same with whatever was returned, and statements in a row.
module _ {ℓ κ} {A : Type ℓ} {B : Type κ} where
  pub >>=-congr :
      (first : Result A) (rest rest' : A → Result B)
      → ((value : A) → rest value ≡ rest' value)
      → (first >>= rest) ≡ (first >>= rest')
  >>=-congr (err e) rest rest' h = refl
  >>=-congr (ok value) rest rest' h = h value

  pub >>=_assoc {μ} :
      {C : Type μ} (first : Result A) (second : A → Result B) (third : B → Result C)
      → ((first >>= second) >>= third) ≡ (first >>= λ value. second value >>= third)
  >>=_assoc (err e) second third = refl
  >>=_assoc (ok value) second third = refl

pub >>=-ok {ℓ} : {A : Type ℓ} (first : Result A) → (first >>= ok) ≡ first
>>=-ok (err e) = refl
>>=-ok (ok value) = refl
