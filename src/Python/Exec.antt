-- ===== src/Python/Exec.antt =====
-- Functions that act on a world (clocks, backends, callbacks) and may raise. What was done before
-- a raise stays done.
use npp_ai.Python.Exceptions.{Result, ok, err}

abbrev pub Exec {ℓ} : Type ℓ → Type ℓ → Type ℓ
Exec W A = W → Result A × W

module _ {ℓ} {W A B : Type ℓ} where
  abbrev pub continue_with : Result A → (A → Exec W B) → Exec W B
  continue_with (ok a) f w = f a w
  continue_with (err e) f w = (err e, w)

  infixl 5 ◌>>=◌
  abbrev pub ◌>>=◌ : Exec W A → (A → Exec W B) → Exec W B
  ◌>>=◌ m f w = let (r, w') = m w in continue_with r f w'
