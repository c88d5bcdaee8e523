-- ===== src/Prelude/Members.antt =====
-- A property of every member of a list, and of what an option holds.
use Prim.Native.Nat.{ℕ, zero, suc}
use mathlib.Core.Option.{Option, none, some}
use mathlib.Core.List.{List, [], ◌∷◌, ◌++◌}
use npp_ai.Prelude.Lists.{take}

module _ {ℓ} {A : Type ℓ} (P : A → Type 0) where
  abbrev pub Each : List A → Type 0
  Each [] = Unit {0}
  Each (x ∷ xs) = P x × Each xs

  abbrev pub Within : Option A → Type 0
  Within none = Unit {0}
  Within (some x) = P x

  pub Each-append : (xs ys : List A) → Each xs → Each ys → Each (xs ++ ys)
  Each-append [] ys h h' = h'
  Each-append (x ∷ xs) ys (p, h) h' = (p, Each-append xs ys h h')

  pub Each-take : (n : ℕ) (xs : List A) → Each xs → Each (take n xs)
  Each-take zero xs h = tt
  Each-take (suc n) [] h = tt
  Each-take (suc n) (x ∷ xs) (p, h) = (p, Each-take n xs h)

-- A weaker property.
pub Each-map {ℓ} :
    {A : Type ℓ} (P Q : A → Type 0) → ((x : A) → P x → Q x) → (xs : List A) → Each P xs → Each Q xs
Each-map P Q f [] h = tt
Each-map P Q f (x ∷ xs) (p, h) = (f x p, Each-map P Q f xs h)

pub Within-map {ℓ} :
    {A : Type ℓ} (P Q : A → Type 0)
    → ((x : A) → P x → Q x)
    → (o : Option A) → Within P o
    → Within Q o
Within-map P Q f none h = tt
Within-map P Q f (some x) p = f x p
