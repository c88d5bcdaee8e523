-- ===== src/Training/Curriculum/Entries.antt =====
-- Entries of the byte strings and labels of Training/Curriculum.
use npp_ai.Prelude.{
  ℕ, zero, suc, ◌-◌, ◌≤◌, ◌<◌, ◌≡◌, refl, Option, some, List, [], ◌∷◌, ◌++◌, map, length, arith,
}
use npp_ai.Text.{Bytes}
use npp_ai.Python.Exceptions.{ok}
use npp_ai.Training.Copy.{item}
use npp_ai.Training.Transition.{at}
use npp_ai.Training.Curriculum.{without_last, without_first, masked}

pub item-at : (xs : Bytes) (i a : ℕ) → item xs i ≡ ok a → at xs i ≡ some a
unfolding item at
item-at [] i a h = absurd (cc h)
item-at (x ∷ xs) zero a h = cc
item-at (x ∷ xs) (suc i) a h = item-at xs i a h

pub at-length : {A : Type 0} (xs : List A) (i : ℕ) (a : A) → at xs i ≡ some a → i < length xs
unfolding at
at-length [] i a h = absurd (cc h)
at-length (x ∷ xs) zero a h = omega arith
at-length (x ∷ xs) (suc i) a h = omega (arith, at-length xs i a h)

pub at-extend :
    {A : Type 0} (xs ys : List A) (i : ℕ) (a : A) → at xs i ≡ some a → at (xs ++ ys) i ≡ some a
unfolding at
at-extend [] ys i a h = absurd (cc h)
at-extend (x ∷ xs) ys zero a h = h
at-extend (x ∷ xs) ys (suc i) a h = at-extend xs ys i a h

-- All but the last byte.
pub at-without_last :
    (xs : Bytes) (i a : ℕ) → at xs i ≡ some a → suc i < length xs → at (without_last xs) i ≡ some a
unfolding at without_last
at-without_last [] i a h small = absurd (cc h)
at-without_last (x ∷ []) i a h small = absurd (omega arith)
at-without_last (x ∷ y ∷ xs) zero a h small = h
at-without_last (x ∷ y ∷ xs) (suc i) a h small =
    let less : suc i < length (y ∷ xs) = omega arith in at-without_last (y ∷ xs) i a h less

pub at-without_first :
    (xs : Bytes) (i a : ℕ) → at xs (suc i) ≡ some a → at (without_first xs) i ≡ some a
unfolding at without_first
at-without_first [] i a h = absurd (cc h)
at-without_first (x ∷ xs) i a h = h

pub at-map : (xs : Bytes) (i a : ℕ) → at xs i ≡ some a → at (map some xs) i ≡ some (some a)
unfolding at
at-map [] i a h = absurd (cc h)
at-map (x ∷ xs) zero a h = cc
at-map (x ∷ xs) (suc i) a h = at-map xs i a h

pub at-masked : (n : ℕ) (ys : List (Option ℕ)) (i : ℕ) → n ≤ i → at (masked n ys) i ≡ at ys i
unfolding at masked
at-masked zero ys i h = refl
at-masked (suc n) [] i h = refl
at-masked (suc n) (y ∷ ys) zero h = absurd (omega arith)
at-masked (suc n) (y ∷ ys) (suc i) h = at-masked n ys i (omega arith)

pub length-without_last : (xs : Bytes) → length (without_last xs) ≡ length xs - 1
unfolding without_last
length-without_last [] = omega arith
length-without_last (x ∷ []) = omega arith
length-without_last (x ∷ y ∷ xs) = omega (arith, length-without_last (y ∷ xs))
