-- ===== src/Training/Replay/Differences.antt =====
-- The first place where two byte strings of Training/Replay differ, and zeros in them.
use npp_ai.Prelude.{
  ℕ, ◌+◌, ◌≡◌, refl, ap, ◌∙◌, inl, inr, Bool, true, false, not, ◌||◌, Bool-cases, none, some, [],
  ◌∷◌, ◌++◌, length, all, any, ◌==◌, arith,
}
use npp_ai.Text.{Bytes}
use npp_ai.Training.Transition.{at}
use npp_ai.Training.Replay.{first_difference}

abbrev pub is_data : ℕ → Bool
is_data b = not (b == 0)

pub first_difference-extend :
    (i k : ℕ) (xs zs ys : Bytes)
    → first_difference i xs ys ≡ some k
    → first_difference i (xs ++ zs) ys ≡ some k
unfolding first_difference
first_difference-extend i k [] zs ys h = absurd (cc h)
first_difference-extend i k (x ∷ xs) zs [] h = absurd (cc h)
first_difference-extend i k (x ∷ xs) zs (y ∷ ys) h = elim (Bool-cases (x == y)) [
  | inl same ↦
      rw same (first_difference-extend (i + 1) k xs zs ys (rw (first_difference, same) at h))
  | inr differ ↦ rw differ (rw (first_difference, differ) at h)
]

pub first_difference-prefix : (i : ℕ) (xs ys : Bytes) → first_difference i xs (xs ++ ys) ≡ none
unfolding first_difference
first_difference-prefix i [] ys = refl
first_difference-prefix i (x ∷ xs) ys =
    let same : (x == x) ≡ true = ground arith in rw same (first_difference-prefix (i + 1) xs ys)

pub first_difference-behind :
    (i a b : ℕ) (xs ys : Bytes)
    → (a == b) ≡ false
    → first_difference i (xs ++ (a ∷ [])) (xs ++ (b ∷ ys)) ≡ some (i + length xs)
unfolding first_difference
first_difference-behind i a b [] ys h = rw h (ap some (omega arith))
first_difference-behind i a b (x ∷ xs) ys h =
    let same : (x == x) ≡ true = ground arith in
    rw same (first_difference-behind (i + 1) a b xs ys h ∙ ap some (omega arith))

pub at-append : (xs ys : Bytes) (y : ℕ) → at (xs ++ (y ∷ ys)) (length xs) ≡ some y
unfolding at
at-append [] ys y = refl
at-append (x ∷ xs) ys y = at-append xs ys y

-- The first zero of a list is at one place.
pub split-zero :
    (xs ys rest : Bytes)
    → all is_data xs ≡ true
    → all is_data ys ≡ true
    → xs ++ (0 ∷ []) ≡ ys ++ (0 ∷ rest)
    → ys ≡ xs
split-zero [] [] rest p q h = refl
split-zero [] (y ∷ ys) rest p q h = let zero_first : 0 ≡ y = cc in absurd (ground arith)
split-zero (x ∷ xs) [] rest p q h = let zero_first : x ≡ 0 = cc in absurd (ground arith)
split-zero (x ∷ xs) (y ∷ ys) rest p q h =
    let heads : y ≡ x = cc in
    let tails : xs ++ (0 ∷ []) ≡ ys ++ (0 ∷ rest) = cc in
    let p' : all is_data xs ≡ true = ground arith in
    let q' : all is_data ys ≡ true = ground arith in
    let same = split-zero xs ys rest p' q' tails in cc

pub no-zero : (xs : Bytes) → all is_data (xs ++ (0 ∷ [])) ≡ false
no-zero [] = refl
no-zero (x ∷ xs) = ground (arith, no-zero xs)

pub all-of_any : (xs : Bytes) → any (λ b. b == 0) xs ≡ false → all is_data xs ≡ true
all-of_any [] h = refl
all-of_any (x ∷ xs) h =
    let first : (x == 0) ≡ false = ground arith in
    let rest : any (λ b. b == 0) xs ≡ false = ground arith in
    let later = all-of_any xs rest in ground arith

pub any-append : (p : ℕ → Bool) (xs ys : Bytes) → any p (xs ++ ys) ≡ (any p xs || any p ys)
any-append p [] ys = refl
any-append p (x ∷ xs) ys = ground (arith, any-append p xs ys)
