-- ===== src/Text/Laws.antt =====
-- `text_eq` and equality.
use npp_ai.Prelude.{ℕ, ◌≡◌, refl, ◌↔◌, true, List, [], ◌∷◌, arith}
use npp_ai.Text.{text_eq}

pub text_eq_refl : (a : List ℕ) → text_eq a a ≡ true
unfolding text_eq
text_eq_refl [] = refl
text_eq_refl (x ∷ xs) = ground (arith, text_eq_refl xs)

pub eq_of_text_eq : (a b : List ℕ) → text_eq a b ≡ true → a ≡ b
unfolding text_eq
eq_of_text_eq [] [] h = refl
eq_of_text_eq [] (b ∷ bs) h = cc
eq_of_text_eq (a ∷ xs) [] h = cc
eq_of_text_eq (a ∷ xs) (b ∷ bs) h = ground (arith, eq_of_text_eq xs bs)

pub text_eq_iff : (a b : List ℕ) → (text_eq a b ≡ true) ↔ (a ≡ b)
text_eq_iff a b = (eq_of_text_eq a b, λ e. rw e (text_eq_refl b))
