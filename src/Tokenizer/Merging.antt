-- ===== src/Tokenizer/Merging.antt =====
-- `merge` and the bytes that tokens stand for.
use npp_ai.Prelude.{
  ℕ, ◌≤◌, ◌≡◌, refl, ap, Bool-cases, inl, inr, ◌&&◌, Option, none, some, List, [], ◌∷◌,
  append_assoc, length, ◌==◌, arith,
}
use npp_ai.Text.{Bytes}
use npp_ai.Tokenizer.{Pair, merge, joined, expand}

joined_assoc : (x y z : Option Bytes) → joined (joined x y) z ≡ joined x (joined y z)
unfolding joined
joined_assoc none y z = refl
joined_assoc (some x) none z = refl
joined_assoc (some x) (some y) none = refl
joined_assoc (some x) (some y) (some z) = ap some (append_assoc x y z)

pub expand-merge :
    (vocab : ℕ → Option Bytes) (ids : List ℕ) (pair : Pair) (idx : ℕ)
    → vocab idx ≡ joined (vocab pair.0) (vocab pair.1)
    → expand vocab (merge ids pair idx) ≡ expand vocab ids
unfolding expand merge
expand-merge vocab [] pair idx h = refl
expand-merge vocab (a ∷ []) pair idx h = refl
expand-merge vocab (a ∷ (b ∷ ids)) pair idx h = elim (Bool-cases (a == pair.0 && b == pair.1)) [
  | inl here ↦
      let first : a ≡ pair.0 = ground arith in
      let second : b ≡ pair.1 = ground arith in
      rw here (
        rw (expand-merge vocab ids pair idx h, h, first, second)
          (joined_assoc (vocab pair.0) (vocab pair.1) (expand vocab ids)))
  | inr other ↦ rw other (ap (joined (vocab a)) (expand-merge vocab (b ∷ ids) pair idx h))
]

-- A merge makes the list no longer.
pub length-merge_le :
    (ids : List ℕ) (pair : Pair) (idx : ℕ) → length (merge ids pair idx) ≤ length ids
unfolding merge
length-merge_le [] pair idx = omega arith
length-merge_le (a ∷ []) pair idx = omega arith
length-merge_le (a ∷ (b ∷ ids)) pair idx =
    ground (arith, length-merge_le ids pair idx, length-merge_le (b ∷ ids) pair idx)
