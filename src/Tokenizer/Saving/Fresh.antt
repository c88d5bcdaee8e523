-- ===== src/Tokenizer/Saving/Fresh.antt =====
-- A pair that was merged does not come back: which pairs stand next to each other in the tokens of
-- a training round.
use npp_ai.Prelude.{
  ℕ, ◌<◌, ◌≡◌, refl, subst, Bool, true, false, ◌&&◌, ◌||◌, if_intro, ◌⊎◌, inl, inr, List, [], ◌∷◌,
  ltb, ◌==◌, if◌then◌else◌, arith,
}
use npp_ai.Tokenizer.{Pair, pair_eq, bump, count_pairs, get_stats, merge, most_frequent}

-- `b` starts the tokens that follow `a`, for the pair (a, b).
pub follows : Pair → ℕ → List ℕ → Bool
follows q a [] = false
follows q a (b ∷ ids) = a == q.0 && b == q.1

pub adjacent : Pair → List ℕ → Bool
unfolding follows
adjacent q [] = false
adjacent q (a ∷ ids) = follows q a ids || adjacent q ids

module _ (q p : Pair) (idx : ℕ) (q0 : q.0 < idx) (q1 : q.1 < idx) where
  follows-new : (ids : List ℕ) → follows q idx ids ≡ false
  unfolding follows
  follows-new [] = refl
  follows-new (b ∷ ids) = ground arith

  -- The new token, or the first token as it was, starts what is merged.
  follows-merge :
      (a b : ℕ) (ids : List ℕ)
      → follows q a (b ∷ ids) ≡ false
      → follows q a (merge (b ∷ ids) p idx) ≡ false
  unfolding follows merge
  follows-merge a b [] h = h
  follows-merge a b (c ∷ ids) h =
      if_intro (λ l. follows q a l ≡ false) (b == p.0 && c == p.1) (λ _. ground arith) (λ _. h)

  -- The pair that is merged is gone, and no other comes back.
  pub merge-adjacent :
      (ids : List ℕ) → (q ≡ p) ⊎ (adjacent q ids ≡ false) → adjacent q (merge ids p idx) ≡ false
  unfolding adjacent merge
  merge-adjacent [] h = refl
  merge-adjacent (a ∷ []) h = unfold follows in refl
  merge-adjacent (a ∷ (b ∷ ids)) h =
      if_intro (λ l. adjacent q l ≡ false) (a == p.0 && b == p.1)
        (λ _. ground (arith, follows-new (merge ids p idx), merge-adjacent ids (rest2 h)))
        (λ apart.
          ground (arith, follows-merge a b ids (first apart h), merge-adjacent (b ∷ ids) (rest1 h)))
    where
      rest1 :
          (q ≡ p) ⊎ (adjacent q (a ∷ (b ∷ ids)) ≡ false) → (q ≡ p) ⊎ (adjacent q (b ∷ ids) ≡ false)
      rest1 (inl e) = inl e
      rest1 (inr e) = inr (unfold adjacent in ground arith)

      rest2 : (q ≡ p) ⊎ (adjacent q (a ∷ (b ∷ ids)) ≡ false) → (q ≡ p) ⊎ (adjacent q ids ≡ false)
      rest2 (inl e) = inl e
      rest2 (inr e) = inr (unfold adjacent in ground arith)

      first :
          (a == p.0 && b == p.1) ≡ false
          → (q ≡ p) ⊎ (adjacent q (a ∷ (b ∷ ids)) ≡ false)
          → follows q a (b ∷ ids) ≡ false
      first apart (inl e) = unfold follows in rw e apart
      first apart (inr e) = unfold adjacent in ground arith

-- Every pair that is counted stands in the tokens.
abbrev Stand : List ℕ → List (Pair × ℕ) → Type 0
Stand ids [] = Unit
Stand ids ((q, n) ∷ d) = (adjacent q ids ≡ true) × Stand ids d

module _ (whole : List ℕ) where
  bump-Stand :
      (p : Pair) (d : List (Pair × ℕ))
      → adjacent p whole ≡ true
      → Stand whole d
      → Stand whole (bump p d)
  unfolding bump
  bump-Stand p [] h k = (h, tt)
  bump-Stand p ((q, n) ∷ d) h (k, ks) =
      if_intro (Stand whole) (pair_eq q p) (λ _. (k, ks)) (λ _. (k, bump-Stand p d h ks))

  count_pairs-Stand :
      (d : List (Pair × ℕ)) (ids : List ℕ)
      → Stand whole d
      → ((q : Pair) → adjacent q ids ≡ true → adjacent q whole ≡ true)
      → Stand whole (count_pairs d ids)
  unfolding count_pairs
  count_pairs-Stand d [] k h = k
  count_pairs-Stand d (a ∷ []) k h = k
  count_pairs-Stand d (a ∷ (b ∷ ids)) k h =
      count_pairs-Stand (bump (a, b) d) (b ∷ ids)
        (bump-Stand (a, b) d (h (a, b) (unfold adjacent follows in ground arith)) k)
        (λ q later. h q (unfold adjacent in ground arith))

  most_frequent-adjacent :
      (p : Pair) (n : ℕ) (d : List (Pair × ℕ))
      → adjacent p whole ≡ true
      → Stand whole d
      → adjacent (most_frequent p n d) whole ≡ true
  unfolding most_frequent
  most_frequent-adjacent p n [] h k = h
  most_frequent-adjacent p n ((q, m) ∷ d) h (k, ks) =
      most_frequent-adjacent (if ltb n m then q else p) (if ltb n m then m else n) d
        (if_intro (λ r. adjacent r whole ≡ true) (ltb n m) (λ _. k) (λ _. h)) ks

-- The pair that a round chooses stands in its tokens.
pub best-adjacent :
    (ids : List ℕ) (p : Pair) (n : ℕ) (stats : List (Pair × ℕ))
    → get_stats ids ≡ (p, n) ∷ stats
    → adjacent (most_frequent p n stats) ids ≡ true
best-adjacent ids p n stats e =
    let (first, others) : Stand ids ((p, n) ∷ stats) =
      subst (Stand ids) e (unfold get_stats in count_pairs-Stand ids [] ids tt (λ q h. h)) in
    most_frequent-adjacent ids p n stats first others
