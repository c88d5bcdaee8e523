-- ===== src/Tokenizer/Termination.antt =====
-- The rounds of the loop of `encode`, and the lengths of what it merges.
use npp_ai.Prelude.{
  ℕ, zero, suc, ◌+◌, ◌≤◌, ◌<◌, ◌≡◌, refl, subst, true, false, both, ==_iff, Option, Bool-cases,
  Option-cases, ◌⊎◌, inl, inr, ◌&&◌, none, some, List, [], ◌∷◌, length, ltb, ◌==◌, if◌then◌else◌,
  if_intro, arith,
}
use npp_ai.Text.{Text}
use npp_ai.Text.Utf8.{encode}
use npp_ai.Tokenizer.{
  Pair, pair_eq, find, bump, count_pairs, get_stats, merge, Tokenizer, rank_less, earliest,
  with_rank, next_merge, encode_loop, encode_text,
}
use npp_ai.Tokenizer.Merging.{length-merge_le}

-- The pair stands somewhere in the list, one number behind the other.
abbrev Occurs : Pair → List ℕ → Type 0
Occurs p [] = ⊥
Occurs p (a ∷ []) = ⊥
Occurs p (a ∷ (b ∷ ids)) = ((a ≡ p.0) × (b ≡ p.1)) ⊎ Occurs p (b ∷ ids)

length-merge-lt :
    (p : Pair) (idx : ℕ) (ids : List ℕ) → Occurs p ids → length (merge ids p idx) < length ids
unfolding merge
length-merge-lt p idx [] o = absurd o
length-merge-lt p idx (a ∷ []) o = absurd o
length-merge-lt p idx (a ∷ (b ∷ ids)) (inl (h, k)) =
    let here : (a == p.0 && b == p.1) ≡ true = ground arith in
    rw here (omega (arith, length-merge_le ids p idx))
length-merge-lt p idx (a ∷ (b ∷ ids)) (inr o) =
    ground (arith, length-merge_le ids p idx, length-merge-lt p idx (b ∷ ids) o)

module _ (P : Pair → Type 0) where
  abbrev Keys : List (Pair × ℕ) → Type 0
  Keys [] = Unit
  Keys ((p, n) ∷ d) = P p × Keys d

  bump-Keys : (p : Pair) (d : List (Pair × ℕ)) → P p → Keys d → Keys (bump p d)
  unfolding bump
  bump-Keys p [] h k = (h, tt)
  bump-Keys p ((q, n) ∷ d) h (k, ks) =
      if_intro Keys (pair_eq q p) (λ _. (k, ks)) (λ _. (k, bump-Keys p d h ks))

  count_pairs-Keys :
      (d : List (Pair × ℕ)) (ids : List ℕ)
      → ((p : Pair) → Occurs p ids → P p)
      → Keys d
      → Keys (count_pairs d ids)
  unfolding count_pairs
  count_pairs-Keys d [] all k = k
  count_pairs-Keys d (a ∷ []) all k = k
  count_pairs-Keys d (a ∷ (b ∷ ids)) all k =
      count_pairs-Keys (bump (a, b) d) (b ∷ ids) (λ p o. all p (inr o))
        (bump-Keys (a, b) d (all (a, b) (inl (refl, refl))) k)

  earliest-Keys :
      (merges : List (Pair × ℕ)) (p : Pair) (d : List (Pair × ℕ))
      → P p
      → Keys d
      → P (earliest merges p d)
  unfolding earliest
  earliest-Keys merges p [] h k = h
  earliest-Keys merges p ((q, n) ∷ d) h (k, ks) =
      earliest-Keys merges (if rank_less (find q merges) (find p merges) then q else p) d
        (if_intro P (rank_less (find q merges) (find p merges)) (λ _. k) (λ _. h)) ks

-- The pair that is merged next occurs.
with_rank-same :
    (merges : List (Pair × ℕ)) (p pair : Pair) (idx : ℕ)
    → with_rank merges p ≡ some (pair, idx)
    → p ≡ pair
unfolding with_rank
with_rank-same merges p pair idx h = ground arith

next_merge-Occurs :
    (merges : List (Pair × ℕ)) (ids : List ℕ) (pair : Pair) (idx : ℕ)
    → next_merge merges ids ≡ some (pair, idx)
    → Occurs pair ids
unfolding next_merge
next_merge-Occurs merges ids pair idx h = at (get_stats ids) refl
  where
    at : (stats : List (Pair × ℕ)) → get_stats ids ≡ stats → Occurs pair ids
    at [] e = absurd (cc (rw (e, next_merge) at h))
    at ((p, n) ∷ stats) e =
        let (first, others) : Keys (λ q. Occurs q ids) ((p, n) ∷ stats) =
          subst (Keys (λ q. Occurs q ids)) e
            (unfold get_stats in count_pairs-Keys (λ q. Occurs q ids) [] ids (λ q o. o) tt) in
        subst (λ q. Occurs q ids)
          (with_rank-same merges (earliest merges p stats) pair idx (rw (e, next_merge) at h))
          (earliest-Keys (λ q. Occurs q ids) merges p stats first others)

-- Every pair that stands in the list is counted: it is a key of the counts.
IsKey : Pair → List (Pair × ℕ) → Type 0
IsKey p [] = ⊥
IsKey p ((q, n) ∷ d) = (q ≡ p) ⊎ IsKey p d

pair_eq-same : (p q : Pair) → pair_eq p q ≡ true → p ≡ q
unfolding pair_eq
pair_eq-same (a, b) (c, d) h =
    let (first, second) = both (a == c) (b == d) h in
    λ i. ((==_iff a c).0 first i, (==_iff b d).0 second i)

bump-IsKey : (p : Pair) (d : List (Pair × ℕ)) → IsKey p (bump p d)
unfolding bump IsKey
bump-IsKey p [] = inl refl
bump-IsKey p ((q, n) ∷ d) =
    if_intro (IsKey p) (pair_eq q p) (λ h. inl (pair_eq-same q p h)) (λ _. inr (bump-IsKey p d))

bump-keeps : (p q : Pair) (d : List (Pair × ℕ)) → IsKey p d → IsKey p (bump q d)
unfolding bump IsKey
bump-keeps p q [] k = absurd k
bump-keeps p q ((r, n) ∷ d) (inl e) = if_intro (IsKey p) (pair_eq r q) (λ _. inl e) (λ _. inl e)
bump-keeps p q ((r, n) ∷ d) (inr k) =
    if_intro (IsKey p) (pair_eq r q) (λ _. inr k) (λ _. inr (bump-keeps p q d k))

count_pairs-keeps :
    (p : Pair) (d : List (Pair × ℕ)) (ids : List ℕ) → IsKey p d → IsKey p (count_pairs d ids)
unfolding count_pairs
count_pairs-keeps p d [] k = k
count_pairs-keeps p d (a ∷ []) k = k
count_pairs-keeps p d (a ∷ (b ∷ ids)) k =
    count_pairs-keeps p (bump (a, b) d) (b ∷ ids) (bump-keeps p (a, b) d k)

count_pairs-IsKey :
    (p : Pair) (d : List (Pair × ℕ)) (ids : List ℕ) → Occurs p ids → IsKey p (count_pairs d ids)
unfolding count_pairs
count_pairs-IsKey p d [] o = absurd o
count_pairs-IsKey p d (a ∷ []) o = absurd o
count_pairs-IsKey p d (a ∷ (b ∷ ids)) (inl (h, k)) =
    let same : (a, b) ≡ p = λ i. (h i, k i) in
    count_pairs-keeps p (bump (a, b) d) (b ∷ ids)
      (subst (λ q. IsKey q (bump (a, b) d)) same (bump-IsKey (a, b) d))
count_pairs-IsKey p d (a ∷ (b ∷ ids)) (inr o) = count_pairs-IsKey p (bump (a, b) d) (b ∷ ids) o

-- Where the earliest pair has no token, none of them has.
rank_less-known : (x y : Option ℕ) → y ≡ none → rank_less x y ≡ false → x ≡ none
unfolding rank_less
rank_less-known none y e h = refl
rank_less-known (some a) none e h = absurd (cc h)
rank_less-known (some a) (some b) e h = absurd (cc e)

rank_less-first : (x y : Option ℕ) → x ≡ none → rank_less x y ≡ false
unfolding rank_less
rank_less-first none y e = refl
rank_less-first (some a) y e = absurd (cc e)

earliest-none :
    (merges : List (Pair × ℕ)) (best : Pair) (d : List (Pair × ℕ))
    → find (earliest merges best d) merges ≡ none
    → (find best merges ≡ none) × ((p : Pair) → IsKey p d → find p merges ≡ none)
unfolding earliest IsKey
earliest-none merges best [] h = (h, λ p k. absurd k)
earliest-none merges best ((q, n) ∷ d) h =
    elim (Bool-cases (rank_less (find q merges) (find best merges))) [
      | inl less ↦
          let (first, others) = earliest-none merges q d (rw less at h) in
          absurd (cc (less, rank_less-first (find q merges) (find best merges) first))
      | inr more ↦
          let (first, others) = earliest-none merges best d (rw more at h) in
          let here = rank_less-known (find q merges) (find best merges) first more in
          (
            first,
            λ p k. elim k [
              | inl same ↦ subst (λ r. find r merges ≡ none) same here
              | inr later ↦ others p later
            ],
          )
    ]

with_rank-none :
    (merges : List (Pair × ℕ)) (p : Pair) → with_rank merges p ≡ none → find p merges ≡ none
unfolding with_rank
with_rank-none merges p h = ground arith

-- Nothing is left to merge: no two tokens that stand side by side are a pair with a token.
pub IsDone : List (Pair × ℕ) → List ℕ → Type 0
IsDone merges ids = (p : Pair) → Occurs p ids → find p merges ≡ none

next_merge-IsDone :
    (merges : List (Pair × ℕ)) (ids : List ℕ) → next_merge merges ids ≡ none → IsDone merges ids
unfolding next_merge IsDone get_stats IsKey
next_merge-IsDone merges ids h p o = at (get_stats ids) refl
  where
    counted : IsKey p (get_stats ids)
    counted = count_pairs-IsKey p [] ids o

    at : (stats : List (Pair × ℕ)) → get_stats ids ≡ stats → find p merges ≡ none
    at [] e = absurd (subst (IsKey p) e counted)
    at ((q, n) ∷ stats) e =
        let (first, others) =
          earliest-none merges q stats
            (with_rank-none merges (earliest merges q stats) (rw (e, next_merge) at h)) in
        elim (subst (IsKey p) e counted) [
          | inl same ↦ subst (λ r. find r merges ≡ none) same first
          | inr later ↦ others p later
        ]

short-IsDone : (merges : List (Pair × ℕ)) (ids : List ℕ) → length ids < 2 → IsDone merges ids
unfolding IsDone
short-IsDone merges [] h p o = absurd o
short-IsDone merges (a ∷ []) h p o = absurd o
short-IsDone merges (a ∷ (b ∷ ids)) h p o = absurd (omega arith)

encode_loop-ends :
    (fuel : ℕ) (merges : List (Pair × ℕ)) (ids : List ℕ)
    → length ids < fuel
    → (out : List ℕ) × (encode_loop fuel merges ids ≡ some out)
      × (length out ≤ length ids)
      × IsDone merges out
unfolding encode_loop
encode_loop-ends zero merges ids h = absurd (omega arith)
encode_loop-ends (suc fuel) merges ids h = elim (Bool-cases (ltb (length ids) 2)) [
  | inl short ↦ (ids, rw short, omega arith, short-IsDone merges ids (ground arith))
  | inr long ↦ elim (Option-cases (next_merge merges ids)) [
    | inl over ↦ (ids, rw (long, over), omega arith, next_merge-IsDone merges ids over)
    | inr ((pair, idx), e) ↦
        let shorter = length-merge-lt pair idx ids (next_merge-Occurs merges ids pair idx e) in
        let (out, same, small, done) =
          encode_loop-ends fuel merges (merge ids pair idx) (omega (arith, shorter)) in
        (out, rw (long, e) same, omega (arith, shorter), done)
  ]
]

-- Every text is encoded: the loop ends with at most one token for each byte, and no two tokens that
-- stand side by side in its result are a pair that the merges have a token for.
pub encode_text-ends :
    (tok : Tokenizer) (text : Text)
    → (ids : List ℕ) × (encode_text tok text ≡ some ids)
      × (length ids ≤ length (encode text))
      × IsDone tok.merges ids
unfolding encode_text
encode_text-ends tok text =
    encode_loop-ends (length (encode text) + 1) tok.merges (encode text) (omega arith)
