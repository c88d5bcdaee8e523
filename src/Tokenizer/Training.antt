-- ===== src/Tokenizer/Training.antt =====
-- The tables of a tokenizer in the rounds of `train`.
use npp_ai.Prelude.{
  ℕ, zero, suc, ◌+◌, ◌-◌, ◌≤◌, ◌<◌, ◌≡◌, refl, ◌∙◌, subst, true, false, Bool-cases, ◌⊎◌, inl, inr,
  ◌&&◌, some, List, [], ◌∷◌, ltb, ◌==◌, if◌then◌else◌, if_intro, arith,
}
use npp_ai.Text.{Text, Bytes, IsBytes}
use npp_ai.Text.Utf8.{is_text, encode}
use npp_ai.Text.Utf8.RoundTrip.{encode-IsBytes}
use npp_ai.Tokenizer.{
  Pair, pair_eq, find, put, bump, count_pairs, get_stats, merge, most_frequent, Tokenizer,
  base_vocab, make_tokenizer, joined, learn, train_loop, train,
}
use npp_ai.Tokenizer.RoundTrip.{IsConsistent}

-- Below the next token to be learned.
abbrev pub Below : ℕ → List ℕ → Type 0
Below next [] = Unit
Below next (a ∷ ids) = (a < next) × Below next ids

abbrev pub PairBelow : ℕ → Pair → Type 0
PairBelow next p = (p.0 < next) × (p.1 < next)

abbrev KeysBelow : ℕ → List (Pair × ℕ) → Type 0
KeysBelow next [] = Unit
KeysBelow next ((p, n) ∷ d) = PairBelow next p × KeysBelow next d

module _ (next : ℕ) where
  bump-KeysBelow :
      (p : Pair) (d : List (Pair × ℕ))
      → PairBelow next p
      → KeysBelow next d
      → KeysBelow next (bump p d)
  unfolding bump
  bump-KeysBelow p [] h k = (h, tt)
  bump-KeysBelow p ((q, n) ∷ d) h (k, ks) =
      if_intro (KeysBelow next) (pair_eq q p) (λ _. (k, ks)) (λ _. (k, bump-KeysBelow p d h ks))

  pub count_pairs-KeysBelow :
      (d : List (Pair × ℕ)) (ids : List ℕ)
      → KeysBelow next d
      → Below next ids
      → KeysBelow next (count_pairs d ids)
  unfolding count_pairs
  count_pairs-KeysBelow d [] k h = k
  count_pairs-KeysBelow d (a ∷ []) k h = k
  count_pairs-KeysBelow d (a ∷ (b ∷ ids)) k (ha, (hb, h)) =
      count_pairs-KeysBelow (bump (a, b) d) (b ∷ ids) (bump-KeysBelow (a, b) d (ha, hb) k) (hb, h)

  pub most_frequent-PairBelow :
      (p : Pair) (n : ℕ) (d : List (Pair × ℕ))
      → PairBelow next p
      → KeysBelow next d
      → PairBelow next (most_frequent p n d)
  unfolding most_frequent
  most_frequent-PairBelow p n [] h k = h
  most_frequent-PairBelow p n ((q, m) ∷ d) h (k, ks) =
      most_frequent-PairBelow (if ltb n m then q else p) (if ltb n m then m else n) d
        (if_intro (PairBelow next) (ltb n m) (λ _. k) (λ _. h)) ks

  Below-suc : (ids : List ℕ) → Below next ids → Below (suc next) ids
  Below-suc [] h = h
  Below-suc (a ∷ ids) (ha, h) = (omega arith, Below-suc ids h)

  pub merge-Below : (ids : List ℕ) (p : Pair) → Below next ids → Below (suc next) (merge ids p next)
  unfolding merge
  merge-Below [] p h = h
  merge-Below (a ∷ []) p (ha, h) = (omega arith, tt)
  merge-Below (a ∷ (b ∷ ids)) p (ha, (hb, h)) =
      if_intro (Below (suc next)) (a == p.0 && b == p.1) (λ _. (omega arith, merge-Below ids p h))
        (λ _. (omega arith, merge-Below (b ∷ ids) p (hb, h)))

find-put :
    (p q : Pair) (n : ℕ) (d : List (Pair × ℕ))
    → find p (put q n d) ≡ (if pair_eq q p then some n else find p d)
unfolding find put pair_eq
find-put (a, b) (x, y) n [] = refl
find-put (a, b) (x, y) n (((u, v), m) ∷ d) = ground (arith, find-put (a, b) (x, y) n d)

-- What training keeps: all that is learned lies below the next token.
pub record Trained (next : ℕ) (tok : Tokenizer) : Type 0 where
  pub consistent : IsConsistent tok
  pub low : 256 ≤ next
  pub known : (p : Pair) (idx : ℕ) → find p tok.merges ≡ some idx → (idx < next) × PairBelow next p

module _ (next : ℕ) (tok : Tokenizer) (best : Pair) (t : Trained next tok)
    (below : PairBelow next best) where
  pub learn_below : (i : ℕ) → i < next → (learn tok best next).vocab i ≡ tok.vocab i
  unfolding learn
  learn_below i h = let old : (i == next) ≡ false = ground arith in rw old

  pub learn_new : (learn tok best next).vocab next ≡ joined (tok.vocab best.0) (tok.vocab best.1)
  unfolding learn
  learn_new = let same : (next == next) ≡ true = ground arith in rw same

  -- A learned pair is the new one, with the new token, or an old one.
  pub learn-find :
      (p : Pair) (idx : ℕ)
      → find p (learn tok best next).merges ≡ some idx
      → ((p.0 ≡ best.0) × (p.1 ≡ best.1) × (idx ≡ next)) ⊎ (find p tok.merges ≡ some idx)
  unfolding learn pair_eq
  learn-find p idx h = elim (Bool-cases (pair_eq best p)) [
    | inl new ↦ inl (
      ground (arith, new),
      ground (arith, new),
      ground (arith, new, find-put p best next tok.merges),
    )
    | inr old ↦ inr (ground (arith, old, find-put p best next tok.merges))
  ]

  learn_pairs :
      (p : Pair) (idx : ℕ)
      → find p (learn tok best next).merges ≡ some idx
      → (idx < suc next)
        × PairBelow (suc next) p
        × ((learn tok best next).vocab idx
            ≡ joined ((learn tok best next).vocab p.0) ((learn tok best next).vocab p.1))
  learn_pairs p idx h = elim (learn-find p idx h) [
    | inl (e0, e1, e2) ↦ (
      omega arith,
      (omega arith, omega arith),
      rw (e0, e1, e2) (rw (learn_new, learn_below best.0 below.0, learn_below best.1 below.1)),
    )
    | inr old ↦
        let (low, (low0, low1)) = t.known p idx old in
        (
          omega arith,
          (omega arith, omega arith),
          rw (learn_below idx low, learn_below p.0 low0, learn_below p.1 low1)
              (t.consistent.pairs p idx old),
        )
  ]

  pub learn-Trained : Trained (suc next) (learn tok best next)
  learn-Trained = record {
    consistent = record {
      bytes = λ b h. learn_below b (omega (arith, t.low)) ∙ t.consistent.bytes b h;
      pairs = λ p idx h. (learn_pairs p idx h).2;
    };
    low = omega (arith, t.low);
    known = λ p idx h. ((learn_pairs p idx h).0, (learn_pairs p idx h).1);
  }

-- What every round keeps holds of the last tables.
pub train_loop_ind :
    (P : ℕ → List ℕ → Tokenizer → Type 0) (Q : Tokenizer → Type 0)
    → ((next : ℕ) (ids : List ℕ) (tok : Tokenizer) → P next ids tok → Q tok)
    → ((next : ℕ) (ids : List ℕ) (tok : Tokenizer) (p : Pair) (n : ℕ) (stats : List (Pair × ℕ))
        → get_stats ids ≡ (p, n) ∷ stats
        → P next ids tok
        → P
            (suc next)
            (merge ids (most_frequent p n stats) next)
            (learn tok (most_frequent p n stats) next))
    → (rounds i : ℕ) (ids : List ℕ) (tok : Tokenizer) → P (256 + i) ids tok
    → Q (train_loop rounds i ids tok)
unfolding train_loop
train_loop_ind P Q last round zero i ids tok now = last (256 + i) ids tok now
train_loop_ind P Q last round (suc rounds) i ids tok now =
    at (get_stats ids) refl (train_loop_ind P Q last round rounds (i + 1))
  where
    at :
        (stats : List (Pair × ℕ))
        → get_stats ids ≡ stats
        → ((l : List ℕ) (u : Tokenizer) → P (256 + (i + 1)) l u → Q (train_loop rounds (i + 1) l u))
        → Q (train_loop (suc rounds) i ids tok)
    at [] e ih = rw (e, train_loop) (last (256 + i) ids tok now)
    at ((p, n) ∷ stats) e ih =
        let best = most_frequent p n stats in
        let up : suc (256 + i) ≡ 256 + (i + 1) = omega arith in
        rw (e, train_loop)
          (ih (merge ids best (256 + i)) (learn tok best (256 + i)) (
            subst (λ k. P k (merge ids best (256 + i)) (learn tok best (256 + i))) up
              (round (256 + i) ids tok p n stats e now)))

-- The pair that a round chooses has tokens that are known already.
pub best-PairBelow :
    (next : ℕ) (ids : List ℕ) (p : Pair) (n : ℕ) (stats : List (Pair × ℕ))
    → get_stats ids ≡ (p, n) ∷ stats
    → Below next ids
    → PairBelow next (most_frequent p n stats)
best-PairBelow next ids p n stats e b =
    let (first, others) : KeysBelow next ((p, n) ∷ stats) =
      subst (KeysBelow next) e (unfold get_stats in count_pairs-KeysBelow next [] ids tt b) in
    most_frequent-PairBelow next p n stats first others

train_loop-IsConsistent :
    (rounds : ℕ) (ids : List ℕ) (tok : Tokenizer)
    → Trained 256 tok
    → Below 256 ids
    → IsConsistent (train_loop rounds 0 ids tok)
train_loop-IsConsistent rounds ids tok t b =
    train_loop_ind (λ next l u. Trained next u × Below next l) IsConsistent
      (λ next l u now. now.0.consistent)
      (λ next l u p n stats e now.
        let best = most_frequent p n stats in
        (
          learn-Trained next u best now.0 (best-PairBelow next l p n stats e now.1),
          merge-Below next l best now.1,
        ))
      rounds 0 ids tok (t, b)

base-byte : (b : ℕ) → b < 256 → base_vocab b ≡ some (b ∷ [])
unfolding base_vocab
base-byte b h = ground arith

pub Below-of_IsBytes : (bs : Bytes) → IsBytes bs → Below 256 bs
Below-of_IsBytes [] h = tt
Below-of_IsBytes (b ∷ bs) h = (ground arith, Below-of_IsBytes bs (ground arith))

pub make_tokenizer-Trained : (size : ℕ) → Trained 256 (make_tokenizer size)
unfolding make_tokenizer find
make_tokenizer-Trained size = record {
  consistent = record { bytes = λ b below. base-byte b below; pairs = λ p idx e. cc };
  low = omega arith;
  known = λ p idx e. absurd (cc);
}

-- A tokenizer that is trained from its initial state on any text is consistent.
pub train-IsConsistent :
    (size : ℕ) (text : Text) → is_text text ≡ true → IsConsistent (train (make_tokenizer size) text)
unfolding train make_tokenizer
train-IsConsistent size text h =
    train_loop-IsConsistent (size - 256) (encode text) (make_tokenizer size)
      (make_tokenizer-Trained size) (Below-of_IsBytes (encode text) (encode-IsBytes text h))
