-- ===== src/Tokenizer/Saving/RoundTrip.antt =====
-- A trained tokenizer, saved and loaded.
use npp_ai.Prelude.{
  ℕ, suc, ◌-◌, ◌<◌, ◌≡◌, refl, ap, ◌∙◌, true, false, Bool-cases, Option-cases, ltb, inl, inr,
  Option, none, some, List, [], ◌∷◌, ◌++◌, arith,
}
use npp_ai.Python.Exceptions.{Result, err, ok, other_exception, ◌>>=◌}
use npp_ai.Text.{Text, Bytes}
use npp_ai.Text.Utf8.{is_text, encode}
use npp_ai.Text.Utf8.RoundTrip.{encode-IsBytes}
use npp_ai.Tokenizer.{
  Pair, find, merge, most_frequent, Tokenizer, make_tokenizer, joined, learn, train,
}
use npp_ai.Tokenizer.Training.{
  Trained, Below, PairBelow, merge-Below, Below-of_IsBytes, learn_below, learn_new, learn-find,
  learn-Trained, train_loop_ind, best-PairBelow, make_tokenizer-Trained,
}
use npp_ai.Tokenizer.Saving.{relearn, save, load, emptied}
use npp_ai.Tokenizer.Saving.Fresh.{adjacent, merge-adjacent, best-adjacent}
use npp_ai.Tokenizer.Saving.Laws.{
  relearn_all, load_lines-entry_lines, relearn_all-append, put_absent,
}

-- What every round keeps: the tables are those that the merges give when they are learned again,
-- no merged pair is left in the tokens, and every token has its bytes.
record Kept (size next : ℕ) (ids : List ℕ) (tok : Tokenizer) : Type 0 where
  again : relearn_all (make_tokenizer size) tok.merges ≡ ok tok
  trained : Trained next tok
  below : Below next ids
  gone : (p : Pair) (idx : ℕ) → find p tok.merges ≡ some idx → adjacent p ids ≡ false
  full : (i : ℕ) → i < next → (bytes : Bytes) × (tok.vocab i ≡ some bytes)

relearn-joined :
    (tok : Tokenizer) (p : Pair) (idx : ℕ) (a b : Bytes)
    → tok.vocab p.0 ≡ some a
    → tok.vocab p.1 ≡ some b
    → relearn tok (p, idx) ≡ ok (learn tok p idx)
unfolding relearn
relearn-joined tok p idx a b ea eb = ap at known
  where
    at : Option Bytes → Result Tokenizer
    at none = err (other_exception "KeyError")
    at (some bytes) = ok (learn tok p idx)

    known : joined (tok.vocab p.0) (tok.vocab p.1) ≡ some (a ++ b)
    known = unfold joined in rw (ea, eb)

module _ (size next : ℕ) (ids : List ℕ) (tok : Tokenizer) (best : Pair) (k : Kept size next ids tok)
    (below : PairBelow next best) (stands : adjacent best ids ≡ true) where
  -- The pair of a round was never merged before.
  best_new : find best tok.merges ≡ none
  best_new = elim (Option-cases (find best tok.merges)) [
    | inl e ↦ e
    | inr (idx, e) ↦ absurd (cc (k.gone best idx e, stands))
  ]

  learn-again :
      relearn_all (make_tokenizer size) (learn tok best next).merges ≡ ok (learn tok best next)
  learn-again =
      let added : (learn tok best next).merges ≡ tok.merges ++ ((best, next) ∷ []) =
        unfold learn in put_absent best next tok.merges best_new in
      let (a, ea) = k.full best.0 below.0 in
      let (b, eb) = k.full best.1 below.1 in
      ap (relearn_all (make_tokenizer size)) added
      ∙ relearn_all-append (make_tokenizer size) tok.merges (best, next)
      ∙ ap (λ r. r >>= λ tok'. relearn tok' (best, next)) k.again
      ∙ relearn-joined tok best next a b ea eb

  learn-gone :
      (p : Pair) (idx : ℕ)
      → find p (learn tok best next).merges ≡ some idx
      → adjacent p (merge ids best next) ≡ false
  learn-gone p idx h = elim (learn-find next tok best k.trained below p idx h) [
    | inl (e0, e1, _) ↦
        merge-adjacent p best next (omega (arith, below.0)) (omega (arith, below.1)) ids
          (inl (λ i. (e0 i, e1 i)))
    | inr old ↦
        let (_, (low0, low1)) = k.trained.known p idx old in
        merge-adjacent p best next low0 low1 ids (inr (k.gone p idx old))
  ]

  learn-full :
      (i : ℕ) → i < suc next → (bytes : Bytes) × ((learn tok best next).vocab i ≡ some bytes)
  learn-full i h = elim (Bool-cases (ltb i next)) [
    | inl old ↦
        let (bytes, e) = k.full i (ground arith) in
        (bytes, learn_below next tok best k.trained below i (ground arith) ∙ e)
    | inr new ↦
        let (a, ea) = k.full best.0 below.0 in
        let (b, eb) = k.full best.1 below.1 in
        let same : i ≡ next = ground arith in
        (
          a ++ b,
          ap (learn tok best next).vocab same
              ∙ learn_new next tok best k.trained below
              ∙ (unfold joined in rw (ea, eb)),
        )
  ]

  learn-Kept : Kept size (suc next) (merge ids best next) (learn tok best next)
  learn-Kept = record {
    again = learn-again;
    trained = learn-Trained next tok best k.trained below;
    below = merge-Below next ids best k.below;
    gone = learn-gone;
    full = learn-full;
  }

make_tokenizer-Kept :
    (size : ℕ) (ids : List ℕ) → Below 256 ids → Kept size 256 ids (make_tokenizer size)
make_tokenizer-Kept size ids below = record {
  again = unfold make_tokenizer relearn_all in refl;
  trained = make_tokenizer-Trained size;
  below = below;
  gone = λ p idx e. absurd (unfold make_tokenizer find in cc);
  full = λ i h. (i ∷ [], (make_tokenizer-Trained size).consistent.bytes i h);
}

train-again :
    (size : ℕ) (text : Text)
    → is_text text ≡ true
    → relearn_all (make_tokenizer size) (train (make_tokenizer size) text).merges
      ≡ ok (train (make_tokenizer size) text)
unfolding train
train-again size text h =
    train_loop_ind (Kept size) (λ tok. relearn_all (make_tokenizer size) tok.merges ≡ ok tok)
      (λ next ids tok k. k.again)
      (λ next ids tok p n stats e k.
        learn-Kept size next ids tok (most_frequent p n stats) k
          (best-PairBelow next ids p n stats e k.below) (best-adjacent ids p n stats e))
      ((make_tokenizer size).vocab_size - 256) 0 (encode text) (make_tokenizer size)
      (make_tokenizer-Kept size (encode text)
        (Below-of_IsBytes (encode text) (encode-IsBytes text h)))

-- A tokenizer that was trained on a text from its initial state is saved to a file from which any
-- tokenizer of the same size loads it: `load` raises nothing and gives the same merges and the same
-- vocabulary.
pub load-save_trained :
    (size : ℕ) (text : Text) (old : Tokenizer)
    → is_text text ≡ true
    → old.vocab_size ≡ size
    → load (some (save (train (make_tokenizer size) text))) old
      ≡ ok (train (make_tokenizer size) text)
unfolding load
load-save_trained size text old h same =
    let empty : emptied old ≡ make_tokenizer size = unfold emptied make_tokenizer in rw same in
    rw empty (
      unfold save in
      load_lines-entry_lines (train (make_tokenizer size) text).merges (make_tokenizer size)
      ∙ train-again size text h)
