-- ===== src/Training/NameBytes/Laws.antt =====
-- How the counts of Training/NameBytes add up.
use npp_ai.Prelude.{
  ℕ, zero, suc, ◌+◌, ◌≤◌, ◌≡◌, ◌↔◌, refl, sym, ap, subst, ◌∙◌, Bool, true, false, not, ◌&&◌, List,
  [], ◌∷◌, ◌++◌, length, take, drop, all, ltb, ◌==◌, arith,
}
use npp_ai.Text.{Bytes}
use npp_ai.Python.Exceptions.{ok_inj, ok, require, >>=-eq-ok, require-eq-ok}
use npp_ai.Training.NameBytes.{
  correct_of, count_true, bit, itself, Probabilities, NameMetrics, metrics,
}

count_true-split :
    (n : ℕ) (bs : List Bool) → count_true (take n bs) + count_true (drop n bs) ≡ count_true bs
unfolding count_true
count_true-split zero bs = omega arith
count_true-split (suc n) [] = omega arith
count_true-split (suc n) (true ∷ bs) = omega (arith, count_true-split n bs)
count_true-split (suc n) (false ∷ bs) = omega (arith, count_true-split n bs)

count_true_le : (bs : List Bool) → count_true bs ≤ length bs
unfolding count_true
count_true_le [] = omega arith
count_true_le (true ∷ bs) = omega (arith, count_true_le bs)
count_true_le (false ∷ bs) = omega (arith, count_true_le bs)

all_iff-count : (bs : List Bool) → (bit (all itself bs) ≡ 1) ↔ (count_true bs ≡ length bs)
unfolding count_true
all_iff-count [] = ((λ h. refl), (λ h. refl))
all_iff-count (true ∷ bs) =
    let (f, g) = all_iff-count bs in ((λ h. omega (arith, f h)), (λ h. g (omega arith)))
all_iff-count (false ∷ bs) =
    ((λ h. absurd (omega arith)), (λ h. absurd (omega (arith, count_true_le bs))))

correct_of-length :
    (target predictions : Bytes)
    → length predictions ≡ length target
    → length (correct_of target predictions) ≡ length target
unfolding correct_of
correct_of-length [] predictions h = refl
correct_of-length (a ∷ target) [] h = absurd (omega arith)
correct_of-length (a ∷ target) (b ∷ predictions) h =
    let same : length predictions ≡ length target = omega arith in
    ap suc (correct_of-length target predictions same)

module _ (P : Probabilities) where
  -- How the counts of a name hang together.
  pub record AddsUp (m : NameMetrics P) : Type 0 where
    pub bytes : m.namespace_bytes + m.suffix_bytes ≡ m.name_bytes
    pub correct : m.namespace_correct + m.suffix_correct ≡ m.correct_bytes
    pub bounded : m.correct_bytes ≤ m.name_bytes
    pub all_iff : (m.all_name_bytes_correct ≡ 1) ↔ (m.correct_bytes ≡ m.name_bytes)

  -- The metrics of a name that are made add up: the namespace and the suffix are the whole name, in
  -- bytes and in correct bytes; no more bytes are correct than there are; and all are said to be
  -- correct exactly if as many are.
  pub metrics-AddsUp :
      (target predictions : Bytes) (probabilities : List P.Float) (greedy : Bytes)
      (m : NameMetrics P)
      → metrics P target predictions probabilities greedy ≡ ok m
      → AddsUp m
  unfolding metrics
  metrics-AddsUp target predictions probabilities greedy m h =
      let correct = correct_of target predictions in
      let (u1, p1, h1) =
        >>=-eq-ok
          (require (length predictions == length target && length probabilities == length target) _)
          _ h in
      let (u2, p2, h2) =
        >>=-eq-ok
          (require (all (λ v. ltb v 256) (predictions ++ greedy) && not (ltb 32 (length greedy))) _)
          _ h1 in
      let (u3, p3, made) = >>=-eq-ok (require (all P.is_probability probabilities) _) _ h2 in
      let counts = require-eq-ok _ _ p1 in
      let same : length predictions ≡ length target = ground arith in
      let size = correct_of-length target predictions same in
      let few = count_true_le correct in
      let split = count_true-split 3 correct in
      let (f, g) = all_iff-count correct in
      subst AddsUp {y = m} (ok_inj _ m made) (record {
        bytes = ground arith;
        correct = split;
        bounded = omega arith;
        all_iff = ((λ h. f h ∙ size), (λ h. g (h ∙ sym size)));
      })
