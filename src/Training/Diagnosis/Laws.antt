-- ===== src/Training/Diagnosis/Laws.antt =====
-- What a point that a replay records passes the audit by.
use npp_ai.Prelude.{
  ℕ, zero, suc, ◌+◌, ◌<◌, ◌≤◌, ◌≡◌, refl, ap, Bool, true, not, ◌&&◌, Bool-cases, inl, inr, Option,
  none, some, List, [], ◌∷◌, all, length, ltb, leb, ◌==◌, arith,
}
use npp_ai.Text.{Bytes}
use npp_ai.Text.Utf8.{encode}
use npp_ai.Python.Exceptions.{ok}
use npp_ai.Training.Records.{Record}
use npp_ai.Training.Transition.{at, Plan, Readout, Parts, entry, logs, Point, target_of, aligned_of}
use npp_ai.Training.Diagnosis.{
  Measures, is_byte, same_number, unexpected, check_target, check_aligned, probabilities_of,
  in_prompt, check_mixture, audit_point,
}

-- What the network is relied on for: 256 outputs and one attention for each token, all of them
-- probabilities, that mix, and attention on marked tokens only; and an index for the largest.
pub record IsSound (R : Readout) (M : Measures R) (components : List ℕ → List Bool → Parts R)
    : Type 0 where
  pub largest : (xs : List R.Float) → 0 < length xs → R.argmax xs < length xs
  pub zero_unit : M.is_probability R.zero_float ≡ true
  pub vocab_size : (x : List ℕ) (marks : List Bool) → length (components x marks).vocab ≡ 256
  pub copy_size : (x : List ℕ) (marks : List Bool) → length (components x marks).copy ≡ 256
  pub mixed_size : (x : List ℕ) (marks : List Bool) → length (components x marks).mixed ≡ 256
  pub attention_size :
      (x : List ℕ) (marks : List Bool) → length (components x marks).attention ≡ length x
  pub gate_unit :
      (x : List ℕ) (marks : List Bool) → M.is_probability (components x marks).gate ≡ true
  pub vocab_unit :
      (x : List ℕ) (marks : List Bool) (i : ℕ)
      → M.is_probability (entry R (components x marks).vocab i) ≡ true
  pub copy_unit :
      (x : List ℕ) (marks : List Bool) (i : ℕ)
      → M.is_probability (entry R (components x marks).copy i) ≡ true
  pub mixed_unit :
      (x : List ℕ) (marks : List Bool) (i : ℕ)
      → M.is_probability (entry R (components x marks).mixed i) ≡ true
  pub attention_unit :
      (x : List ℕ) (marks : List Bool) (i : ℕ)
      → M.is_probability (entry R (components x marks).attention i) ≡ true
  pub mixes :
      (x : List ℕ) (marks : List Bool) (i : ℕ)
      → let parts = components x marks in
        M.is_close
          (entry R parts.mixed i)
          (M.mixture parts.gate (entry R parts.vocab i) (entry R parts.copy i))
        ≡ true
  pub on_marks :
      (x : List ℕ) (marks : List Bool) (i : ℕ)
      → M.is_positive (entry R (components x marks).attention i) ≡ true
      → at marks i ≡ some true

pub length-logs : (R : Readout) (xs : List R.Float) → length (logs R xs) ≡ length xs
unfolding logs
length-logs R [] = refl
length-logs R (x ∷ xs) = ap suc (length-logs R xs)

pub at-some : {A : Type 0} (xs : List A) (i : ℕ) → i < length xs → (a : A) × (at xs i ≡ some a)
unfolding at
at-some [] i h = absurd (omega arith)
at-some (x ∷ xs) zero h = (x, refl)
at-some (x ∷ xs) (suc i) h = at-some xs i (omega arith)

module _ (R : Readout) (M : Measures R) where
  pub in_prompt_of :
      (prefix : Bytes) (right b : ℕ) (item : Point R)
      → item.peak_byte ≡ some b
      → (M.is_positive item.peak_probability ≡ true
          → (8 ≤ item.peak_position)
            × (item.peak_position < right)
            × (at prefix item.peak_position ≡ some b))
      → in_prompt R M prefix right item ≡ true
  unfolding in_prompt same_number
  in_prompt_of prefix right b item e h = elim (Bool-cases (M.is_positive item.peak_probability)) [
    | inr zero_weight ↦ rw zero_weight
    | inl positive ↦
        let (low, high, found) = h positive in
        let low' : leb 8 item.peak_position ≡ true = ground arith in
        let high' : ltb item.peak_position right ≡ true = ground arith in
        let same : (b == b) ≡ true = ground arith in rw (positive, low', high', e, found, same)
  ]

  module _ (parts : Parts R) (x : List ℕ) (offset : ℕ) where
    pub due-target :
        (expected : Option ℕ)
        → (not (unexpected R M expected (target_of R parts expected)) ≡ true)
          × (check_target R M expected (target_of R parts expected) ≡ ok tt)
    unfolding unexpected check_target target_of
    due-target none = (refl, refl)
    due-target (some e) = let same : (e == e) ≡ true = ground arith in (refl, rw same)

    pub due-aligned :
        (source : Option ℕ)
        → (not (unexpected R M source (aligned_of R parts x offset source)) ≡ true)
          × (check_aligned R M source (aligned_of R parts x offset source) ≡ ok tt)
    unfolding unexpected check_aligned aligned_of
    due-aligned none = (refl, refl)
    due-aligned (some e) = let same : (e == e) ≡ true = ground arith in (refl, rw same)

pub audit_point-of :
    (R : Readout) (M : Measures R) (p : Plan) (row : Record) (item : Point R)
    (target source : Option ℕ)
    → not (unexpected R M target item.reference) ≡ true
    → not (unexpected R M source item.aligned) ≡ true
    → (ltb item.predicted 256
        && ltb item.vocab_predicted 256
        && ltb item.pointer_predicted 256
        && is_byte item.peak_byte)
      ≡ true
    → check_target R M target item.reference ≡ ok tt
    → check_aligned R M source item.aligned ≡ ok tt
    → all M.is_probability (probabilities_of R M item) ≡ true
    → in_prompt R M p.prefix (8 + length (encode row.prompt)) item ≡ true
    → M.is_close item.predicted_probability
        (M.mixture item.gate item.predicted_vocab_probability item.predicted_pointer_probability)
      ≡ true
    → check_mixture R M item item.reference ≡ ok tt
    → audit_point R M p row item target source ≡ ok tt
unfolding audit_point
audit_point-of R M p row item target source a b c d e f g h i = rw (a, b, c, d, e, f, g, h, i)
