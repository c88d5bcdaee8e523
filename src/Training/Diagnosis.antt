-- ===== src/Training/Diagnosis.antt =====
-- The audit of a case in scripts/copy_transition_diagnostic.py: `audit_point`, and what `audit` does
-- with the autonomous answer, the scaffolded name and the point of the initial model. The floats are
-- parameters.
pub mod Laws
pub mod Steps
pub mod Points
pub mod Loop
pub mod Names
pub mod Answers
pub mod Returns
use npp_ai.Prelude.{
  ℕ, suc, ◌+◌, ◌-◌, Bool, true, false, not, ◌&&◌, ◌||◌, Option, none, some, List, [], ◌∷◌, ◌++◌,
  length, map, take, all, ltb, leb, ◌==◌, if◌then◌else◌,
}
use npp_ai.Text.{Text, Bytes, text_eq}
use npp_ai.Text.Utf8.{encode, decode}
use npp_ai.Python.Int.{ℤ, ◌==ℤ◌}
use npp_ai.Python.Exceptions.{Result, ok, err, value_error, other_exception, require, ◌>>=◌, ◌>>◌}
use npp_ai.Training.Records.{Record}
use npp_ai.Training.Transition.{
  at, Plan, Phase, eos, def_scaffold, name, name_termination, signature, body, phase, Finish, ended,
  budget, Readout, Target, Point,
}
use npp_ai.Training.Replay.{
  Difference, Traced, Scaffold, delta, ends_name, first_difference, source_at, full_budget,
  scaffold_budget,
}

-- The floats: a finite number of the interval [0, 1.000001], `v > 0`, `(1-g)*v + g*p`, and
-- `math.isclose` with the tolerances of the source.
pub record Measures (R : Readout) : Type 0 where
  pub is_probability : R.Float → Bool
  pub is_positive : R.Float → Bool
  pub mixture : R.Float → R.Float → R.Float → R.Float
  pub is_close : R.Float → R.Float → Bool

unfoldable pub is_byte : Option ℕ → Bool
is_byte none = false
is_byte (some b) = ltb b 256

unfoldable pub same_number : Option ℕ → ℕ → Bool
same_number none n = false
same_number (some m) n = m == n

module _ (R : Readout) (M : Measures R) where
  -- `any(k in item for k in …)`, where no target or source is due.
  unfoldable pub unexpected {ℓ} : {A : Type ℓ} → Option ℕ → Option A → Bool
  unexpected none (some a) = true
  unexpected none none = false
  unexpected (some n) o = false

  -- `item['target'] != target`
  unfoldable pub check_target : Option ℕ → Option (Target R) → Result (Unit {0})
  check_target none reference = ok tt
  check_target (some target) none = err (other_exception "KeyError")
  check_target (some target) (some reference) =
      require (reference.target == target) (value_error "diagnostic target byte differs")

  unfoldable pub check_aligned : Option ℕ → Option (ℕ × R.Float) → Result (Unit {0})
  check_aligned none aligned = ok tt
  check_aligned (some source) none = err (other_exception "KeyError")
  check_aligned (some source) (some (aligned, p)) =
      require (aligned == source) (value_error "diagnostic source position differs")

  -- `probabilities`, of which those of the target and of the source are there if the two are due.
  unfoldable pub target_probabilities : Option (Target R) → List R.Float
  target_probabilities none = []
  target_probabilities (some t) = t.probability ∷ t.vocab_probability ∷ t.pointer_probability ∷ []

  unfoldable pub aligned_probabilities : Option (ℕ × R.Float) → List R.Float
  aligned_probabilities none = []
  aligned_probabilities (some (source, p)) = p ∷ []

  unfoldable pub probabilities_of : Point R → List R.Float
  unfolding target_probabilities aligned_probabilities
  probabilities_of item =
      item.gate
        ∷ item.peak_probability
        ∷ item.predicted_probability
        ∷ item.predicted_vocab_probability
        ∷ item.predicted_pointer_probability
        ∷ target_probabilities item.reference
      ++ aligned_probabilities item.aligned

  -- The pointer, where its probability is positive, is on its byte of the prompt.
  unfoldable pub in_prompt : Bytes → ℕ → Point R → Bool
  unfolding at same_number
  in_prompt prefix right item =
      not (M.is_positive item.peak_probability)
      || (leb 8 item.peak_position && ltb item.peak_position right && (elim item.peak_byte [
        | none ↦ false
        | some b ↦ same_number (at prefix item.peak_position) b
      ]))

  unfoldable pub check_mixture : Point R → Option (Target R) → Result (Unit {0})
  check_mixture item none = ok tt
  check_mixture item (some t) =
      require
        (M.is_close t.probability (M.mixture item.gate t.vocab_probability t.pointer_probability))
        (value_error "diagnostic target mixture differs")

  -- `audit_point`, for the plan of the record.
  unfoldable pub audit_point : Plan → Record → Point R → Option ℕ → Option ℕ → Result (Unit {0})
  unfolding unexpected is_byte check_target check_aligned probabilities_of in_prompt check_mixture
  audit_point p row item target source = do
    require (not (unexpected target item.reference))
        (value_error "unexpected reference target after prefix drift")
    require (not (unexpected source item.aligned))
        (value_error "unexpected reference source after prefix drift")
    require
        (ltb item.predicted 256
          && ltb item.vocab_predicted 256
          && ltb item.pointer_predicted 256
          && is_byte item.peak_byte)
        (value_error "invalid diagnostic byte")
    check_target target item.reference
    check_aligned source item.aligned
    require (all M.is_probability (probabilities_of item))
        (value_error "invalid diagnostic probability")
    require (in_prompt p.prefix (8 + length (encode row.prompt)) item)
        (value_error "diagnostic pointer escapes prompt")
    require
        (M.is_close item.predicted_probability
          (M.mixture item.gate item.predicted_vocab_probability item.predicted_pointer_probability))
        (value_error "diagnostic mixture probability differs")
    check_mixture item item.reference

  unfoldable pub same_bool : Bool → Bool → Bool
  same_bool true b = b
  same_bool false b = not b

  unfoldable pub same_delta : Option ℤ → Option ℤ → Bool
  same_delta none none = true
  same_delta (some a) (some b) = a ==ℤ b
  same_delta none (some b) = false
  same_delta (some a) none = false

  abbrev pub peak_of : Option (Traced R) → Option ℕ
  peak_of none = none
  peak_of (some t) = some t.point.peak_position

  -- `bytes(free['bytes'][:i]) == target[:i] and i < len(target)`
  unfoldable pub is_intact : Plan → Bytes → ℕ → Bool
  is_intact p bytes i = text_eq (take i bytes) (take i p.target) && ltb i (length p.target)

  -- One point of the scaffolded name, with what it says of its place.
  unfoldable pub audit_traced :
      Plan → Record → Bytes → ℕ → Bool → Option (Traced R) → Traced R → Result (Unit {0})
  unfolding audit_point same_bool same_delta is_intact delta ends_name
  audit_traced p row bytes i is_last before t =
      let intact = is_intact p bytes i in
      let peak = t.point.peak_position in
      do
        audit_point p row t.point (if intact then at p.target i else none)
            (if intact then at p.sources i else none)
        require
            (t.offset == i
              && same_bool t.intact intact
              && same_bool t.peak_in_name
                  (leb p.start peak && ltb (peak + 1) (p.start + length p.target))
              && same_delta t.peak_delta (delta R (peak_of before) peak)
              && (is_last || not (ends_name R t.point.predicted)))
            (value_error "scaffolded transition differs")

  -- The loop over `enumerate(trace)`, from `i`.
  unfoldable pub audit_trace_from :
      Plan → Record → Bytes → ℕ → Option (Traced R) → List (Traced R) → Result (Unit {0})
  unfolding audit_traced
  audit_trace_from p row bytes i before [] = ok tt
  audit_trace_from p row bytes i before (t ∷ []) = audit_traced p row bytes i true before t
  audit_trace_from p row bytes i before (t ∷ t' ∷ rest) = do
    audit_traced p row bytes i false before t
    audit_trace_from p row bytes (i + 1) (some t) (t' ∷ rest)

  unfoldable pub audit_scaffolded : Plan → Record → Scaffold R → Result (Unit {0})
  unfolding audit_trace_from same_bool
  audit_scaffolded p row free = do
    require
        (leb 1 (length free.trace)
          && leb (length free.trace) scaffold_budget
          && text_eq free.bytes (map (λ (t : Traced R). t.point.predicted) free.trace)
          && same_bool free.exact_name (text_eq free.bytes p.target))
        (value_error "scaffolded output differs")
    audit_trace_from p row free.bytes 0 none free.trace

  abbrev pub phase_number : Phase → ℕ
  phase_number eos = 0
  phase_number def_scaffold = 1
  phase_number name = 2
  phase_number name_termination = 3
  phase_number signature = 4
  phase_number body = 5

  -- The recorded first difference against the one that is found again.
  unfoldable pub audit_difference :
      Plan → Record → Bytes → Bytes → Option ℕ → Option (Difference R) → Result (Unit {0})
  unfolding audit_point source_at same_number
  audit_difference p row observed expected none none = ok tt
  audit_difference p row observed expected none (some d) =
      err (value_error "spurious autonomous first error")
  audit_difference p row observed expected (some first) none =
      err (value_error "autonomous first error differs")
  audit_difference p row observed expected (some first) (some d) = do
    ph ← phase row first
    require (d.offset == first && phase_number d.phase == phase_number ph)
        (value_error "autonomous first error differs")
    source ← source_at p first
    audit_point p row d.point (at expected first) source
    require (same_number (at observed first) d.point.predicted)
        (value_error "autonomous first error prediction differs")

  abbrev pub is_budget : Finish → Bool
  is_budget ended = false
  is_budget budget = true

  -- The autonomous answer of a case: its bytes, finish, output and first difference, with the output
  -- that was cached, what the case says of their equality, and whether the metrics are those of the
  -- score.
  unfoldable pub audit_full :
      Plan
      → Record
      → Bytes
      → Finish
      → Text
      → Option (Difference R)
      → Text
      → Bool
      → Bool
      → Result (Unit {0})
  unfolding audit_difference first_difference
  audit_full p row output finish text difference cached told_equal scored = do
    require (all (λ b. ltb b 256) output) (value_error "invalid autonomous bytes")
    require
        (leb (length output) full_budget
          && (not (is_budget finish) || length output == full_budget)
          && text_eq (decode output) text
          && told_equal
          && text_eq text cached
          && scored)
        (value_error "diagnostic autonomous replay differs")
    let expected = encode row.answer ++ (0 ∷ [])
    let observed = output ++ (if is_budget finish then [] else 0 ∷ [])
    audit_difference p row observed expected (first_difference 0 observed expected) difference

  -- The point of the initial model, which only a case of the role has, where there is a difference.
  unfoldable pub audit_initial :
      Plan → Record → Bool → Option ℕ → Option (Point R) → Result (Unit {0})
  unfolding audit_point source_at same_number
  audit_initial p row is_initial_exact first none =
      if is_initial_exact
      then elim first [ none ↦ ok tt | some i ↦ err (other_exception "TypeError") ]
      else ok tt
  audit_initial p row false first (some item) =
      err (value_error "unexpected initial shared-prefix record")
  audit_initial p row true none (some item) =
      err (value_error "unexpected initial shared-prefix record")
  audit_initial p row true (some first) (some item) = do
    let expected = encode row.answer ++ (0 ∷ [])
    source ← source_at p first
    audit_point p row item (at expected first) source
    require (same_number (at expected first) item.predicted)
        (value_error "initial shared-prefix prediction differs")
