-- ===== src/Tests/Training.antt =====
-- Runs of the training scripts' measures and schedules on small records.
use npp_ai.Prelude.{
  ℕ, zero, suc, ◌≤◌, ◌≡◌, refl, sym, ap, ◌∙◌, inl, inr, arith, Bool-cases, Bool, true, false, List,
  [], ◌∷◌, ◌++◌, length, take, ltb, leb, ◌&&◌, if◌then◌else◌,
}
use npp_ai.Text.{Text, Bytes, codes, text_eq}
use npp_ai.Text.Utf8.{encode}
use npp_ai.Text.Edit.{last_part}
use npp_ai.Python.Exceptions.{Result, ok, err, value_error}
use npp_ai.Decoding.Structure.{function_def}
use npp_ai.Training.Records.{Record, Lexer}
use npp_ai.Training.Schedule.{Random, Encoder, Evidence, Batch, resampled_policy, schedule_evidence}
use npp_ai.Training.Schedule.Laws.{IsRandom}
use npp_ai.Training.Score.{Source, module_of, Metrics, score, Case, total, retention, audit_groups}
use npp_ai.Training.Score.Audit.{AllAudited, audit_groups-AllAudited}
use npp_ai.Training.NameBytes.{Probabilities, NameMetrics, metrics}
use npp_ai.Training.Robustness.{
  Outcome, Paired, paired_outcomes, Augmented, augment_training_records, four_forms,
}

abbrev row_f : Record
row_f = record {
  id = codes "1";
  function = codes "f";
  prompt = codes "f()";
  answer = codes "def f():";
}

abbrev body_f : Source
body_f = module_of (function_def (codes "f") [] [] ∷ []) (codes "dump")

abbrev all_true : Metrics
all_true = record {
  syntax_function = true;
  requested_name = true;
  requested_signature = true;
  reference_ast = true;
  exact_response = true;
}

abbrev exact_case : Case
exact_case = record { id = codes "1"; index = 0; output = codes "def f():"; metrics = all_true }

scored_f : score (λ text. body_f) row_f (codes "def f():") ≡ ok all_true
unfolding score npp_ai.Training.Score.compare_source npp_ai.Training.Score.compare_function text_eq
scored_f = refl

abbrev one_result : List (Text × List Case)
one_result = (codes "g", exact_case ∷ []) ∷ []

abbrev one_group : List (Text × List Record)
one_group = (codes "g", row_f ∷ []) ∷ []

audited_f : audit_groups (λ text. body_f) one_result one_group ≡ ok tt
unfolding audit_groups npp_ai.Training.Score.same_keys npp_ai.Training.Score.audit_each
    npp_ai.Training.Score.audit_cases npp_ai.Training.Score.result_of
    npp_ai.Training.Score.same_metrics npp_ai.Training.Score.same_bit score
    npp_ai.Training.Score.compare_source npp_ai.Training.Score.compare_function text_eq
audited_f = refl

audit_groups-AllAudited_example : AllAudited (λ text. body_f) one_result one_group
audit_groups-AllAudited_example =
    audit_groups-AllAudited (λ text. body_f) one_result one_group tt audited_f

abbrev two_before : List Outcome
two_before = (codes "a", true) ∷ (codes "b", false) ∷ []

abbrev two_after : List Outcome
two_after = (codes "b", true) ∷ (codes "a", false) ∷ []

abbrev two_paired : Paired
two_paired = record { retained_exact = 0; lost_exact = 1; gained_exact = 1; neither_exact = 0 }

paired_ab : paired_outcomes two_before two_after ≡ ok two_paired
unfolding paired_outcomes npp_ai.Training.Robustness.outcomes npp_ai.Training.Robustness.distinct
    npp_ai.Training.Robustness.same_ids npp_ai.Training.Robustness.count_pairs
    npp_ai.Training.Robustness.outcome_of text_eq
paired_ab = refl

-- The first as many, in their order; a hash of the last four bytes; tokens of one answer.
abbrev first_rows : List Record → ℕ → Result (List Record × Unit {0})
first_rows rows k =
    if ltb (length rows) k
    then err (value_error "Sample larger than population")
    else ok (take k rows, tt)

abbrev in_order : Random
in_order = record {
  State = Unit {0};
  seeded = tt;
  sample = λ rows k state. first_rows rows k;
  shuffle = λ draws state. (draws, state);
}

length-take_of : (k : ℕ) (rows : List Record) → k ≤ length rows → length (take k rows) ≡ k
length-take_of zero rows h = omega arith
length-take_of (suc k) [] h = absurd (omega arith)
length-take_of (suc k) (row ∷ rows) h =
    let fits : k ≤ length rows = omega arith in ap suc (length-take_of k rows fits)

sampled_k :
    (rows : List Record) (k : ℕ) (xs : List Record)
    → first_rows rows k ≡ ok (xs, tt)
    → length xs ≡ k
sampled_k rows k xs h = elim (Bool-cases (ltb (length rows) k)) [
  | inl short ↦ absurd (cc (rw short at h))
  | inr enough ↦
      let fits : k ≤ length rows = ground arith in
      let taken : Path (Result (List Record × Unit {0})) (ok (take k rows, tt)) (ok (xs, tt)) =
        rw enough at h in
      let same : take k rows ≡ xs = cc in ap length (sym same) ∙ length-take_of k rows fits
]

in_order-IsRandom : IsRandom in_order
in_order-IsRandom = record {
  sampled = λ rows k state state' xs h. sampled_k rows k xs h;
  shuffled = λ pool draws state. refl;
}

abbrev last_bytes : Bytes → Bytes
last_bytes b = last_part 4 b

abbrev join : List (Bool × Text × Unit {0}) → Text
join [] = []
join ((is_name, string, place) ∷ rest) = string ++ join rest

abbrev lexer_f : Lexer
lexer_f = record {
  Place = Unit {0};
  tokens_of = λ text.
      ok ((false, codes "def ", tt) ∷ (true, codes "f", tt) ∷ (false, codes "():", tt) ∷ []);
  untokenize = join;
  is_word = λ c. leb 48 c && leb c 122;
}

abbrev plain_encoder : Encoder
plain_encoder = record { order = λ draws. []; content = λ draws. [] }

abbrev one_step : Result Evidence
one_step =
    schedule_evidence last_bytes lexer_f resampled_policy in_order plain_encoder
      (row_f ∷ row_f ∷ []) 1

abbrev one_evidence : Evidence
one_evidence = record {
  order_sha256 = [];
  content_sha256 = [];
  originals = 2;
  renameds = 2;
  unique_aliases = 2;
  response_targets = 56;
}

one_step_runs : one_step ≡ ok one_evidence
unfolding schedule_evidence npp_ai.Training.Schedule.schedule npp_ai.Training.Schedule.batches
    npp_ai.Training.Schedule.batch npp_ai.Training.Schedule.rename_all
    npp_ai.Training.Schedule.key_of npp_ai.Training.Schedule.tally
    npp_ai.Training.Schedule.add_batch npp_ai.Training.Schedule.add_draws
    npp_ai.Training.Schedule.add_draw npp_ai.Training.Schedule.add_name
    npp_ai.Training.Records.rename npp_ai.Training.Records.rename_token
    npp_ai.Training.Records.alias npp_ai.Training.Records.sub_from npp_ai.Training.Records.frame
    npp_ai.Training.Records.framed text_eq encode npp_ai.Text.Utf8.encode_char
    npp_ai.Text.starts_with npp_ai.Text.Decimal.decimal npp_ai.Text.Decimal.decimal_from
    npp_ai.Text.Hex.hexdigest npp_ai.Text.Hex.hex_digit
one_step_runs = refl

abbrev counts : Probabilities
counts = record { Float = ℕ; is_probability = λ p. leb p 1; sum = λ ps. 0; nll_sum = λ ps. 0 }

abbrev name_metrics : NameMetrics counts
name_metrics = record {
  name_bytes = 4;
  correct_bytes = 3;
  namespace_bytes = 3;
  namespace_correct = 2;
  suffix_bytes = 1;
  suffix_correct = 1;
  all_name_bytes_correct = 0;
  target_probability_sum = 0;
  nll_sum = 0;
  scaffolded_exact_name = 0;
}

measured :
    metrics counts (codes "name") (codes "nome") (1 ∷ 0 ∷ 1 ∷ 1 ∷ []) (codes "nome(")
    ≡ ok name_metrics
unfolding metrics npp_ai.Training.NameBytes.correct_of npp_ai.Training.NameBytes.count_true text_eq
measured = refl
