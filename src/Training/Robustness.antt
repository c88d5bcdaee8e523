-- ===== src/Training/Robustness.antt =====
-- Changed wordings of prompts and paired outcomes: scripts/prompt_robustness.py.
pub mod Laws
use npp_ai.Prelude.{
  ℕ, zero, suc, ◌+◌, ◌*◌, Bool, true, false, not, ◌&&◌, ◌||◌, Option, none, some, List, [], ◌∷◌,
  ◌++◌, length, map, all, any, ◌==◌, if◌then◌else◌,
}
use npp_ai.Text.{Text, codes, text_eq}
use npp_ai.Python.Exceptions.{Result, ok, err, value_error, other_exception, require, ◌>>=◌, ◌>>◌}
use npp_ai.Training.Records.{Record}

abbrev pub four_forms : Text
four_forms = codes "four_forms"

abbrev pub eight_forms : Text
eight_forms = codes "eight_forms"

-- `{**record, "prompt": prompt}`
unfoldable pub with_prompt : Record → Text → Record
with_prompt row prompt = record row { prompt = prompt }

unfoldable pub prompt_variants : Record → List (Text × Record)
unfolding with_prompt
prompt_variants row =
    (codes "original", row)
    ∷ (codes "please_prefix", with_prompt row (codes "Please " ++ row.prompt))
    ∷ (codes "python_prefix", with_prompt row (codes "Write Python code. " ++ row.prompt))
    ∷ (codes "code_only_suffix", with_prompt row (row.prompt ++ codes " Return only Python code."))
    ∷ []

unfoldable pub evaluation_variants : Record → Bool → List (Text × Record)
unfolding prompt_variants
evaluation_variants row include_novel =
    prompt_variants row
    ++ (if include_novel
        then (
          codes "novel_polite_python",
          with_prompt row (codes "Please write Python code. " ++ row.prompt),
        )
          ∷ (
            codes "novel_implementation",
            with_prompt row (codes "Provide a Python implementation: " ++ row.prompt),
          )
          ∷ []
        else [])

-- The forms that only the policy of eight has.
unfoldable pub more_variants : Record → List (Text × Record)
unfolding with_prompt
more_variants row =
    (codes "python_task_prefix", with_prompt row (codes "Python task: " ++ row.prompt))
    ∷ (
      codes "implement_function_prefix",
      with_prompt row (codes "Implement this function in Python: " ++ row.prompt),
    )
    ∷ (codes "please_produce_prefix", with_prompt row (codes "Please produce code: " ++ row.prompt))
    ∷ (
      codes "implementation_suffix",
      with_prompt row (row.prompt ++ codes " Provide an implementation."),
    )
    ∷ []

unfoldable pub training_variants : Record → Text → Result (List (Text × Record))
unfolding prompt_variants more_variants
training_variants row policy =
    if text_eq policy four_forms
    then ok (prompt_variants row)
    else if text_eq policy eight_forms
    then ok (prompt_variants row ++ more_variants row)
    else err (value_error "unknown augmentation policy")

-- `{"prompt": ""}`; the variants of it have no other field that is read.
abbrev pub blank_record : Record
blank_record = record { id = []; function = []; prompt = []; answer = [] }

unfoldable pub validate_training_policy : Bool → Text → Result (Unit {0})
unfolding training_variants
validate_training_policy enabled policy = do
  variants ← training_variants blank_record policy
  require (not (not enabled && not (text_eq policy four_forms)))
      (value_error "nondefault augmentation policy requires --augment-prompts")

pub record Augmented : Type 0 where
  pub row : Record
  pub source_id : Text
  pub prompt_variant : Text

unfoldable pub augmented : Record → Text × Record → Augmented
augmented row (variant, item) = record {
  row = record item { id = row.id ++ (codes "::" ++ variant) };
  source_id = row.id;
  prompt_variant = variant;
}

-- `len(set(ids)) == len(ids)`
unfoldable pub distinct : List Text → Bool
distinct [] = true
distinct (id ∷ ids) = not (any (text_eq id) ids) && distinct ids

unfoldable pub augment_each : Text → List Record → Result (List Augmented)
unfolding training_variants augmented
augment_each policy [] = ok []
augment_each policy (row ∷ rows) = do
  variants ← training_variants row policy
  rest ← augment_each policy rows
  ok (map (augmented row) variants ++ rest)

unfoldable pub some_records : List Record → Bool
some_records [] = false
some_records (row ∷ rows) = true

unfoldable pub augment_training_records : List Record → Text → Result (List Augmented)
unfolding augment_each distinct some_records
augment_training_records rows policy = do
  require (some_records rows && distinct (map (λ (row : Record). row.id) rows))
      (value_error "augmentation requires nonempty records with unique source IDs")
  augment_each policy rows

-- A case is its id with `bool(case[arm]["exact_response"])`.
abbrev pub Outcome : Type 0
Outcome = Text × Bool

-- `result[id]`
unfoldable pub outcome_of : Text → List Outcome → Option Bool
outcome_of id [] = none
outcome_of id ((id', exact) ∷ rest) =
    let later = outcome_of id rest in if text_eq id' id then some exact else later

unfoldable pub outcomes : List Outcome → Result (List Outcome)
unfolding distinct
outcomes cases =
    if distinct (map (λ (c : Outcome). c.0) cases)
    then ok cases
    else err (value_error "duplicate case IDs in paired comparison")

pub record Paired : Type 0 where
  pub retained_exact : ℕ
  pub lost_exact : ℕ
  pub gained_exact : ℕ
  pub neither_exact : ℕ

-- `sum(test(before[k], after[k]) for k in before)`
unfoldable pub count_pairs : (Bool → Bool → Bool) → List Outcome → List Outcome → Result ℕ
unfolding outcome_of
count_pairs test [] after = ok 0
count_pairs test ((id, exact) ∷ rest) after = elim (outcome_of id after) [
  | none ↦ err (other_exception "KeyError")
  | some exact' ↦ (do n ← count_pairs test rest after; ok (if test exact exact' then n + 1 else n))
]

-- The keys of two dicts.
unfoldable pub same_ids : List Outcome → List Outcome → Bool
same_ids before after =
    length before == length after
    && all (λ (c : Outcome). any (λ (d : Outcome). text_eq c.0 d.0) after) before

unfoldable pub paired_outcomes : List Outcome → List Outcome → Result Paired
unfolding outcomes count_pairs same_ids
paired_outcomes original changed = do
  before ← outcomes original
  after ← outcomes changed
  require (same_ids before after) (value_error "paired case IDs differ")
  retained ← count_pairs (λ a b. a && b) before after
  lost ← count_pairs (λ a b. a && not b) before after
  gained ← count_pairs (λ a b. not a && b) before after
  neither ← count_pairs (λ a b. not a && not b) before after
  ok (record {
    retained_exact = retained;
    lost_exact = lost;
    gained_exact = gained;
    neither_exact = neither;
  })
