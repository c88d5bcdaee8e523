-- ===== src/Training/Score.antt =====
-- How an output is measured: `score`, `summary` and `retention` of
-- scripts/resampled_name_training.py, `audit_groups` of scripts/portable_quality.py and
-- `paired_outcomes` of scripts/prompt_robustness.py. Python's parser is a parameter.
pub mod Laws
pub mod Audit
use npp_ai.Prelude.{
  ℕ, zero, suc, ◌+◌, Bool, true, false, not, ◌&&◌, ◌||◌, Option, none, some, List, [], ◌∷◌, ◌++◌,
  length, map, all, any, ◌==◌, if◌then◌else◌,
}
use npp_ai.Text.{Text, text_eq}
use npp_ai.Python.Exceptions.{
  Exception, Result, ok, err, value_error, other_exception, require, ◌>>=◌, ◌>>◌,
}
use npp_ai.Decoding.Structure.{Statement, function_def, import_statement, other}
use npp_ai.Training.Records.{Record}

-- `ast.parse` of a module: its statements and `ast.dump` of the whole; or an exception, which is a
-- SyntaxError or a ValueError, or another.
pub data Source : Type 0 where
  module_of : List Statement → Text → Source
  refused : Exception → Source
  failed : Exception → Source

pub record Metrics : Type 0 where
  pub syntax_function : Bool
  pub requested_name : Bool
  pub requested_signature : Bool
  pub reference_ast : Bool
  pub exact_response : Bool

-- `dict.fromkeys(METRICS, False)` with `exact_response`.
abbrev pub only_exact : Bool → Metrics
only_exact exact = record {
  syntax_function = false;
  requested_name = false;
  requested_signature = false;
  reference_ast = false;
  exact_response = exact;
}

-- The tests of one function against the first statement of the reference. The references begin with
-- functions; another statement is taken to have no name.
unfoldable pub compare_function : Bool → Text → Text → Text → List Statement → Text → Result Metrics
compare_function exact name args dump [] expected_dump = err (other_exception "IndexError")
compare_function exact name args dump (function_def name' args' body ∷ rest) expected_dump =
    ok (record {
      syntax_function = true;
      requested_name = text_eq name name';
      requested_signature = text_eq name name' && text_eq args args';
      reference_ast = text_eq dump expected_dump;
      exact_response = exact;
    })
compare_function exact name args dump (_ ∷ rest) expected_dump =
    err (other_exception "AttributeError")

unfoldable pub compare_source : Bool → Source → List Statement → Text → Result Metrics
unfolding compare_function
compare_source exact (refused e) expected expected_dump = ok (only_exact exact)
compare_source exact (failed e) expected expected_dump = err e
compare_source exact (module_of (function_def name args body ∷ []) dump) expected expected_dump =
    compare_function exact name args dump expected expected_dump
compare_source exact (module_of _ dump) expected expected_dump = ok (only_exact exact)

module _ (parse : Text → Source) where
  unfoldable pub score : Record → Text → Result Metrics
  unfolding compare_source
  score row source = elim (parse row.answer) [
    | refused e ↦ err e
    | failed e ↦ err e
    | module_of expected dump ↦
        compare_source (text_eq source row.answer) (parse source) expected dump
  ]

pub record Case : Type 0 where
  pub id : Text
  pub index : ℕ
  pub output : Text
  pub metrics : Metrics

-- `sum(c['metrics'][k] for c in cases)`, for one metric.
unfoldable pub total : (Metrics → Bool) → List Case → ℕ
total metric [] = 0
total metric (c ∷ cases) = if metric c.metrics then total metric cases + 1 else total metric cases

-- `sum(test(a['metrics'][metric], b['metrics'][metric]) for a, b in zip(prior, after))`
unfoldable pub paired : (Bool → Bool → Bool) → (Metrics → Bool) → List Case → List Case → ℕ
paired test metric [] after = 0
paired test metric (a ∷ prior) [] = 0
paired test metric (a ∷ prior) (b ∷ after) =
    if test (metric a.metrics) (metric b.metrics)
    then paired test metric prior after + 1
    else paired test metric prior after

abbrev pub kept : Bool → Bool → Bool
kept a b = a && b

abbrev pub dropped : Bool → Bool → Bool
dropped a b = a && not b

abbrev pub won : Bool → Bool → Bool
won a b = not a && b

-- One metric of one group.
pub record Retention : Type 0 where
  pub retained : ℕ
  pub lost : ℕ
  pub gained : ℕ

unfoldable pub retention : (Metrics → Bool) → List Case → List Case → Retention
unfolding paired
retention metric prior after = record {
  retained = paired kept metric prior after;
  lost = paired dropped metric prior after;
  gained = paired won metric prior after;
}

unfoldable pub same_bit : Bool → Bool → Bool
same_bit true b = b
same_bit false b = not b

unfoldable pub same_metrics : Metrics → Metrics → Bool
unfolding same_bit
same_metrics m m' =
    same_bit m.syntax_function m'.syntax_function
    && same_bit m.requested_name m'.requested_name
    && same_bit m.requested_signature m'.requested_signature
    && same_bit m.reference_ast m'.reference_ast
    && same_bit m.exact_response m'.exact_response

-- The keys of two dicts, each without a repetition.
unfoldable pub same_keys : List Text → List Text → Bool
same_keys keys keys' = length keys == length keys' && all (λ k. any (text_eq k) keys') keys

module _ (parse : Text → Source) where
  -- The loop over `enumerate(zip(rows, cases))`, from `index`.
  unfoldable pub audit_cases : ℕ → List Record → List Case → Result (Unit {0})
  unfolding same_metrics
  audit_cases index [] cases = ok tt
  audit_cases index (row ∷ rows) [] = ok tt
  audit_cases index (row ∷ rows) (c ∷ cases) = do
    require (text_eq c.id row.id && c.index == index) (value_error "raw evaluation score differs")
    m ← score parse row c.output
    require (same_metrics c.metrics m) (value_error "raw evaluation score differs")
    audit_cases (index + 1) rows cases

  -- `results[group]`
  unfoldable pub result_of : Text → List (Text × List Case) → Option (List Case)
  result_of group [] = none
  result_of group ((name, cases) ∷ rest) =
      let later = result_of group rest in if text_eq name group then some cases else later

  unfoldable pub audit_each :
      List (Text × List Case) → List (Text × List Record) → Result (Unit {0})
  unfolding audit_cases result_of
  audit_each results [] = ok tt
  audit_each results ((group, rows) ∷ groups) = elim (result_of group results) [
    | none ↦ err (other_exception "KeyError")
    | some cases ↦ (do
      require (length cases == length rows) (value_error "evaluation case count differs")
      audit_cases 0 rows cases
      audit_each results groups)
  ]

  -- The audit before the summaries are made.
  unfoldable pub audit_groups :
      List (Text × List Case) → List (Text × List Record) → Result (Unit {0})
  unfolding audit_each same_keys
  audit_groups results groups = do
    require
        (same_keys (map (λ (r : Text × List Case). r.0) results)
          (map (λ (g : Text × List Record). g.0) groups))
        (value_error "evaluation group set differs")
    audit_each results groups
