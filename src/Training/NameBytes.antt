-- ===== src/Training/NameBytes.antt =====
-- The name-byte metrics of scripts/diagnose_name_bytes.py: `plan`, `metrics` and the decoding in
-- `infer`. A probability is a float, whose sums are parameters.
pub mod Laws
use npp_ai.Prelude.{
  ℕ, zero, suc, ◌+◌, ◌-◌, ◌≤◌, Bool, true, false, not, ◌&&◌, ◌||◌, List, [], ◌∷◌, ◌++◌, length,
  take, drop, all, any, ltb, ◌==◌, if◌then◌else◌,
}
use npp_ai.Text.{Text, Bytes, codes, text_eq, nonempty, starts_with}
use npp_ai.Text.Utf8.{encode}
use npp_ai.Python.Exceptions.{Result, ok, err, value_error, require, ◌>>=◌, ◌>>◌}
use npp_ai.Training.Records.{Record}

-- `needle in text`
unfoldable pub within : Text → Text → Bool
within needle [] = text_eq needle []
within needle (c ∷ s) = let rest = within needle s in starts_with (c ∷ s) needle || rest

abbrev pub larger : ℕ → ℕ → ℕ
larger a b = if ltb a b then b else a

abbrev pub smaller : ℕ → ℕ → ℕ
smaller a b = if ltb a b then a else b

-- `prefix, target`
unfoldable pub plan_name : Record → Result (Bytes × Bytes)
unfolding within
plan_name row = do
  require (within row.function row.prompt) (value_error "name absent from prompt")
  let prefix =
      encode (codes "[USER]: " ++ (row.prompt ++ (10 ∷ codes "[AI]:" ++ (10 ∷ codes "def "))))
  let target = encode row.function
  require
      (not (
        not (nonempty target)
        || ltb 256 (length prefix + larger 32 (length target))
        || any (λ b. b == 0) (prefix ++ target)))
      (value_error "invalid name/context")
  ok (prefix, target)

-- The floats of the metrics.
pub record Probabilities : Type 1 where
  pub Float : Type 0
  -- finite and within 0 and 1
  pub is_probability : Float → Bool
  pub sum : List Float → Float
  -- the sum of `-math.log(max(p, 1e-30))`
  pub nll_sum : List Float → Float

-- `[a == b for a, b in zip(target, predictions)]`
unfoldable pub correct_of : Bytes → Bytes → List Bool
correct_of [] predictions = []
correct_of (a ∷ target) [] = []
correct_of (a ∷ target) (b ∷ predictions) = (a == b) ∷ correct_of target predictions

-- `sum(correct)`
unfoldable pub count_true : List Bool → ℕ
count_true [] = 0
count_true (b ∷ bs) = if b then count_true bs + 1 else count_true bs

-- `int(b)`
abbrev pub bit : Bool → ℕ
bit b = if b then 1 else 0

abbrev pub itself : Bool → Bool
itself b = b

module _ (P : Probabilities) where
  pub record NameMetrics : Type 0 where
    pub name_bytes : ℕ
    pub correct_bytes : ℕ
    pub namespace_bytes : ℕ
    pub namespace_correct : ℕ
    pub suffix_bytes : ℕ
    pub suffix_correct : ℕ
    pub all_name_bytes_correct : ℕ
    pub target_probability_sum : P.Float
    pub nll_sum : P.Float
    pub scaffolded_exact_name : ℕ

  unfoldable pub metrics : Bytes → Bytes → List P.Float → Bytes → Result NameMetrics
  unfolding correct_of count_true
  metrics target predictions probabilities greedy = do
    require (length predictions == length target && length probabilities == length target)
        (value_error "name-byte count differs")
    require (all (λ v. ltb v 256) (predictions ++ greedy) && not (ltb 32 (length greedy)))
        (value_error "invalid byte prediction")
    require (all P.is_probability probabilities) (value_error "invalid probability")
    let correct = correct_of target predictions
    ok (record {
      name_bytes = length target;
      correct_bytes = count_true correct;
      namespace_bytes = smaller 3 (length target);
      namespace_correct = count_true (take 3 correct);
      suffix_bytes = length target - 3;
      suffix_correct = count_true (drop 3 correct);
      all_name_bytes_correct = bit (all itself correct);
      target_probability_sum = P.sum probabilities;
      nll_sum = P.nll_sum probabilities;
      scaffolded_exact_name = bit (text_eq greedy (target ++ (40 ∷ [])));
    })

-- The decoding in `infer`: at most 32 tokens, up to the first that ends a name.
module _ (largest : List ℕ → ℕ) where
  unfoldable pub decode_name : ℕ → Bytes → Bytes → Bytes
  decode_name zero prefix generated = generated
  decode_name (suc rounds) prefix generated =
      let token = largest (prefix ++ generated) in
      elim (token == 0 || token == 10 || token == 40) [
        | true ↦ generated ++ (token ∷ [])
        | false ↦ decode_name rounds prefix (generated ++ (token ∷ []))
      ]
