-- ===== src/Training/Trace.antt =====
-- The traces of training in scripts/copy_curriculum.py: `audit_trace`. The JSON parser, the hash and
-- the floats are parameters.
pub mod Laws
use npp_ai.Prelude.{
  ℕ, zero, suc, ◌+◌, Bool, true, false, not, ◌&&◌, ◌||◌, Option, none, some, List, [], ◌∷◌, length,
  map, all, any, leb, ◌==◌, if◌then◌else◌,
}
use npp_ai.Text.{Text, Bytes, codes, text_eq}
use npp_ai.Text.Hex.{hexdigest}
use npp_ai.Python.Exceptions.{Result, ok, err, value_error, other_exception, require, ◌>>=◌, ◌>>◌}
use npp_ai.Training.Records.{Record}
use npp_ai.Training.Curriculum.{curriculum, total_steps}

-- The floats of a row.
pub record Losses : Type 1 where
  pub Float : Type 0
  pub is_finite : Float → Bool
  pub is_negative : Float → Bool
  pub add : Float → Float → Float
  -- `0.1 * v`
  pub tenth : Float → Float
  -- `math.isclose` with the tolerances of the source
  pub is_close : Float → Float → Bool

-- `[0-9a-f]`
unfoldable pub is_hex_digit : ℕ → Bool
is_hex_digit c = (leb 48 c && leb c 57) || (leb 97 c && leb c 102)

-- `re.fullmatch(r'[0-9a-f]{64}', s)`
unfoldable pub is_digest : Text → Bool
unfolding is_hex_digit
is_digest s = length s == 64 && all is_hex_digit s

module _ (L : Losses) where
  -- A line of the trace: the first has no batch, no loss and no components.
  pub record Row : Type 0 where
    pub step : ℕ
    pub parameters : Text
    pub batch_sha256 : Option Text
    pub losses : Option (List (Text × L.Float))
    pub loss : Option L.Float

  -- `row[key]`
  unfoldable pub present {ℓ} : {A : Type ℓ} → Option A → Result A
  present none = err (other_exception "KeyError")
  present (some a) = ok a

  -- `components[key]`
  unfoldable pub component : Text → List (Text × L.Float) → Result L.Float
  component key [] = err (other_exception "KeyError")
  component key ((name, v) ∷ rest) =
      let later = component key rest in if text_eq name key then ok v else later

  abbrev pub component_names : List Text
  component_names = codes "response_nll" ∷ codes "pointer_nll" ∷ codes "gate_bce" ∷ []

  -- `set(components) != {…}`, for a dict.
  unfoldable pub has_components : List (Text × L.Float) → Bool
  has_components components =
      length components == 3
      && all (λ name. any (λ (c : Text × L.Float). text_eq c.0 name) components) component_names

  -- The total that the components give.
  unfoldable pub expected_loss : Text → List (Text × L.Float) → Result L.Float
  unfolding component
  expected_loss arm components = do
    response ← component (codes "response_nll") components
    pointer ← component (codes "pointer_nll") components
    gate ← component (codes "gate_bce") components
    ok (if text_eq arm curriculum then L.add response (L.add pointer (L.tenth gate)) else response)

  module _ (sha256 : Bytes → Bytes) (encoded : List Record → Bytes) (arm : Text) where
    unfoldable pub audit_row : List Record → Row → Result (Unit {0})
    unfolding present has_components expected_loss
    audit_row records row = do
      batch ← present row.batch_sha256
      require (text_eq batch (hexdigest (sha256 (encoded records))))
          (value_error "curriculum trace batch differs")
      components ← present row.losses
      require
          (has_components components
            && all (λ (c : Text × L.Float). L.is_finite c.1 && not (L.is_negative c.1)) components)
          (value_error "curriculum trace loss components differ")
      loss ← present row.loss
      expected ← expected_loss arm components
      require (L.is_finite loss && L.is_close loss expected)
          (value_error "curriculum trace total loss differs")

    -- The loop over `zip(schedule(dataset, arm), rows[1:])`.
    unfoldable pub audit_rows : List (List Record) → List Row → Result (Unit {0})
    unfolding audit_row
    audit_rows [] rows = ok tt
    audit_rows (records ∷ batches) [] = ok tt
    audit_rows (records ∷ batches) (row ∷ rows) = do audit_row records row; audit_rows batches rows

    -- `[row['step'] for row in rows] != list(range(…))`, from `step`.
    unfoldable pub counts_up : ℕ → List Row → Bool
    counts_up step [] = true
    counts_up step (row ∷ rows) = row.step == step && counts_up (step + 1) rows

    abbrev pub behind_first : List Row → List Row
    behind_first [] = []
    behind_first (row ∷ rows) = rows

    -- With the lines parsed by `parse`. The schedule is drawn before the rows are compared, where the
    -- source draws each batch with its row: an exception of either ends the audit.
    unfoldable pub audit_trace :
        (Bytes → Result (List Row)) → Result (List (List Record)) → Bytes → Text → Result (List Row)
    unfolding audit_rows counts_up is_digest
    audit_trace parse schedule raw expected_sha256 = do
      require (text_eq (hexdigest (sha256 raw)) expected_sha256)
          (value_error "curriculum trace digest differs")
      rows ← parse raw
      require (length rows == total_steps + 1 && counts_up 0 rows)
          (value_error "curriculum trace steps differ")
      require (all (λ (row : Row). is_digest row.parameters) rows)
          (value_error "curriculum trace parameter hash differs")
      batches ← schedule
      audit_rows batches (behind_first rows)
      ok rows
