-- ===== src/Training/Exposure.antt =====
-- The traces of the two pilots: `audit_trace` of scripts/namespace_retention.py and of
-- scripts/protected_sequential.py, with the schedule of Training/Namespace. The JSON parser, the hash
-- and the floats are parameters.
pub mod Laws
use npp_ai.Prelude.{
  ℕ, ◌+◌, Bool, true, false, not, ◌&&◌, ◌||◌, Option, none, some, List, [], ◌∷◌, length, all, any,
  ◌==◌, if◌then◌else◌,
}
use Prim.Native.String.{String}
use npp_ai.Text.{Text, Bytes, codes, text_eq}
use npp_ai.Text.Hex.{hexdigest}
use npp_ai.Python.Exceptions.{Result, ok, err, value_error, other_exception, require, ◌>>=◌, ◌>>◌}
use npp_ai.Training.Namespace.{Selection, pilot_steps}
use npp_ai.Training.Trace.{Losses, component, present, component_names, is_digest}

-- What the source does with the part of the teacher: `v < -1e-5`, `v == 0` and `0.5 * v`.
pub record Teaching (L : Losses) : Type 0 where
  pub is_low : L.Float → Bool
  pub is_zero : L.Float → Bool
  pub half : L.Float → L.Float

abbrev pub teacher_kl : Text
teacher_kl = codes "teacher_kl"

module _ (L : Losses) where
  -- A line of a trace: the first has no batch and no losses, and each script has its own of
  -- `teacher` and `base`.
  pub record ExposureRow : Type 0 where
    pub step : ℕ
    pub parameters : Text
    pub teacher : Option Text
    pub base : Option Text
    pub batch_sha256 : Option Text
    pub losses : Option (List (Text × L.Float))
    pub loss : Option L.Float

  -- `[r['step'] for r in rows] == list(range(…))`, from `step`.
  unfoldable pub steps_up : ℕ → List ExposureRow → Bool
  steps_up step [] = true
  steps_up step (row ∷ rows) = row.step == step && steps_up (step + 1) rows

  -- `set(parts) == {…}`, for a dict.
  unfoldable pub has_names : List Text → List (Text × L.Float) → Bool
  has_names names parts =
      length parts == length names
      && all (λ name. any (λ (c : Text × L.Float). text_eq c.0 name) parts) names

  -- `parts['response_nll'] + parts['pointer_nll'] + 0.1 * parts['gate_bce']`
  unfoldable pub three_parts : List (Text × L.Float) → Result L.Float
  unfolding component
  three_parts parts = do
    response ← component L (codes "response_nll") parts
    pointer ← component L (codes "pointer_nll") parts
    gate ← component L (codes "gate_bce") parts
    ok (L.add (L.add response pointer) (L.tenth gate))

  unfoldable pub check_total : String → ExposureRow → L.Float → Result (Unit {0})
  unfolding present
  check_total refusal row expected = do
    loss ← present L row.loss
    require (L.is_finite loss && L.is_close loss expected) (value_error refusal)

  -- The parts of a row of protected_sequential.py.
  unfoldable pub check_protected : ExposureRow → Result (Unit {0})
  unfolding three_parts check_total has_names
  check_protected row = do
    parts ← present L row.losses
    require
        (has_names (component_names L) parts
          && all (λ (c : Text × L.Float). L.is_finite c.1 && not (L.is_negative c.1)) parts)
        (value_error "protected loss components differ")
    expected ← three_parts parts
    check_total "protected loss total differs" row expected

  module _ (teaching : Teaching L) where
    abbrev pub namespace_names : List Text
    namespace_names =
        codes "response_nll" ∷ codes "pointer_nll" ∷ codes "gate_bce" ∷ teacher_kl ∷ []

    -- `math.isfinite(value)` and the bound of its key.
    unfoldable pub in_bounds : Text × L.Float → Bool
    in_bounds (key, value) =
        L.is_finite value
        && not (if text_eq key teacher_kl then teaching.is_low value else L.is_negative value)

    -- The parts of a row of namespace_retention.py, for an arm with a teacher or without.
    unfoldable pub check_namespace : Bool → ExposureRow → Result (Unit {0})
    unfolding three_parts check_total has_names in_bounds
    check_namespace retained row = do
      parts ← present L row.losses
      require (has_names namespace_names parts && all in_bounds parts)
          (value_error "namespace trace components differ")
      kl ← component L teacher_kl parts
      require (retained || teaching.is_zero kl) (value_error "unexpected teacher contribution")
      expected ← three_parts parts
      check_total "namespace trace total loss differs" row (L.add expected (teaching.half kl))

  module _ (sha256 : Bytes → Bytes) (encoded : Selection → Bytes) where
    -- The loop over `zip(schedule(…), rows[1:])`.
    unfoldable pub audit_exposures :
        String
        → (ExposureRow → Result (Unit {0}))
        → List Selection
        → List ExposureRow
        → Result (Unit {0})
    unfolding present
    audit_exposures refusal check [] rows = ok tt
    audit_exposures refusal check (selected ∷ selections) [] = ok tt
    audit_exposures refusal check (selected ∷ selections) (row ∷ rows) = do
      batch ← present L row.batch_sha256
      require (text_eq batch (hexdigest (sha256 (encoded selected)))) (value_error refusal)
      check row
      audit_exposures refusal check selections rows

    -- `rows[0]`, and `rows[1:]`
    abbrev pub first_row : List ExposureRow → Result ExposureRow
    first_row [] = err (other_exception "IndexError")
    first_row (row ∷ rows) = ok row

    abbrev pub later_rows : List ExposureRow → List ExposureRow
    later_rows [] = []
    later_rows (row ∷ rows) = rows

    abbrev pub has_text : Option Text → Text → Bool
    has_text none t = false
    has_text (some s) t = text_eq s t

    -- `audit_trace` of protected_sequential.py, with the digest and the base of `identity`, and the
    -- schedule of the arm "diverse". A row that lacks its `base` is the KeyError of the source as a
    -- ValueError.
    unfoldable pub protected_trace :
        (Bytes → Result (List ExposureRow))
        → Result (List Selection)
        → Bytes
        → Text
        → Text
        → Result (List ExposureRow)
    unfolding audit_exposures steps_up check_protected is_digest
    protected_trace parse schedule raw trace_sha256 base_state = do
      require (text_eq (hexdigest (sha256 raw)) trace_sha256)
          (value_error "protected trace hash differs")
      rows ← parse raw
      require (length rows == pilot_steps + 1 && steps_up 0 rows)
          (value_error "protected trace steps differ")
      require
          (all (λ (row : ExposureRow). has_text row.base base_state && is_digest row.parameters)
            rows)
          (value_error "protected frozen base differs")
      selections ← schedule
      audit_exposures "protected training exposure differs" check_protected selections
          (later_rows rows)
      ok rows

    -- `audit_trace` of namespace_retention.py; `retained` is the arm's factor of the teacher.
    unfoldable pub namespace_trace :
        Teaching L
        → (Bytes → Result (List ExposureRow))
        → Result (List Selection)
        → Bool
        → Bytes
        → Text
        → Result (List ExposureRow)
    unfolding audit_exposures steps_up check_namespace is_digest present
    namespace_trace teaching parse schedule retained raw expected_sha256 = do
      require (text_eq (hexdigest (sha256 raw)) expected_sha256)
          (value_error "namespace trace digest differs")
      rows ← parse raw
      require (length rows == pilot_steps + 1 && steps_up 0 rows)
          (value_error "namespace trace steps differ")
      first ← first_row rows
      teacher ← present L first.teacher
      require (text_eq teacher first.parameters) (value_error "teacher initialization differs")
      require (all (λ (row : ExposureRow). is_digest row.parameters) rows)
          (value_error "namespace parameter hash differs")
      selections ← schedule
      audit_exposures "namespace trace exposure differs" (check_namespace teaching retained)
          selections (later_rows rows)
      ok rows
