-- ===== src/Tests/Exposure.antt =====
-- A trace of 513 rows over the schedule of Tests/Namespace.
use npp_ai.Prelude.{
  ℕ, zero, suc, ◌+◌, ◌≡◌, refl, true, false, none, some, List, [], ◌∷◌, replicate, length, Each,
}
use npp_ai.Text.{Bytes, codes, text_eq}
use npp_ai.Text.Hex.{hexdigest}
use npp_ai.Python.Exceptions.{Result, ok}
use npp_ai.Training.Namespace.{Selection, pilot_steps, namespace_schedule}
use npp_ai.Training.Trace.{Losses}
use npp_ai.Training.Exposure.{ExposureRow, later_rows, protected_trace}
use npp_ai.Training.Exposure.Laws.{Exposed, protected_trace-Exposed}
use npp_ai.Tests.Namespace.{
  row_g, always, lexer_g, no_digest, selections_g, drawn_g, always-IsRandom,
}

abbrev flat_losses : Losses
flat_losses = record {
  Float = ℕ;
  is_finite = λ v. true;
  is_negative = λ v. false;
  add = λ a b. a + b;
  tenth = λ v. v;
  is_close = λ a b. true;
}

abbrev no_content : Selection → Bytes
no_content selected = []

abbrev exposures_from : ℕ → ℕ → List (ExposureRow flat_losses)
exposures_from zero step = []
exposures_from (suc n) step =
    (record {
      step = step;
      parameters = replicate 64 48;
      teacher = none;
      base = some (codes "b");
      batch_sha256 = some [];
      losses =
          some ((codes "response_nll", 0) ∷ (codes "pointer_nll", 0) ∷ (codes "gate_bce", 0) ∷ []);
      loss = some 0;
    })
    ∷ exposures_from n (step + 1)

abbrev parse_exposures : Bytes → Result (List (ExposureRow flat_losses))
parse_exposures raw = ok (exposures_from 513 0)

audited_over :
    protected_trace flat_losses no_digest no_content parse_exposures
      (ok (selections_g 512 0))
      []
      []
      (codes "b")
    ≡ ok (exposures_from 513 0)
unfolding protected_trace npp_ai.Training.Exposure.audit_exposures npp_ai.Training.Exposure.steps_up
    npp_ai.Training.Exposure.check_protected npp_ai.Training.Exposure.three_parts
    npp_ai.Training.Exposure.check_total npp_ai.Training.Exposure.has_names
    npp_ai.Training.Trace.component npp_ai.Training.Trace.present npp_ai.Training.Trace.is_digest
    npp_ai.Training.Trace.is_hex_digit text_eq hexdigest npp_ai.Training.Namespace.prefix_of
audited_over = refl

audited_exposures :
    protected_trace flat_losses no_digest no_content parse_exposures
      (namespace_schedule no_digest lexer_g always (row_g ∷ []) (codes "diverse"))
      []
      []
      (codes "b")
    ≡ ok (exposures_from 513 0)
audited_exposures = rw drawn_g audited_over

protected_trace-Exposed_example :
    (hexdigest [] ≡ [])
    × (parse_exposures [] ≡ ok (exposures_from 513 0))
    × (length (exposures_from 513 0) ≡ pilot_steps + 1)
    × Each (λ (row : ExposureRow flat_losses). row.base ≡ some (codes "b")) (exposures_from 513 0)
    × ((selections : List Selection) × (namespace_schedule no_digest lexer_g always
            (row_g ∷ [])
            (codes "diverse")
          ≡ ok selections)
        × Exposed flat_losses no_digest no_content selections
            (later_rows flat_losses no_digest no_content (exposures_from 513 0)))
protected_trace-Exposed_example =
    protected_trace-Exposed flat_losses no_digest no_content lexer_g always (row_g ∷ [])
      always-IsRandom parse_exposures [] [] (codes "b") (exposures_from 513 0) audited_exposures
