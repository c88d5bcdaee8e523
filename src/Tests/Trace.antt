-- ===== src/Tests/Trace.antt =====
-- A trace of 1025 rows, whose first batch is one of the schedule.
use npp_ai.Prelude.{ℕ, zero, suc, ◌+◌, ◌≡◌, refl, true, false, some, List, [], ◌∷◌, replicate}
use npp_ai.Text.{Bytes, codes, text_eq}
use npp_ai.Text.Hex.{hexdigest}
use npp_ai.Python.Exceptions.{Result, ok}
use npp_ai.Training.Records.{Record}
use npp_ai.Training.Trace.{Losses, Row, audit_trace, behind_first}

abbrev zero_losses : Losses
zero_losses = record {
  Float = ℕ;
  is_finite = λ v. true;
  is_negative = λ v. false;
  add = λ a b. a + b;
  tenth = λ v. v;
  is_close = λ a b. true;
}

abbrev no_hash : Bytes → Bytes
no_hash b = []

abbrev encoded_as_nothing : List Record → Bytes
encoded_as_nothing records = []

abbrev rows_from : ℕ → ℕ → List (Row zero_losses)
rows_from zero step = []
rows_from (suc n) step =
    (record {
      step = step;
      parameters = replicate 64 48;
      batch_sha256 = some [];
      losses =
          some ((codes "response_nll", 0) ∷ (codes "pointer_nll", 0) ∷ (codes "gate_bce", 0) ∷ []);
      loss = some 0;
    })
    ∷ rows_from n (step + 1)

abbrev parse_rows : Bytes → Result (List (Row zero_losses))
parse_rows raw = ok (rows_from 1025 0)

audited_rows :
    audit_trace zero_losses no_hash encoded_as_nothing
      (codes "control")
      parse_rows
      (ok ([] ∷ []))
      []
      []
    ≡ ok (rows_from 1025 0)
unfolding audit_trace npp_ai.Training.Trace.audit_rows npp_ai.Training.Trace.audit_row
    npp_ai.Training.Trace.counts_up npp_ai.Training.Trace.is_digest
    npp_ai.Training.Trace.is_hex_digit npp_ai.Training.Trace.present
    npp_ai.Training.Trace.has_components npp_ai.Training.Trace.expected_loss
    npp_ai.Training.Trace.component text_eq hexdigest
audited_rows = refl
