-- ===== src/Training/Trace/Laws.antt =====
-- What an audit of a trace in Training/Trace has compared.
use npp_ai.Prelude.{
  ℕ, ◌+◌, ◌≡◌, ap, subst, ◌∙◌, true, ◌&&◌, both, Option, none, some, List, [], ◌∷◌, length, all,
  ◌==◌, ==_iff,
}
use npp_ai.Text.{Text, Bytes, text_eq}
use npp_ai.Text.Laws.{eq_of_text_eq}
use npp_ai.Text.Hex.{hexdigest}
use npp_ai.Python.Exceptions.{Result, ok, ok_inj, value_error, require, >>=-eq-ok, require-eq-ok}
use npp_ai.Training.Records.{Record}
use npp_ai.Training.Curriculum.{total_steps}
use npp_ai.Training.Trace.{
  Losses, Row, is_digest, present, audit_row, audit_rows, counts_up, behind_first, audit_trace,
}

module _ (L : Losses) (sha256 : Bytes → Bytes) (encoded : List Record → Bytes) (arm : Text) where
  -- The rows count up from a step.
  abbrev pub CountsUp : ℕ → List (Row L) → Type 0
  CountsUp step [] = Unit {0}
  CountsUp step (row ∷ rows) = (row.step ≡ step) × CountsUp (step + 1) rows

  -- Each row has the hash of its batch, as far as both go.
  abbrev pub HasBatches : List (List Record) → List (Row L) → Type 0
  HasBatches [] rows = Unit {0}
  HasBatches (records ∷ batches) [] = Unit {0}
  HasBatches (records ∷ batches) (row ∷ rows) =
      (row.batch_sha256 ≡ some (hexdigest (sha256 (encoded records)))) × HasBatches batches rows

  counts_up-CountsUp :
      (step : ℕ) (rows : List (Row L))
      → counts_up L sha256 encoded arm step rows ≡ true
      → CountsUp step rows
  unfolding counts_up
  counts_up-CountsUp step [] h = tt
  counts_up-CountsUp step (row ∷ rows) h =
      let (here, later) =
        both (row.step == step) (counts_up L sha256 encoded arm (step + 1) rows) h in
      ((==_iff row.step step).0 here, counts_up-CountsUp (step + 1) rows later)

  present-some : {A : Type 0} (o : Option A) (a : A) → present L o ≡ ok a → o ≡ some a
  unfolding present
  present-some none a h = absurd (cc h)
  present-some (some b) a h = ap some (ok_inj b a h)

  audit_rows-HasBatches :
      (batches : List (List Record)) (rows : List (Row L)) (u : Unit {0})
      → audit_rows L sha256 encoded arm batches rows ≡ ok u
      → HasBatches batches rows
  unfolding audit_rows audit_row
  audit_rows-HasBatches [] rows u h = tt
  audit_rows-HasBatches (records ∷ batches) [] u h = tt
  audit_rows-HasBatches (records ∷ batches) (row ∷ rows) u h =
      let (u1, audited, h1) = >>=-eq-ok (audit_row L sha256 encoded arm records row) _ h in
      let (batch, given, h2) = >>=-eq-ok (present L row.batch_sha256) _ audited in
      let (u2, compared, h3) =
        >>=-eq-ok
          (require (text_eq batch (hexdigest (sha256 (encoded records))))
            (value_error "curriculum trace batch differs"))
          _ h2 in
      let same =
        eq_of_text_eq batch (hexdigest (sha256 (encoded records))) (require-eq-ok _ _ compared) in
      (
        present-some row.batch_sha256 batch given ∙ ap some same,
        audit_rows-HasBatches batches rows u h1,
      )

  -- An audit that passes returns the rows of the bytes with the expected digest: one more than there
  -- are steps, which count up from 0; and behind the first, each row has the hash of its batch in
  -- the schedule, as far as both go.
  pub audit_trace-HasBatches :
      (parse : Bytes → Result (List (Row L))) (schedule : Result (List (List Record))) (raw : Bytes)
      → (expected_sha256 : Text) (rows : List (Row L))
      → audit_trace L sha256 encoded arm parse schedule raw expected_sha256 ≡ ok rows
      → (hexdigest (sha256 raw) ≡ expected_sha256)
        × (parse raw ≡ ok rows)
        × (length rows ≡ total_steps + 1)
        × CountsUp 0 rows
        × ((batches : List (List Record)) × (schedule ≡ ok batches)
            × HasBatches batches (behind_first L sha256 encoded arm rows))
  unfolding audit_trace
  audit_trace-HasBatches parse schedule raw expected_sha256 rows h =
      let (u1, p1, h1) =
        >>=-eq-ok
          (require (text_eq (hexdigest (sha256 raw)) expected_sha256)
            (value_error "curriculum trace digest differs"))
          _ h in
      let (rows', parsed, h2) = >>=-eq-ok (parse raw) _ h1 in
      let (u2, p2, h3) =
        >>=-eq-ok
          (require (length rows' == total_steps + 1 && counts_up L sha256 encoded arm 0 rows')
            (value_error "curriculum trace steps differ"))
          _ h2 in
      let (u3, p3, h4) =
        >>=-eq-ok
          (require (all (λ (row : Row L). is_digest row.parameters) rows')
            (value_error "curriculum trace parameter hash differs"))
          _ h3 in
      let (batches, drawn, h5) = >>=-eq-ok schedule _ h4 in
      let (u4, audited, made) =
        >>=-eq-ok
          (audit_rows L sha256 encoded arm batches (behind_first L sha256 encoded arm rows')) _
          h5 in
      let same = ok_inj rows' rows made in
      let (size, steps) = both _ _ (require-eq-ok _ _ p2) in
      (
        eq_of_text_eq (hexdigest (sha256 raw)) expected_sha256 (require-eq-ok _ _ p1),
        parsed ∙ ap ok same,
        subst (λ r. length r ≡ total_steps + 1) same
            ((==_iff (length rows') (total_steps + 1)).0 size),
        subst (CountsUp 0) same (counts_up-CountsUp 0 rows' steps),
        (
          batches,
          drawn,
          subst (λ r. HasBatches batches (behind_first L sha256 encoded arm r)) same
              (audit_rows-HasBatches batches _ u4 audited),
        ),
      )
