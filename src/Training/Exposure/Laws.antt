-- ===== src/Training/Exposure/Laws.antt =====
-- What an audit of a trace in Training/Exposure has compared.
use npp_ai.Prelude.{
  ℕ, ◌+◌, ◌≡◌, sym, ap, subst, ◌∙◌, true, ◌&&◌, both, Option, none, some, List, [], ◌∷◌, length,
  all, ◌==◌, ==_iff, Each, arith,
}
use Prim.Native.String.{String}
use npp_ai.Text.{Text, Bytes, codes, text_eq}
use npp_ai.Text.Laws.{eq_of_text_eq}
use npp_ai.Text.Hex.{hexdigest}
use npp_ai.Python.Exceptions.{Result, ok, ok_inj, value_error, require, >>=-eq-ok, require-eq-ok}
use npp_ai.Training.Records.{Record, Lexer}
use npp_ai.Training.Schedule.{Random}
use npp_ai.Training.Schedule.Laws.{IsRandom}
use npp_ai.Training.Namespace.{Selection, pilot_steps, namespace_schedule}
use npp_ai.Training.Namespace.Laws.{namespace_schedule-TakesTurns}
use npp_ai.Training.Trace.{Losses, present, is_digest}
use npp_ai.Training.Exposure.{
  ExposureRow, steps_up, check_protected, audit_exposures, later_rows, has_text, protected_trace,
}

module _ (L : Losses) (sha256 : Bytes → Bytes) (encoded : Selection → Bytes) where
  -- A row for each selection, with its hash.
  abbrev pub Exposed : List Selection → List (ExposureRow L) → Type 0
  Exposed [] [] = Unit {0}
  Exposed [] (row ∷ rows) = ⊥
  Exposed (selected ∷ selections) [] = ⊥
  Exposed (selected ∷ selections) (row ∷ rows) =
      (row.batch_sha256 ≡ some (hexdigest (sha256 (encoded selected)))) × Exposed selections rows

  present-some : {A : Type 0} (o : Option A) (a : A) → present L o ≡ ok a → o ≡ some a
  unfolding present
  present-some none a h = absurd (cc h)
  present-some (some b) a h = ap some (ok_inj b a h)

  audit_exposures-Exposed :
      (refusal : String) (check : ExposureRow L → Result (Unit {0})) (selections : List Selection)
      (rows : List (ExposureRow L)) (u : Unit {0})
      → length selections ≡ length rows
      → audit_exposures L sha256 encoded refusal check selections rows ≡ ok u
      → Exposed selections rows
  unfolding audit_exposures
  audit_exposures-Exposed refusal check [] [] u n h = tt
  audit_exposures-Exposed refusal check [] (row ∷ rows) u n h = absurd (omega arith)
  audit_exposures-Exposed refusal check (selected ∷ selections) [] u n h = absurd (omega arith)
  audit_exposures-Exposed refusal check (selected ∷ selections) (row ∷ rows) u n h =
      let (batch, given, h1) = >>=-eq-ok (present L row.batch_sha256) _ h in
      let digest = hexdigest (sha256 (encoded selected)) in
      let (u1, compared, h2) =
        >>=-eq-ok (require (text_eq batch digest) (value_error refusal)) _ h1 in
      let (u2, _, h3) = >>=-eq-ok (check row) _ h2 in
      (
        present-some row.batch_sha256 batch given
            ∙ ap some (eq_of_text_eq batch digest (require-eq-ok _ _ compared)),
        audit_exposures-Exposed refusal check selections rows u (omega arith) h3,
      )

  length-later_rows :
      (rows : List (ExposureRow L)) (n : ℕ)
      → length rows ≡ n + 1
      → length (later_rows L sha256 encoded rows) ≡ n
  length-later_rows [] n h = absurd (omega arith)
  length-later_rows (row ∷ rows) n h = omega arith

  has_text-some : (o : Option Text) (t : Text) → has_text L sha256 encoded o t ≡ true → o ≡ some t
  has_text-some none t h = absurd (cc h)
  has_text-some (some s) t h = ap some (eq_of_text_eq s t h)

  frozen_rows :
      (base_state : Text) (rows : List (ExposureRow L))
      → all
          (λ (row : ExposureRow L).
            has_text L sha256 encoded row.base base_state && is_digest row.parameters)
          rows
        ≡ true
      → Each (λ (row : ExposureRow L). row.base ≡ some base_state) rows
  frozen_rows base_state [] h = tt
  frozen_rows base_state (row ∷ rows) h =
      let (here, later) =
        both (has_text L sha256 encoded row.base base_state && is_digest row.parameters)
          (all
            (λ (r : ExposureRow L).
              has_text L sha256 encoded r.base base_state && is_digest r.parameters)
            rows)
          h in
      let (base, _) = both _ (is_digest row.parameters) here in
      (has_text-some row.base base_state base, frozen_rows base_state rows later)

  -- With a generator that samples and shuffles as documented: an audit of a trace of the protected
  -- pilot that passes, against the schedule of the arm "diverse", returns the 513 rows that the bytes,
  -- of the expected digest, are parsed to, all with the expected base; and behind the first there is, for each of the
  -- batches of the schedule in turn, one row, with the hash of that batch.
  pub protected_trace-Exposed :
      (lexer : Lexer) (random : Random) (records : List Record)
      → IsRandom random
      → (parse : Bytes → Result (List (ExposureRow L))) (raw : Bytes)
        (trace_sha256 base_state : Text)
      → (rows : List (ExposureRow L))
      → protected_trace L sha256 encoded parse
          (namespace_schedule sha256 lexer random records (codes "diverse"))
          raw
          trace_sha256
          base_state
        ≡ ok rows
      → (hexdigest (sha256 raw) ≡ trace_sha256)
        × (parse raw ≡ ok rows)
        × (length rows ≡ pilot_steps + 1)
        × Each (λ (row : ExposureRow L). row.base ≡ some base_state) rows
        × ((selections : List Selection) × (namespace_schedule sha256 lexer random records
                (codes "diverse")
              ≡ ok selections)
            × Exposed selections (later_rows L sha256 encoded rows))
  unfolding protected_trace
  protected_trace-Exposed lexer random records fair parse raw trace_sha256 base_state rows h =
      let schedule = namespace_schedule sha256 lexer random records (codes "diverse") in
      let (u1, p1, h1) =
        >>=-eq-ok
          (require (text_eq (hexdigest (sha256 raw)) trace_sha256)
            (value_error "protected trace hash differs"))
          _ h in
      let (rows', parsed, h2) = >>=-eq-ok (parse raw) _ h1 in
      let (u2, p2, h3) =
        >>=-eq-ok
          (require (length rows' == pilot_steps + 1 && steps_up L 0 rows')
            (value_error "protected trace steps differ"))
          _ h2 in
      let (u3, p3, h4) =
        >>=-eq-ok
          (require
            (all
              (λ (row : ExposureRow L).
                has_text L sha256 encoded row.base base_state && is_digest row.parameters)
              rows')
            (value_error "protected frozen base differs"))
          _ h3 in
      let (selections, drawn, h5) = >>=-eq-ok schedule _ h4 in
      let (u4, audited, made) =
        >>=-eq-ok
          (audit_exposures L sha256 encoded "protected training exposure differs"
            (check_protected L) selections (later_rows L sha256 encoded rows'))
          _ h5 in
      let same = ok_inj rows' rows made in
      let (size, _) = both _ _ (require-eq-ok _ _ p2) in
      let size' = (==_iff (length rows') (pilot_steps + 1)).0 size in
      let (n, _) =
        namespace_schedule-TakesTurns sha256 lexer random records fair (codes "diverse") selections
          drawn in
      let whole : length selections ≡ length (later_rows L sha256 encoded rows') =
        n ∙ sym (length-later_rows rows' pilot_steps size') in
      (
        eq_of_text_eq (hexdigest (sha256 raw)) trace_sha256 (require-eq-ok _ _ p1),
        parsed ∙ ap ok same,
        subst (λ r. length r ≡ pilot_steps + 1) same size',
        subst (Each (λ (row : ExposureRow L). row.base ≡ some base_state)) same
            (frozen_rows base_state rows' (require-eq-ok _ _ p3)),
        (
          selections,
          drawn,
          subst (λ r. Exposed selections (later_rows L sha256 encoded r)) same
              (audit_exposures-Exposed "protected training exposure differs" (check_protected L)
                selections (later_rows L sha256 encoded rows') u4 whole audited),
        ),
      )
