-- ===== src/Training/Replay/Laws.antt =====
-- What the record of an autonomous answer in Training/Replay says of its bytes.
use npp_ai.Prelude.{
  ℕ, zero, suc, ◌+◌, ◌≤◌, ◌≡◌, refl, sym, ap, subst, ◌∙◌, ◌⊎◌, inl, inr, Bool, true, false, not,
  ◌||◌, Bool-cases, Option, none, some, List, [], ◌∷◌, ◌++◌, append-nil, append_assoc, length,
  length-append, all, any, all-append, ltb, ◌==◌, ==_iff, arith,
}
use npp_ai.Text.{Bytes}
use npp_ai.Text.Utf8.{encode}
use npp_ai.Python.Exceptions.{ok, require, >>=-eq-ok, require-eq-ok}
use npp_ai.Training.Records.{Record, frame, framed}
use npp_ai.Training.Copy.{source_bounds, mask_from}
use npp_ai.Training.Transition.{at, Plan, plan, phase, ended, budget, Readout, Parts, Point, step}
use npp_ai.Training.Replay.{
  is_expected, first_difference, source_at, Difference, Full, observed, expected_at, note,
  full_loop, full_generate, full_budget,
}
use npp_ai.Training.Replay.Differences.{
  is_data, first_difference-extend, first_difference-prefix, first_difference-behind, at-append,
  split-zero, no-zero, all-of_any, any-append,
}

abbrev pub offset_of : {R : Readout} → Option (Difference R) → Option ℕ
offset_of none = none
offset_of (some d) = some d.offset

-- The branch that was taken.
pub branches {ℓ} :
    {A : Type ℓ} (b : Bool) {x y z : A}
    → elim b [ true ↦ x | false ↦ y ] ≡ z
    → ((b ≡ true) × (x ≡ z)) ⊎ ((b ≡ false) × (y ≡ z))
branches true h = inl (refl, h)
branches false h = inr (refl, h)

-- What is known while the loop runs: the bytes up to here are the reference's, or they leave it
-- where the difference says.
abbrev pub Track : {R : Readout} → Record → Bytes → Bytes → Option (Difference R) → Type 0
Track row answer bytes none = (rest : Bytes) × (answer ≡ bytes ++ rest)
Track row answer bytes (some d) =
    (first_difference 0 bytes answer ≡ some d.offset) × (phase row d.offset ≡ ok d.phase)

module _ (R : Readout) (row : Record) (answer : Bytes) where
  Track-explains :
      (bytes : Bytes) (difference : Option (Difference R))
      → Track row answer bytes difference
      → first_difference 0 bytes answer ≡ offset_of difference
  Track-explains bytes none (rest, e) = rw e (first_difference-prefix 0 bytes rest)
  Track-explains bytes (some d) (e, f) = e

  note-Track :
      (bytes : Bytes) (item : Point R) (difference difference' : Option (Difference R))
      (plain : Bytes)
      → answer ≡ plain ++ (0 ∷ [])
      → all is_data bytes ≡ true
      → Track row answer bytes difference
      → note R row (length bytes) (expected_at R answer (length bytes) difference) item difference
        ≡ ok difference'
      → Track row answer (bytes ++ (item.predicted ∷ [])) difference'
  unfolding note expected_at is_expected first_difference
  note-Track bytes item (some d) difference' plain ends marks (e, f) h =
      subst (Track row answer (bytes ++ (item.predicted ∷ []))) {x = some d} {y = difference'} (cc)
        (first_difference-extend 0 d.offset bytes (item.predicted ∷ []) answer e, f)
  note-Track bytes item none difference' plain ends marks ([], e) h =
      let whole : bytes ≡ plain ++ (0 ∷ []) = sym (append-nil bytes) ∙ (sym e ∙ ends) in
      absurd (cc (no-zero plain, whole, marks))
  note-Track bytes item none difference' plain ends marks (b ∷ rest, e) h =
      let wanted : expected_at R answer (length bytes) none ≡ some b =
        ap (λ l. at l (length bytes)) e ∙ at-append bytes rest b in
      let token = item.predicted in
      elim (Bool-cases (token == b)) [
        | inl same ↦
            let token_is : token ≡ b = (==_iff token b).0 same in
            let extended : answer ≡ (bytes ++ (token ∷ [])) ++ rest =
              rw (token_is, append_assoc) e in
            subst (Track row answer (bytes ++ (token ∷ []))) {x = none} {y = difference'}
              (cc (rw (note, wanted, same) at h)) (rest, extended)
        | inr differ ↦
            let (p, phased, made) =
              >>=-eq-ok (phase row (length bytes)) _ (rw (note, wanted, differ) at h) in
            subst (Track row answer (bytes ++ (token ∷ [])))
              {x = some (record { offset = length bytes; phase = p; point = item })}
              {y = difference'} (cc)
              (
                rw e (first_difference-behind 0 token b bytes rest differ ∙ ap some (omega arith)),
                phased,
              )
      ]

  -- What the record of an answer says.
  pub record Faithful (full : Full R) : Type 0 where
    pub explained : first_difference 0 (observed R full) answer ≡ offset_of full.difference
    pub tracked : Track row answer (observed R full) full.difference
    pub plain : all is_data full.bytes ≡ true
    pub size : length full.bytes ≤ full_budget
    pub whole : full.finish ≡ budget → length full.bytes ≡ full_budget

  module _ (step : List ℕ → List Bool → Option ℕ → Option ℕ → Point R) (plan : Plan)
      (plain : Bytes) where
    full_loop-Faithful :
        (rounds : ℕ) (tokens : List ℕ) (mask : List Bool) (bytes : Bytes)
        (difference : Option (Difference R))
        → (full : Full R) → answer ≡ plain ++ (0 ∷ [])
        → length bytes + rounds ≡ full_budget
        → all is_data bytes ≡ true
        → Track row answer bytes difference
        → full_loop R row step plan answer rounds (length bytes) tokens mask bytes difference
          ≡ ok full
        → Faithful full
    unfolding full_loop observed
    full_loop-Faithful zero tokens mask bytes difference full ends count marks track h =
        subst Faithful {x = record { bytes = bytes; finish = budget; difference = difference }}
          {y = full} (cc)
          (record {
            explained = Track-explains bytes difference track;
            tracked = track;
            plain = marks;
            size = omega arith;
            whole = λ _. omega arith;
          })
    full_loop-Faithful (suc rounds) tokens mask bytes difference full ends count marks track h =
        let offset = length bytes in
        let (source, found, h1) = >>=-eq-ok (source_at plan offset) _ h in
        let item = step tokens mask (expected_at R answer offset difference) source in
        let (difference', noted, h2) =
          >>=-eq-ok (note R row offset (expected_at R answer offset difference) item difference) _
            h1 in
        let token = item.predicted in
        let track' = note-Track bytes item difference difference' plain ends marks track noted in
        elim (branches (token == 0) h2) [
          | inl (zero_token, answered) ↦
              let is_zero : token ≡ 0 = (==_iff token 0).0 zero_token in
              let seen : Track row answer (bytes ++ (0 ∷ [])) difference' =
                subst (λ t. Track row answer (bytes ++ (t ∷ [])) difference') is_zero track' in
              subst Faithful
                {x = record { bytes = bytes; finish = ended; difference = difference' }} {y = full}
                (cc)
                (record {
                  explained = Track-explains (bytes ++ (0 ∷ [])) difference' seen;
                  tracked = seen;
                  plain = marks;
                  size = omega arith;
                  whole = λ unfinished. absurd (cc unfinished);
                })
          | inr (data_token, goes_on) ↦
              let longer : length (bytes ++ (token ∷ [])) ≡ offset + 1 =
                length-append bytes (token ∷ []) in
              full_loop-Faithful rounds (tokens ++ (token ∷ [])) (mask ++ (false ∷ []))
                (bytes ++ (token ∷ [])) difference' full ends (omega arith)
                (ground (arith, all-append is_data bytes (token ∷ []))) track'
                (subst
                  (λ k.
                    full_loop R row step plan answer rounds k (tokens ++ (token ∷ []))
                      (mask ++ (false ∷ [])) (bytes ++ (token ∷ [])) difference'
                    ≡ ok full)
                  (sym longer) goes_on)
        ]

-- A reference with a frame has no zero.
plan-data :
    (is_word : ℕ → Bool) (row : Record) (p : Plan)
    → plan is_word row ≡ ok p
    → all is_data (encode row.answer) ≡ true
unfolding plan frame
plan-data is_word row p h =
    let prefix = framed row.prompt in
    let body = prefix ++ encode row.answer in
    let ((prefix', raw'), framed_ok, rest) = >>=-eq-ok (frame row) _ h in
    let (u, passed, made) =
      >>=-eq-ok (require (not (any (λ b. b == 0) body || ltb 256 (length (body ++ (0 ∷ []))))) _) _
        framed_ok in
    let fits = require-eq-ok _ _ passed in
    let no_zero : any (λ b. b == 0) body ≡ false = ground arith in
    let both = any-append (λ b. b == 0) prefix (encode row.answer) in
    let answer_free : any (λ b. b == 0) (encode row.answer) ≡ false = ground arith in
    all-of_any (encode row.answer) answer_free

observed-ended :
    (R : Readout) (full : Full R) → full.finish ≡ ended → observed R full ≡ full.bytes ++ (0 ∷ [])
unfolding observed
observed-ended R full h = rw h refl

exact :
    (R : Readout) (row : Record) (full : Full R)
    → all is_data (encode row.answer) ≡ true
    → Faithful R row (encode row.answer ++ (0 ∷ [])) full
    → full.finish ≡ ended
    → full.difference ≡ none
    → full.bytes ≡ encode row.answer
exact R row full data_only faithful ends same =
    let answer = encode row.answer ++ (0 ∷ []) in
    let (rest, e) : Track {R = R} row answer (full.bytes ++ (0 ∷ [])) none =
      subst (λ bytes. Track {R = R} row answer bytes none) (observed-ended R full ends)
        (subst (Track row answer (observed R full)) same faithful.tracked) in
    split-zero (encode row.answer) full.bytes rest data_only faithful.plain
      (e ∙ append_assoc full.bytes (0 ∷ []) rest)

-- The record of an autonomous answer agrees with what an audit recomputes: the place of its first
-- difference is the first place where its bytes, with the end byte if the model gave one, differ
-- from those of the reference with its end byte, and it has the phase of that place. It has at most
-- 160 bytes, none of them 0, and 160 where the budget ended it. An answer that the model ended with
-- no difference is the reference.
pub full_generate-Faithful :
    (R : Readout) (is_word : ℕ → Bool) (width : ℕ) (components : List ℕ → List Bool → Parts R)
    → (row : Record) (full : Full R) → full_generate R is_word width components row ≡ ok full
    → Faithful R row (encode row.answer ++ (0 ∷ [])) full
      × (full.finish ≡ ended → full.difference ≡ none → full.bytes ≡ encode row.answer)
unfolding full_generate plan
full_generate-Faithful R is_word width components row full h =
    let answer = encode row.answer ++ (0 ∷ []) in
    let (p, planned, h1) = >>=-eq-ok (plan is_word row) _ h in
    let ((left, right), bounded, h2) = >>=-eq-ok (source_bounds row.prompt) _ h1 in
    let faithful =
      full_loop-Faithful R row answer (step R width components) p (encode row.answer) full_budget
        p.prefix (mask_from left right 0 (length p.prefix)) [] none full refl (omega arith) refl
        (answer, refl) h2 in
    (faithful, λ ends same. exact R row full (plan-data is_word row p planned) faithful ends same)
