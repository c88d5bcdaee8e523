-- ===== src/Training/Diagnosis/Returns.antt =====
-- An autonomous answer of a record with a plan, returned and audited.
use npp_ai.Prelude.{
  ℕ, zero, suc, ◌+◌, ◌-◌, ◌<◌, ◌≡◌, refl, sym, ap, subst, ◌∙◌, Bool, true, false, ◌&&◌, Bool-cases,
  both, inl, inr, Option, none, some, List, [], ◌∷◌, ◌++◌, length, length-append, ltb, leb, ltb→lt,
  leb→le, any, drop, take, ◌==◌, if◌then◌else◌, arith,
}
use npp_ai.Text.{Bytes, codes, starts_with}
use npp_ai.Text.Utf8.{is_text, encode, decode}
use npp_ai.Python.Exceptions.{Result, ok, ok_inj, require, >>=-eq-ok}
use npp_ai.Training.Records.{Record, frame}
use npp_ai.Training.Copy.{
  mask_from, source_bounds, alignment, only_match, matches_from, pairs_from, check_pairs,
}
use npp_ai.Training.Transition.{
  Plan, plan, sources_of, first_source, skip_blanks, index_from, phase, Phase, ended, budget,
  Readout, Parts, Point, step,
}
use npp_ai.Training.Replay.{
  is_expected, source_at, Difference, Full, expected_at, note, full_loop, full_generate,
  full_budget,
}
use npp_ai.Training.Diagnosis.{Measures, audit_full}
use npp_ai.Training.Diagnosis.Laws.{IsSound, at-some}
use npp_ai.Training.Diagnosis.Answers.{audit_full-generated}

abbrev Returns : {A : Type 0} → Result A → Type 0
Returns {A = A} r = (a : A) × (r ≡ ok a)

if-Returns :
    {A : Type 0} (b : Bool) (x y : Result A) → Returns x → Returns y → Returns (if b then x else y)
if-Returns true x y h k = h
if-Returns false x y h k = k

-- An answer with a line end has a phase at every place.
phase-Returns :
    (row : Record) (line : ℕ)
    → index_from 0 (encode row.answer) ≡ ok line
    → (i : ℕ) → Returns (phase row i)
unfolding phase
phase-Returns row line h i =
    if-Returns (leb (length (encode row.answer)) i) _ _ (Phase.eos, refl)
      (if-Returns (ltb i 4) _ _ (Phase.def_scaffold, refl)
        (if-Returns (ltb i (4 + length (encode row.function))) _ _ (Phase.name, refl)
          (if-Returns (i == 4 + length (encode row.function)) _ _ (Phase.name_termination, refl)
            ((if leb i line then Phase.signature else Phase.body), rw h refl))))

length-sources_of : (mapping : List (ℕ × ℕ)) → length (sources_of mapping) ≡ length mapping
unfolding sources_of
length-sources_of [] = refl
length-sources_of ((query, source) ∷ rest) = ap suc (length-sources_of rest)

length-pairs_from : (query source n : ℕ) → length (pairs_from query source n) ≡ n
unfolding pairs_from
length-pairs_from query source zero = refl
length-pairs_from query source (suc n) = ap suc (length-pairs_from (query + 1) (source + 1) n)

length-alignment :
    (is_word : ℕ → Bool) (row : Record) (mapping : List (ℕ × ℕ))
    → alignment is_word row ≡ ok mapping
    → length mapping ≡ length (encode row.function)
unfolding alignment
length-alignment is_word row mapping h =
    let name = row.function in
    let ((prefix, raw), framed_ok, h1) = >>=-eq-ok (frame row) _ h in
    let (start, matched, h2) =
      >>=-eq-ok (only_match (matches_from is_word 0 false 0 name row.prompt)) _ h1 in
    let (u, explicit, h3) =
      >>=-eq-ok (require (starts_with row.answer (codes "def " ++ (name ++ codes "("))) _) _ h2 in
    let source = 8 + length (encode (take start row.prompt)) in
    let query = (length prefix - 1) + 4 in
    let (v, checked, h4) =
      >>=-eq-ok (check_pairs raw (pairs_from query source (length (encode name)))) _ h3 in
    ap length (sym (ok_inj _ _ h4)) ∙ length-pairs_from query source (length (encode name))

-- The sources of a plan are as many as the bytes of its target.
plan-sources :
    (is_word : ℕ → Bool) (row : Record) (p : Plan)
    → plan is_word row ≡ ok p
    → length p.sources ≡ length p.target
unfolding plan
plan-sources is_word row p h =
    let ((prefix, raw), framed_ok, h1) = >>=-eq-ok (frame row) _ h in
    let (mapping, aligned, h2) = >>=-eq-ok (alignment is_word row) _ h1 in
    let (source, found, h3) = >>=-eq-ok (first_source mapping) _ h2 in
    let width = length (encode row.function) in
    let ((end, byte), skipped, h4) =
      >>=-eq-ok (skip_blanks (source + width) (drop (source + width) raw)) _ h3 in
    let (u, parenthesis, h5) = >>=-eq-ok (require (byte == 40) _) _ h4 in
    let size : length (sources_of mapping ++ (end ∷ []))
        ≡ length (encode row.function ++ (40 ∷ [])) =
      omega (
        arith,
        length-append (sources_of mapping) (end ∷ []),
        length-append (encode row.function) (40 ∷ []),
        length-sources_of mapping,
        length-alignment is_word row mapping aligned,
      ) in
    subst (λ (q : Plan). length q.sources ≡ length q.target) (ok_inj _ _ h5) size

source_at-Returns :
    (p : Plan) → length p.sources ≡ length p.target → (i : ℕ) → Returns (source_at p i)
unfolding source_at
source_at-Returns p size i = elim (Bool-cases (leb 4 i && ltb i (4 + length p.target))) [
  | inl due ↦
      let (low, high) = both (leb 4 i) (ltb i (4 + length p.target)) due in
      let (source, found) =
        at-some p.sources (i - 4)
          (omega (arith, size, leb→le 4 i low, ltb→lt i (4 + length p.target) high)) in
      (some source, rw (due, found) refl)
  | inr past ↦ (none, rw past refl)
]

module _ (R : Readout) (row : Record) (step : List ℕ → List Bool → Option ℕ → Option ℕ → Point R)
    (p : Plan) (answer : Bytes) (phased : (i : ℕ) → Returns (phase row i))
    (sourced : (i : ℕ) → Returns (source_at p i)) where
  note-Returns :
      (offset : ℕ) (expected : Option ℕ) (item : Point R) (difference : Option (Difference R))
      → Returns (note R row offset expected item difference)
  unfolding note
  note-Returns offset expected item (some d) = (some d, refl)
  note-Returns offset expected item none =
      let (ph, e) = phased offset in
      if-Returns (is_expected item.predicted expected) _ _ (none, refl)
        (some (record { offset = offset; phase = ph; point = item }), rw e refl)

  full_loop-Returns :
      (rounds offset : ℕ) (tokens : List ℕ) (mask : List Bool) (bytes : Bytes)
      (difference : Option (Difference R))
      → Returns (full_loop R row step p answer rounds offset tokens mask bytes difference)
  unfolding full_loop
  full_loop-Returns zero offset tokens mask bytes difference =
      (record { bytes = bytes; finish = budget; difference = difference }, refl)
  full_loop-Returns (suc rounds) offset tokens mask bytes difference =
      let (source, found) = sourced offset in
      let expected = expected_at R answer offset difference in
      let item = step tokens mask expected source in
      let (difference', noted) = note-Returns offset expected item difference in
      let token = item.predicted in
      elim (Bool-cases (token == 0)) [
        | inl ends ↦ (
          record { bytes = bytes; finish = ended; difference = difference' },
          rw (found, noted, ends) refl,
        )
        | inr goes ↦
            let (full, e) =
              full_loop-Returns rounds (offset + 1) (tokens ++ (token ∷ [])) (mask ++ (false ∷ []))
                (bytes ++ (token ∷ [])) difference' in
            (full, rw (found, noted, goes) e)
      ]

-- A network of 256 outputs, with one attention for each token, whose values are probabilities that
-- mix and that attends to marked tokens only, gives an autonomous answer to every record that has a
-- plan, a line end in its reference and a prompt of scalar values with no NUL; and the audit of that
-- answer, which has no access to the network, raises nothing where the case tells of an equal cached
-- output and the metrics are those of the score.
pub full_generate-audited :
    (R : Readout) (M : Measures R) (is_word : ℕ → Bool) (width : ℕ)
    (components : List ℕ → List Bool → Parts R) (row : Record) (p : Plan) (line : ℕ)
    → IsSound R M components
    → 0 < width
    → plan is_word row ≡ ok p
    → index_from 0 (encode row.answer) ≡ ok line
    → is_text row.prompt ≡ true
    → any (λ c. c == 0) row.prompt ≡ false
    → (full : Full R) × (full_generate R is_word width components row ≡ ok full)
      × (audit_full R M p row full.bytes full.finish
            (decode full.bytes)
            full.difference
            (decode full.bytes)
            true
            true
          ≡ ok tt)
full_generate-audited R M is_word width components row p line sound wide planned ends text clean =
    let (full, e) =
      full_loop-Returns R row (step R width components) p (encode row.answer ++ (0 ∷ []))
        (phase-Returns row line ends) (source_at-Returns p (plan-sources is_word row p planned))
        full_budget 0 p.prefix (mask_from 8 (8 + length (encode row.prompt)) 0 (length p.prefix)) []
        none in
    let returned : full_generate R is_word width components row ≡ ok full =
      unfold full_generate source_bounds in rw (planned, clean) e in
    (
      full,
      returned,
      audit_full-generated R M is_word width components row p sound wide planned text full returned,
    )
