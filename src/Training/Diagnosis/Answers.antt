-- ===== src/Training/Diagnosis/Answers.antt =====
-- The autonomous answer that a replay records, audited.
use npp_ai.Prelude.{
  ℕ, zero, suc, ◌+◌, ◌<◌, ◌≤◌, ◌≡◌, refl, sym, subst, ◌∙◌, Bool, true, false, not, ◌||◌, Bool-cases,
  inl, inr, Option, none, some, List, [], ◌∷◌, ◌++◌, append-nil, all, all-append, length,
  length-append, ltb, leb, any, ◌==◌, ==_iff, if◌then◌else◌, arith,
}
use npp_ai.Text.{Bytes}
use npp_ai.Text.Laws.{text_eq_refl}
use npp_ai.Text.Utf8.{is_text, encode, decode}
use npp_ai.Python.Exceptions.{ok, require, >>=-eq-ok, require-eq-ok}
use npp_ai.Training.Records.{Record, framed}
use npp_ai.Training.Copy.{mask_from, source_bounds}
use npp_ai.Training.Transition.{at, Plan, plan, phase, ended, budget, Finish, Readout, Parts, step}
use npp_ai.Training.Replay.{
  is_expected, first_difference, source_at, Difference, Full, observed, expected_at, note,
  full_loop, full_generate, full_budget,
}
use npp_ai.Training.Replay.Differences.{at-append}
use npp_ai.Training.Replay.Laws.{offset_of, branches, Track, full_generate-Faithful}
use npp_ai.Training.Sequential.Window.{length-mask_from}
use npp_ai.Training.Diagnosis.{
  Measures, audit_point, same_number, is_budget, phase_number, audit_difference, audit_full,
}
use npp_ai.Training.Diagnosis.Laws.{IsSound}
use npp_ai.Training.Diagnosis.Steps.{Framed, predicted_low, audit_point-step}
use npp_ai.Training.Diagnosis.Points.{step-Framed}
use npp_ai.Training.Diagnosis.Names.{plan-framed, marked-inside, inside_prefix, prefix_small}

at-extend :
    {A : Type 0} (xs ys : List A) (i : ℕ) (a : A) → at xs i ≡ some a → at (xs ++ ys) i ≡ some a
unfolding at
at-extend [] ys i a h = absurd (cc h)
at-extend (x ∷ xs) ys zero a h = h
at-extend (x ∷ xs) ys (suc i) a h = at-extend xs ys i a h

-- A difference that is recorded at a place of the bytes has a point that passes the audit.
abbrev Known :
    (R : Readout) → Measures R → Plan → Record → Bytes → Bytes → Option (Difference R) → Type 0
Known R M p row answer bytes none = Unit {0}
Known R M p row answer bytes (some d) =
    (source : Option ℕ) × (source_at p d.offset ≡ ok source)
    × (audit_point R M p row d.point (at answer d.offset) source ≡ ok tt)
    × (at bytes d.offset ≡ some d.point.predicted)

module _ (R : Readout) (M : Measures R) (width : ℕ) (components : List ℕ → List Bool → Parts R)
    (sound : IsSound R M components) (wide : 0 < width) (p : Plan) (row : Record)
    (inside : 8 + length (encode row.prompt) ≤ length p.prefix)
    (prefix_bytes : all (λ b. ltb b 256) p.prefix ≡ true) (answer : Bytes) where
  abbrev Ready : List ℕ → List Bool → Type 0
  Ready = Framed R M width components sound wide p row inside prefix_bytes

  note-Known :
      (tokens : List ℕ) (mask : List Bool) (bytes : Bytes) (source : Option ℕ)
      (difference difference' : Option (Difference R))
      → Ready tokens mask
      → source_at p (length bytes) ≡ ok source
      → let item =
          step R width components tokens mask
            (expected_at R answer (length bytes) difference)
            source in
        note R row (length bytes) (expected_at R answer (length bytes) difference) item difference
          ≡ ok difference'
        → Known R M p row answer bytes difference
        → Known R M p row answer (bytes ++ (item.predicted ∷ [])) difference'
  unfolding note expected_at
  note-Known tokens mask bytes source (some d) difference' ready found h (s, e, f, g) =
      let token = (step R width components tokens mask none source).predicted in
      subst (Known R M p row answer (bytes ++ (token ∷ []))) {x = some d} {y = difference'} (cc)
        (s, e, f, at-extend bytes (token ∷ []) d.offset d.point.predicted g)
  note-Known tokens mask bytes source none difference' ready found h u =
      let item = step R width components tokens mask (at answer (length bytes)) source in
      let token = item.predicted in
      elim (Bool-cases (is_expected token (at answer (length bytes)))) [
        | inl same ↦
            subst (Known R M p row answer (bytes ++ (token ∷ []))) {x = none} {y = difference'}
              (cc (rw same at h)) tt
        | inr differ ↦
            let (ph, phased, made) = >>=-eq-ok (phase row (length bytes)) _ (rw differ at h) in
            subst (Known R M p row answer (bytes ++ (token ∷ [])))
              {x = some (record { offset = length bytes; phase = ph; point = item })}
              {y = difference'} (cc)
              (
                source,
                found,
                audit_point-step R M width components sound wide p row inside prefix_bytes tokens
                    mask ready (at answer (length bytes)) source,
                at-append bytes [] token,
              )
      ]

  record FullKnown (full : Full R) : Type 0 where
    low : all (λ b. ltb b 256) full.bytes ≡ true
    known : Known R M p row answer (observed R full) full.difference

  full_loop-FullKnown :
      (rounds : ℕ) (tokens : List ℕ) (mask : List Bool) (bytes : Bytes)
      (difference : Option (Difference R)) (full : Full R)
      → Ready tokens mask
      → all (λ b. ltb b 256) bytes ≡ true
      → Known R M p row answer bytes difference
      → full_loop R row
          (step R width components)
          p
          answer
          rounds
          (length bytes)
          tokens
          mask
          bytes
          difference
        ≡ ok full
      → FullKnown full
  unfolding full_loop observed
  full_loop-FullKnown zero tokens mask bytes difference full ready small k h =
      subst FullKnown {x = record { bytes = bytes; finish = budget; difference = difference }}
        {y = full} (cc) (record { low = small; known = k })
  full_loop-FullKnown (suc rounds) tokens mask bytes difference full ready small k h =
      let (source, found, h1) = >>=-eq-ok (source_at p (length bytes)) _ h in
      let expected = expected_at R answer (length bytes) difference in
      let item = step R width components tokens mask expected source in
      let token = item.predicted in
      let (difference', noted, h2) =
        >>=-eq-ok (note R row (length bytes) expected item difference) _ h1 in
      let k' = note-Known tokens mask bytes source difference difference' ready found noted k in
      elim (branches (token == 0) h2) [
        | inl (zero_token, answered) ↦
            let is_zero : token ≡ 0 = (==_iff token 0).0 zero_token in
            subst FullKnown {x = record { bytes = bytes; finish = ended; difference = difference' }}
              {y = full} (cc)
              (record {
                low = small;
                known =
                    subst (λ t. Known R M p row answer (bytes ++ (t ∷ [])) difference') is_zero k';
              })
        | inr (data_token, more) ↦
            let token_low : ltb token 256 ≡ true =
              predicted_low R M width components sound wide p row inside prefix_bytes tokens mask
                ready expected source in
            full_loop-FullKnown rounds (tokens ++ (token ∷ [])) (mask ++ (false ∷ []))
              (bytes ++ (token ∷ [])) difference' full
              (step-Framed R M width components sound wide p row inside prefix_bytes tokens mask
                token ready token_low)
              (all-append (λ b. ltb b 256) bytes (token ∷ []) ∙ rw (small, token_low)) k'
              (subst
                (λ i.
                  full_loop R row (step R width components) p answer rounds i
                    (tokens ++ (token ∷ [])) (mask ++ (false ∷ [])) (bytes ++ (token ∷ []))
                    difference'
                  ≡ ok full)
                (sym (length-append bytes (token ∷ []))) more)
      ]

observed-is :
    (R : Readout) (M : Measures R) (full : Full R)
    → observed R full ≡ full.bytes ++ (if is_budget R M full.finish then [] else 0 ∷ [])
unfolding observed
observed-is R M full =
    elim full.finish
      as (λ f.
        (elim f [ ended ↦ full.bytes ++ (0 ∷ []) | budget ↦ full.bytes ])
        ≡ full.bytes ++ (if is_budget R M f then [] else 0 ∷ [])) [
          | ended ↦ refl
          | budget ↦ sym (append-nil full.bytes)
        ]

module _ (R : Readout) (M : Measures R) (p : Plan) (row : Record) (answer bytes : Bytes) where
  audit_difference-passes :
      (difference : Option (Difference R))
      → Track row answer bytes difference
      → Known R M p row answer bytes difference
      → audit_difference R M p row bytes answer (offset_of difference) difference ≡ ok tt
  unfolding audit_difference same_number
  audit_difference-passes none track known = refl
  audit_difference-passes (some d) (e, phased) (source, found, passes, predicted) =
      let here : (d.offset == d.offset) ≡ true = ground arith in
      let same : (phase_number R M d.phase == phase_number R M d.phase) ≡ true = ground arith in
      let told : (d.point.predicted == d.point.predicted) ≡ true = ground arith in
      rw (phased, here, same, found, passes, predicted, told)

budget_full :
    (R : Readout) (M : Measures R) (finish : Finish) (n : ℕ)
    → (finish ≡ budget → n ≡ full_budget)
    → (not (is_budget R M finish) || n == full_budget) ≡ true
budget_full R M ended n h = refl
budget_full R M budget n h = ground (arith, h refl)

module _ (R : Readout) (M : Measures R) (is_word : ℕ → Bool) (width : ℕ)
    (components : List ℕ → List Bool → Parts R) (row : Record) (p : Plan)
    (sound : IsSound R M components) (wide : 0 < width) (planned : plan is_word row ≡ ok p)
    (text : is_text row.prompt ≡ true) where
  abbrev expected : Bytes
  expected = encode row.answer ++ (0 ∷ [])

  abbrev same_prefix : p.prefix ≡ framed row.prompt
  same_prefix = plan-framed is_word row p planned

  abbrev mask : List Bool
  mask = mask_from 8 (8 + length (encode row.prompt)) 0 (length p.prefix)

  ready_prefix :
      Framed R M width components sound wide p row
        (inside_prefix R M width components sound wide p row same_prefix text)
        (prefix_small R M width components sound wide p row same_prefix text)
        p.prefix
        mask
  ready_prefix =
      let inside = inside_prefix R M width components sound wide p row same_prefix text in
      record {
        more = [];
        whole = sym (append-nil p.prefix);
        low = prefix_small R M width components sound wide p row same_prefix text;
        size = length-mask_from 8 (8 + length (encode row.prompt)) 0 (length p.prefix);
        filled = omega (arith, inside);
        prompt = marked-inside 8 (8 + length (encode row.prompt)) (length p.prefix);
      }

  full_generate-FullKnown :
      (full : Full R)
      → full_generate R is_word width components row ≡ ok full
      → FullKnown R M width components sound wide p row
          (inside_prefix R M width components sound wide p row same_prefix text)
          (prefix_small R M width components sound wide p row same_prefix text)
          expected
          full
  unfolding full_generate source_bounds
  full_generate-FullKnown full h =
      let (u, clean, h1) = >>=-eq-ok (source_bounds row.prompt) _ (rw planned at h) in
      let (v, passed, bounds) =
        >>=-eq-ok (require (not (any (λ c. c == 0) row.prompt)) _) _ clean in
      let looped = rw (require-eq-ok _ _ passed) at (rw planned at h) in
      full_loop-FullKnown R M width components sound wide p row
        (inside_prefix R M width components sound wide p row same_prefix text)
        (prefix_small R M width components sound wide p row same_prefix text) expected full_budget
        p.prefix mask [] none full ready_prefix refl tt looped

  pub audit_full-generated :
      (full : Full R)
      → full_generate R is_word width components row ≡ ok full
      → audit_full R M p row full.bytes full.finish
          (decode full.bytes)
          full.difference
          (decode full.bytes)
          true
          true
        ≡ ok tt
  unfolding audit_full
  audit_full-generated full h =
      let (f, u) = full_generate-Faithful R is_word width components row full h in
      let k = full_generate-FullKnown full h in
      let short : leb (length full.bytes) full_budget ≡ true = ground (arith, f.size) in
      let ends = budget_full R M full.finish (length full.bytes) f.whole in
      let difference : audit_difference R M p row
            (full.bytes ++ (if is_budget R M full.finish then [] else 0 ∷ [])) expected
            (first_difference 0 (full.bytes ++ (if is_budget R M full.finish then [] else 0 ∷ []))
              expected)
            full.difference
          ≡ ok tt =
        subst
          (λ l.
            audit_difference R M p row l expected (first_difference 0 l expected) full.difference
            ≡ ok tt)
          (observed-is R M full)
          (rw f.explained (
            audit_difference-passes R M p row expected (observed R full) full.difference f.tracked
              k.known)) in
      rw (k.low, short, ends, text_eq_refl (decode full.bytes), difference)
