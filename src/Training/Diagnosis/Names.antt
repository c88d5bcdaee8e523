-- ===== src/Training/Diagnosis/Names.antt =====
-- The scaffolded name that a replay records, audited.
use npp_ai.Prelude.{
  ℕ, ◌+◌, ◌<◌, ◌≤◌, ◌≡◌, refl, sym, ap, subst, ◌∙◌, Bool, true, false, not, ◌&&◌, ◌||◌, Bool-cases,
  both, inl, inr, Option, none, some, List, [], ◌∷◌, ◌++◌, all, all-append, map, length,
  length-append, ltb, leb, ltb→lt, leb→le, any, drop, ◌==◌, arith,
}
use npp_ai.Text.{Bytes, codes, text_eq}
use npp_ai.Text.Laws.{text_eq_refl}
use npp_ai.Text.Utf8.{is_text, encode}
use npp_ai.Python.Exceptions.{ok, ok_inj, require, >>=-eq-ok}
use npp_ai.Training.Records.{Record, framed, frame}
use npp_ai.Training.Copy.{mask_from, source_bounds, alignment}
use npp_ai.Training.Transition.{at, Plan, plan, first_source, skip_blanks, Readout, Parts, step}
use npp_ai.Training.Replay.{Traced, Scaffold, last_peak, scaffold_loop, scaffolded, scaffold_budget}
use npp_ai.Training.Sequential.Window.{at-out, at-mask_from, length-mask_from}
use npp_ai.Training.Sequential.Runs.{framed-IsBytes, framed-inside}
use npp_ai.Training.Diagnosis.{Measures, audit_trace_from, audit_scaffolded}
use npp_ai.Training.Diagnosis.Laws.{IsSound}
use npp_ai.Training.Diagnosis.Steps.{Framed}
use npp_ai.Training.Diagnosis.Points.{same_bool_refl}
use npp_ai.Training.Diagnosis.Loop.{scaffold_loop-Grown}

pub plan-framed :
    (is_word : ℕ → Bool) (row : Record) (p : Plan)
    → plan is_word row ≡ ok p
    → p.prefix ≡ framed row.prompt
unfolding plan frame
plan-framed is_word row p h =
    let ((prefix, raw), framed_ok, h1) = >>=-eq-ok (frame row) _ h in
    let (mapping, aligned, h2) = >>=-eq-ok (alignment is_word row) _ h1 in
    let (source, found, h3) = >>=-eq-ok (first_source mapping) _ h2 in
    let width = length (encode row.function) in
    let ((end, byte), skipped, h4) =
      >>=-eq-ok (skip_blanks (source + width) (drop (source + width) raw)) _ h3 in
    let (u, parenthesis, h5) = >>=-eq-ok (require (byte == 40) _) _ h4 in
    let body = framed row.prompt ++ encode row.answer in
    let (v, passed, made) =
      >>=-eq-ok (require (not (any (λ b. b == 0) body || ltb 256 (length (body ++ (0 ∷ []))))) _) _
        framed_ok in
    sym (ap (λ (q : Plan). q.prefix) (ok_inj _ _ h5))
    ∙ sym (ap (λ (q : Bytes × Bytes). q.0) (ok_inj _ _ made))

-- Bytes, in the two ways to say it.
pub small_bytes : (bs : Bytes) → all (λ b. leb b 255) bs ≡ true → all (λ b. ltb b 256) bs ≡ true
small_bytes [] h = refl
small_bytes (b ∷ bs) h =
    let (low, rest) = both (leb b 255) (all (λ b. leb b 255) bs) h in
    let here : ltb b 256 ≡ true = ground arith in rw (here, small_bytes bs rest)

-- A marked place is between the bounds.
pub marked-inside :
    (left right n i : ℕ) → at (mask_from left right 0 n) i ≡ some true → (left ≤ i) × (i < right)
marked-inside left right n i h = elim (Bool-cases (ltb i n)) [
  | inl near ↦
      let found = sym (at-mask_from left right 0 n i (ltb→lt i n near)) ∙ h in
      let here : 0 + i ≡ i = omega arith in
      let said : (leb left i && ltb i right) ≡ true =
        ap (λ k. leb left k && ltb k right) (sym here)
        ∙ ap (λ (o : Option Bool). elim o [ none ↦ false | some b ↦ b ]) found in
      let (low, high) = both (leb left i) (ltb i right) said in
      (omega (arith, leb→le left i low), omega (arith, ltb→lt i right high))
  | inr far ↦
      let beyond : length (mask_from left right 0 n) ≤ i =
        ground (arith, length-mask_from left right 0 n) in
      absurd (cc (at-out (mask_from left right 0 n) i beyond, h))
]

module _ (R : Readout) (M : Measures R) (width : ℕ) (components : List ℕ → List Bool → Parts R)
    (sound : IsSound R M components) (wide : 0 < width) (p : Plan) (row : Record)
    (same : p.prefix ≡ framed row.prompt) (text : is_text row.prompt ≡ true) where
  pub inside_prefix : 8 + length (encode row.prompt) ≤ length p.prefix
  inside_prefix =
      let size = ap length same in
      let inside = framed-inside row.prompt in omega (arith, size, inside)

  pub prefix_small : all (λ b. ltb b 256) p.prefix ≡ true
  prefix_small =
      ap (all (λ b. ltb b 256)) same
      ∙ small_bytes (framed row.prompt) (framed-IsBytes row.prompt text)

  abbrev start_tokens : List ℕ
  start_tokens = p.prefix ++ encode (codes "def ")

  abbrev start_mask : List Bool
  start_mask = mask_from 8 (8 + length (encode row.prompt)) 0 (length start_tokens)

  ready_at_start :
      Framed R M width components sound wide p row inside_prefix prefix_small start_tokens
        start_mask
  ready_at_start =
      let size = length-append p.prefix (encode (codes "def ")) in
      let small : all (λ b. ltb b 256) (encode (codes "def ")) ≡ true = unfold encode in refl in
      record {
        more = encode (codes "def ");
        whole = refl;
        low =
            all-append (λ b. ltb b 256) p.prefix (encode (codes "def ")) ∙ rw (prefix_small, small);
        size = length-mask_from 8 (8 + length (encode row.prompt)) 0 (length start_tokens);
        filled = omega (arith, size, inside_prefix);
        prompt = marked-inside 8 (8 + length (encode row.prompt)) (length start_tokens);
      }

  abbrev grown : Bytes × List (Traced R)
  grown =
      scaffold_loop R p (step R width components) scaffold_budget 0 start_tokens start_mask [] []

  abbrev free_name : Scaffold R
  free_name = record { bytes = grown.0; trace = grown.1; exact_name = text_eq grown.0 p.target }

  audit_scaffolded-grown : audit_scaffolded R M p row free_name ≡ ok tt
  unfolding audit_scaffolded
  audit_scaffolded-grown =
      let g =
        scaffold_loop-Grown R M width components sound wide p row inside_prefix prefix_small
          scaffold_budget 0 start_tokens start_mask [] [] none refl ready_at_start
          (unfold last_peak in refl) in
      let names = map (λ (t : Traced R). t.point.predicted) in
      let filled : leb 1 (length grown.1) ≡ true =
        ground (arith, ap length g.trace_grows, g.some_point (omega arith)) in
      let few : leb (length grown.1) scaffold_budget ≡ true =
        ground (arith, ap length g.trace_grows, g.few) in
      let told : text_eq grown.0 (names grown.1) ≡ true =
        subst (λ l. text_eq grown.0 l ≡ true) (g.bytes_grow ∙ sym (ap names g.trace_grows))
          (text_eq_refl grown.0) in
      let bytes_are : names g.added ≡ grown.0 = sym g.bytes_grow in
      let points : audit_trace_from R M p row grown.0 0 none grown.1 ≡ ok tt =
        subst (λ l. audit_trace_from R M p row grown.0 0 none l ≡ ok tt) (sym g.trace_grows)
          (subst (λ l. audit_trace_from R M p row l 0 none g.added ≡ ok tt) bytes_are g.audited) in
      rw (filled, few, told, same_bool_refl R M (text_eq grown.0 p.target), points)

-- A network of 256 outputs, with one attention for each token, whose values are probabilities that
-- mix and that attends to marked tokens only, writes a scaffolded name for every record that has a
-- plan and a prompt of scalar values with no NUL; and the audit of that name, which has no access to
-- the network, raises nothing.
pub scaffolded-audited :
    (R : Readout) (M : Measures R) (is_word : ℕ → Bool) (width : ℕ)
    (components : List ℕ → List Bool → Parts R) (row : Record) (p : Plan)
    → IsSound R M components
    → 0 < width
    → plan is_word row ≡ ok p
    → is_text row.prompt ≡ true
    → any (λ c. c == 0) row.prompt ≡ false
    → (free : Scaffold R) × (scaffolded R is_word width components row ≡ ok free)
      × (audit_scaffolded R M p row free ≡ ok tt)
scaffolded-audited R M is_word width components row p sound wide planned text clean =
    let same = plan-framed is_word row p planned in
    (
      free_name R M width components sound wide p row same text,
      unfold scaffolded source_bounds in rw (planned, clean) refl,
      audit_scaffolded-grown R M width components sound wide p row same text,
    )
