-- ===== src/Training/Namespace/Laws.antt =====
-- What the schedule of Training/Namespace draws.
use npp_ai.Prelude.{
  ℕ, suc, ◌+◌, ◌*◌, ◌≡◌, refl, sym, ap, subst, ◌∙◌, Bool, true, false, not, ◌&&◌, ◌||◌, Bool-cases,
  inl, inr, List, [], ◌∷◌, ◌++◌, map, drop, length, Each, ltb, arith,
}
use npp_ai.Text.{Text, Bytes, codes, text_eq, starts_with}
use npp_ai.Python.Exceptions.{ok, ok_inj, value_error, require, >>=-eq-ok}
use npp_ai.Training.Records.{Record, Lexer, rename, rename_token, sub_from, frame}
use npp_ai.Training.Schedule.{
  Pool, original, renamed, Batch, Random, resampled_policy, fixed_policy,
}
use npp_ai.Training.Schedule
use npp_ai.Training.Schedule.Laws.{number, IsRandom, batches-TwoEach}
use npp_ai.Training.Curriculum.{shortened}
use npp_ai.Training.Namespace.{
  pilot_steps, pilot_warmup, is_arm, is_diverse, prefix_of, Selection, add_row, diversified,
  warmed_up, select, select_all, namespace_schedule, count_set, NamespaceTally, add_selection,
  add_selections, NamespaceEvidence, nothing_tallied, namespace_evidence,
}

starts_with-prefix : (p s : Text) → starts_with (p ++ s) p ≡ true
unfolding starts_with
starts_with-prefix [] s = refl
starts_with-prefix (c ∷ p) s = ground (arith, starts_with-prefix p s)

rename-function :
    (lexer : Lexer) (row r : Record) (name : Text)
    → rename lexer row name ≡ ok r
    → r.function ≡ name
unfolding rename
rename-function lexer row r name h =
    let (tokens, _, h1) = >>=-eq-ok (lexer.tokens_of row.answer) _ h in
    let answer = lexer.untokenize (map (rename_token lexer row.function name) tokens) in
    let prompt = sub_from lexer 0 false row.function name row.prompt in
    let result : Record = record {
      id = row.id;
      function = name;
      prompt = prompt;
      answer = answer;
    } in
    let (u, _, h2) =
      >>=-eq-ok
        (require
          (not (text_eq prompt row.prompt)
            && starts_with answer (codes "def " ++ (name ++ codes "(")))
          (value_error "function transformation failed"))
        _ h1 in
    let (checked, _, h3) = >>=-eq-ok (frame result) _ h2 in
    ap (λ (row' : Record). row'.function) (sym (ok_inj result r h3))

module _ (lexer : Lexer) (diverse : Bool) where
  -- One flag for each record; and in a diverse arm the records that are no originals have, in turn,
  -- the prefixes of the step.
  abbrev pub Turns : ℕ → ℕ → List Record → List Bool → Type 0
  Turns step slot [] [] = Unit {0}
  Turns step slot [] (flag ∷ flags) = ⊥
  Turns step slot (row ∷ rows) [] = ⊥
  Turns step slot (row ∷ rows) (true ∷ flags) = Turns step slot rows flags
  Turns step slot (row ∷ rows) (false ∷ flags) =
      (diverse ≡ true → starts_with row.function (prefix_of (step * 2 + slot)) ≡ true)
      × Turns step (slot + 1) rows flags

  diversified-prefix :
      (step slot : ℕ) (row r : Record)
      → diversified lexer diverse step slot row ≡ ok r
      → diverse ≡ true
      → starts_with r.function (prefix_of (step * 2 + slot)) ≡ true
  unfolding diversified
  diversified-prefix step slot row r h on =
      let name = prefix_of (step * 2 + slot) ++ drop 3 row.function in
      let same = rename-function lexer row r name (rw on at h) in
      rw same (starts_with-prefix (prefix_of (step * 2 + slot)) (drop 3 row.function))

  warmed_up-function :
      (step : ℕ) (row : Record) → (warmed_up lexer diverse step row).function ≡ row.function
  warmed_up-function step row = elim (Bool-cases (ltb step pilot_warmup)) [
    | inl early ↦ rw early (unfold shortened in refl)
    | inr late ↦ rw late
  ]

  -- What a selection has, for its draws.
  abbrev Selected : ℕ → ℕ → Batch → Selection → Type 0
  Selected step slot draws (records, flags) =
      Turns step slot records flags
      × (count_set flags ≡ number original draws)
      × (length flags ≡ number original draws + number renamed draws)

  select-Selected :
      (step slot : ℕ) (draws : Batch) (s : Selection)
      → select lexer diverse step slot draws ≡ ok s
      → Selected step slot draws s
  unfolding select count_set
  select-Selected step slot [] s h =
      subst (Selected step slot []) {x = ([], [])} {y = s} (ok_inj _ _ h) (tt, refl, refl)
  select-Selected step slot ((original, row) ∷ draws) s h =
      let (checked, _, h1) = >>=-eq-ok (frame row) _ h in
      let (rest, later, h2) = >>=-eq-ok (select lexer diverse step slot draws) _ h1 in
      let (turns, set, size) = select-Selected step slot draws rest later in
      subst (Selected step slot ((original, row) ∷ draws)) {x = add_row row true rest} {y = s}
        (ok_inj _ _ h2) (turns, omega arith, omega arith)
  select-Selected step slot ((renamed, row) ∷ draws) s h =
      let (row', changed, h1) = >>=-eq-ok (diversified lexer diverse step slot row) _ h in
      let row'' = warmed_up lexer diverse step row' in
      let (checked, _, h2) = >>=-eq-ok (frame row'') _ h1 in
      let (rest, later, h3) = >>=-eq-ok (select lexer diverse step (slot + 1) draws) _ h2 in
      let (turns, set, size) = select-Selected step (slot + 1) draws rest later in
      let named : diverse ≡ true → starts_with row''.function (prefix_of (step * 2 + slot)) ≡ true =
        λ on.
          rw (warmed_up-function step row') (diversified-prefix step slot row row' changed on) in
      subst (Selected step slot ((renamed, row) ∷ draws)) {x = add_row row'' false rest} {y = s}
        (ok_inj _ _ h3) ((named, turns), omega arith, omega arith)

  -- Two originals and two others in a batch, whose prefixes take turns.
  abbrev pub TakesTurns : ℕ → List Selection → Type 0
  TakesTurns step [] = Unit {0}
  TakesTurns step ((records, flags) ∷ rest) =
      Turns step 0 records flags
      × (count_set flags ≡ 2)
      × (length flags ≡ 4)
      × TakesTurns (step + 1) rest

  select_all-TakesTurns :
      (step : ℕ) (batches : List Batch) (all_selected : List Selection)
      → Each (λ draws. (number original draws ≡ 2) × (number renamed draws ≡ 2)) batches
      → select_all lexer diverse step batches ≡ ok all_selected
      → (length all_selected ≡ length batches) × TakesTurns step all_selected
  unfolding select_all
  select_all-TakesTurns step [] all_selected each h =
      subst (λ l. (length l ≡ 0) × TakesTurns step l) {x = []} {y = all_selected} (ok_inj _ _ h)
        (refl, tt)
  select_all-TakesTurns step (draws ∷ batches) all_selected ((two, two'), each) h =
      let (s, selected, h1) = >>=-eq-ok (select lexer diverse step 0 draws) _ h in
      let (rest, later, h2) = >>=-eq-ok (select_all lexer diverse (step + 1) batches) _ h1 in
      let (turns, set, size) = select-Selected step 0 draws s selected in
      let (n, others) = select_all-TakesTurns (step + 1) batches rest each later in
      subst (λ l. (length l ≡ suc (length batches)) × TakesTurns step l) {x = s ∷ rest}
        {y = all_selected} (ok_inj _ _ h2) (omega arith, (turns, omega arith, omega arith, others))

-- What the tally counts over such batches.
add_selections-counts :
    (content_of : Selection → Bytes) (prompts_of : List Text → Bytes) (lexer : Lexer)
    (diverse : Bool)
    → (step : ℕ) (t : NamespaceTally) (selections : List Selection)
    → TakesTurns lexer diverse step selections
    → ((add_selections content_of prompts_of t selections).originals
        ≡ t.originals + 2 * length selections)
      × ((add_selections content_of prompts_of t selections).aliases
          ≡ t.aliases + 2 * length selections)
unfolding add_selections add_selection
add_selections-counts content_of prompts_of lexer diverse step t [] turns =
    (omega arith, omega arith)
add_selections-counts content_of prompts_of lexer diverse step t ((records, flags) ∷ rest)
      (turns, set, size, others) =
    let (a, b) =
      add_selections-counts content_of prompts_of lexer diverse (step + 1)
        (add_selection content_of prompts_of t (records, flags)) rest others in
    (omega arith, omega arith)

module _ (sha256 : Bytes → Bytes) (lexer : Lexer) (random : Random) (rows : List Record)
    (fair : IsRandom random) where
  -- With a generator that samples and shuffles as documented, a schedule that is drawn for an arm has
  -- 512 batches of two originals and two other records; in a diverse arm the names of the others
  -- start, from batch to batch and in their order, with the four prefixes in turn.
  pub namespace_schedule-TakesTurns :
      (arm : Text) (selections : List Selection)
      → namespace_schedule sha256 lexer random rows arm ≡ ok selections
      → (length selections ≡ pilot_steps) × TakesTurns lexer (is_diverse arm) 0 selections
  unfolding namespace_schedule Schedule.schedule
  namespace_schedule-TakesTurns arm selections h =
      let (u, _, h1) = >>=-eq-ok (require (is_arm arm) (value_error "unknown namespace arm")) _ h in
      let (batches, drawn, h2) =
        >>=-eq-ok (Schedule.schedule sha256 lexer resampled_policy random rows pilot_steps) _ h1 in
      let (u', _, drawn') =
        >>=-eq-ok
          (require
            (text_eq resampled_policy fixed_policy || text_eq resampled_policy resampled_policy)
            (value_error "unknown policy"))
          _ drawn in
      let (n, each) =
        batches-TwoEach sha256 lexer resampled_policy random fair rows pilot_steps 0 random.seeded
          batches drawn' in
      let (m, turns) = select_all-TakesTurns lexer (is_diverse arm) 0 batches selections each h2 in
      (m ∙ n, turns)

  -- With such a generator, the evidence of a schedule counts 1024 originals and 1024 others in 512
  -- updates.
  pub namespace_evidence-counts :
      (content_of : Selection → Bytes) (prompts_of : List Text → Bytes) (arm : Text)
      (e : NamespaceEvidence)
      → namespace_evidence sha256 lexer random rows content_of prompts_of arm ≡ ok e
      → (e.originals ≡ 1024) × (e.aliases ≡ 1024) × (e.updates ≡ 512)
  unfolding namespace_evidence
  namespace_evidence-counts content_of prompts_of arm e h =
      let (selections, drawn, h1) =
        >>=-eq-ok (namespace_schedule sha256 lexer random rows arm) _ h in
      let (n, turns) = namespace_schedule-TakesTurns arm selections drawn in
      let (a, b) =
        add_selections-counts content_of prompts_of lexer (is_diverse arm) 0 nothing_tallied
          selections turns in
      let made = ok_inj _ e h1 in
      subst
        (λ (e' : NamespaceEvidence).
          (e'.originals ≡ 1024) × (e'.aliases ≡ 1024) × (e'.updates ≡ 512))
        made (omega arith, omega arith, refl)
