-- ===== src/Training/Score/Laws.antt =====
-- The metrics of Training/Score and their sums over two stages.
use npp_ai.Prelude.{
  ◌+◌, ◌≡◌, refl, sym, ap, subst, ◌∙◌, Bool, true, ◌&&◌, List, [], ◌∷◌, length, arith,
}
use npp_ai.Text.{Text, text_eq}
use npp_ai.Text.Laws.{text_eq_refl, eq_of_text_eq}
use npp_ai.Python.Exceptions.{ok, err}
use npp_ai.Decoding.Structure.{Statement, function_def, import_statement, other}
use npp_ai.Training.Records.{Record}
use npp_ai.Training.Score.{
  Source, module_of, refused, failed, Metrics, only_exact, compare_function, compare_source, score,
  Case, total, paired, kept, dropped, won, retention,
}

-- How the metrics of one output hang together.
pub record Consistent (row : Record) (source : Text) (m : Metrics) : Type 0 where
  pub exact_iff : m.exact_response ≡ text_eq source row.answer
  pub name_function : m.requested_name ≡ true → m.syntax_function ≡ true
  pub signature_name : m.requested_signature ≡ true → m.requested_name ≡ true
  pub ast_function : m.reference_ast ≡ true → m.syntax_function ≡ true
  pub exact_all :
      m.exact_response ≡ true
      → m.syntax_function ≡ true
      → (m.requested_signature ≡ true) × (m.reference_ast ≡ true)

module _ (row : Record) (source : Text) where
  only_exact-Consistent : Consistent row source (only_exact (text_eq source row.answer))
  only_exact-Consistent = record {
    exact_iff = refl;
    name_function = λ h. absurd (cc h);
    signature_name = λ h. absurd (cc h);
    ast_function = λ h. absurd (cc h);
    exact_all = λ e h. absurd (cc h);
  }

  unmeasured : (m : Metrics) → only_exact (text_eq source row.answer) ≡ m → Consistent row source m
  unmeasured m same = subst (Consistent row source) same only_exact-Consistent

  -- One function beside the reference's: the same text has the same names and dumps.
  function-Consistent :
      (name args name' args' dump dump' : Text)
      → (source ≡ row.answer → (name ≡ name') × (args ≡ args') × (dump ≡ dump'))
      → Consistent row source (record {
        syntax_function = true;
        requested_name = text_eq name name';
        requested_signature = text_eq name name' && text_eq args args';
        reference_ast = text_eq dump dump';
        exact_response = text_eq source row.answer;
      })
  function-Consistent name args name' args' dump dump' same = record {
    exact_iff = refl;
    name_function = λ h. refl;
    signature_name = λ h. ground arith;
    ast_function = λ h. refl;
    exact_all = λ e h.
        (let (n, a, d) = same (eq_of_text_eq source row.answer e) in
          (
            rw (n, a, text_eq_refl name', text_eq_refl args') refl,
            rw (d, text_eq_refl dump') refl,
          ));
  }

  module _ (parse : Text → Source) where
    compare_source-Consistent :
        (expected : List Statement) (expected_dump : Text) (found : Source) (m : Metrics)
        → parse row.answer ≡ module_of expected expected_dump
        → parse source ≡ found
        → compare_source (text_eq source row.answer) found expected expected_dump ≡ ok m
        → Consistent row source m
    unfolding compare_source compare_function
    compare_source-Consistent expected dump' (refused e) m p q h = unmeasured m (cc)
    compare_source-Consistent expected dump' (failed e) m p q h = absurd (cc h)
    compare_source-Consistent expected dump' (module_of [] dump) m p q h = unmeasured m (cc)
    compare_source-Consistent expected dump' (module_of (import_statement ∷ []) dump) m p q h =
        unmeasured m (cc)
    compare_source-Consistent expected dump' (module_of (other ∷ []) dump) m p q h =
        unmeasured m (cc)
    compare_source-Consistent expected dump'
          (module_of (function_def name args body ∷ s ∷ rest) dump) m p q h =
        unmeasured m (cc)
    compare_source-Consistent expected dump' (module_of (import_statement ∷ s ∷ rest) dump) m p q
          h =
        unmeasured m (cc)
    compare_source-Consistent expected dump' (module_of (other ∷ s ∷ rest) dump) m p q h =
        unmeasured m (cc)
    compare_source-Consistent [] dump' (module_of (function_def name args body ∷ []) dump) m p q h =
        absurd (cc h)
    compare_source-Consistent (import_statement ∷ t) dump'
          (module_of (function_def name args body ∷ []) dump) m p q h =
        absurd (cc h)
    compare_source-Consistent (other ∷ t) dump' (module_of (function_def name args body ∷ []) dump)
          m p q h =
        absurd (cc h)
    compare_source-Consistent (function_def name' args' body' ∷ t) dump'
          (module_of (function_def name args body ∷ []) dump) m p q h =
        subst (Consistent row source) {y = m} (cc) (
          function-Consistent name args name' args' dump dump' (λ same.
            (let both : Path Source (module_of (function_def name args body ∷ []) dump)
                  (module_of (function_def name' args' body' ∷ t) dump') =
                sym q ∙ (ap parse same ∙ p) in
              (cc, cc, cc))))

  -- The metrics of a scored output: the exact response is the one that is the reference's answer; a
  -- requested signature has the requested name, and that or the reference's tree is one function;
  -- an exact response that is one function has all the metrics.
  pub score-Consistent :
      (parse : Text → Source) (m : Metrics)
      → score parse row source ≡ ok m
      → Consistent row source m
  unfolding score
  score-Consistent parse m h = scored (parse row.answer) refl h
    where
      scored :
          (reference : Source)
          → parse row.answer ≡ reference
          → elim reference [
            | refused e ↦ err e
            | failed e ↦ err e
            | module_of expected dump ↦
                compare_source (text_eq source row.answer) (parse source) expected dump
          ]
            ≡ ok m
          → Consistent row source m
      scored (refused e) p h = absurd (cc h)
      scored (failed e) p h = absurd (cc h)
      scored (module_of expected dump) p h =
          compare_source-Consistent parse expected dump (parse source) m p refl h

module _ (metric : Metrics → Bool) where
  paired-total :
      (prior after : List Case)
      → length prior ≡ length after
      → (paired kept metric prior after + paired dropped metric prior after ≡ total metric prior)
        × (paired kept metric prior after + paired won metric prior after ≡ total metric after)
  unfolding paired total
  paired-total [] [] h = (omega arith, omega arith)
  paired-total [] (b ∷ after) h = absurd (omega arith)
  paired-total (a ∷ prior) [] h = absurd (omega arith)
  paired-total (a ∷ prior) (b ∷ after) h =
      let same : length prior ≡ length after = omega arith in
      let (x, y) = paired-total prior after same in (ground arith, ground arith)

-- For one metric of two stages with as many cases each: what is retained or lost is what had the
-- metric before, and what is retained or gained is what has it after.
pub retention-total :
    (metric : Metrics → Bool) (prior after : List Case)
    → length prior ≡ length after
    → ((retention metric prior after).retained + (retention metric prior after).lost
        ≡ total metric prior)
      × ((retention metric prior after).retained + (retention metric prior after).gained
          ≡ total metric after)
unfolding retention
retention-total metric prior after h = paired-total metric prior after h
