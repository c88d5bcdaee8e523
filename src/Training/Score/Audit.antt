-- ===== src/Training/Score/Audit.antt =====
-- What an audit in Training/Score has compared.
use npp_ai.Prelude.{
  both, ℕ, ◌+◌, ◌≡◌, sym, ap, ◌∙◌, inl, inr, true, ◌&&◌, Option-cases, some, List, [], ◌∷◌, map,
  length, ◌==◌, ==_iff, Each, arith,
}
use npp_ai.Text.{Text, text_eq}
use npp_ai.Text.Laws.{eq_of_text_eq}
use npp_ai.Python.Exceptions.{ok, value_error, require, >>=-eq-ok, require-eq-ok}
use npp_ai.Training.Records.{Record}
use npp_ai.Training.Score.{
  Source, Metrics, score, Case, same_bit, same_metrics, audit_cases, result_of, audit_each,
  audit_groups, same_keys,
}

eq_of_same-metrics : (m m' : Metrics) → same_metrics m m' ≡ true → m ≡ m'
unfolding same_metrics same_bit
eq_of_same-metrics m m' h =
    let a : m.syntax_function ≡ m'.syntax_function = ground arith in
    let b : m.requested_name ≡ m'.requested_name = ground arith in
    let c : m.requested_signature ≡ m'.requested_signature = ground arith in
    let d : m.reference_ast ≡ m'.reference_ast = ground arith in
    let e : m.exact_response ≡ m'.exact_response = ground arith in
    λ i. record {
      syntax_function = a i;
      requested_name = b i;
      requested_signature = c i;
      reference_ast = d i;
      exact_response = e i;
    }

-- Each case is that of its record at its place, with the metrics that its output scores.
abbrev pub Audited : (Text → Source) → ℕ → List Record → List Case → Type 0
Audited parse index [] [] = Unit {0}
Audited parse index [] (c ∷ cases) = ⊥
Audited parse index (row ∷ rows) [] = ⊥
Audited parse index (row ∷ rows) (c ∷ cases) =
    (c.id ≡ row.id)
    × (c.index ≡ index)
    × (score parse row c.output ≡ ok c.metrics)
    × Audited parse (index + 1) rows cases

audit_cases-Audited :
    (parse : Text → Source) (index : ℕ) (rows : List Record) (cases : List Case) (u : Unit {0})
    → length cases ≡ length rows
    → audit_cases parse index rows cases ≡ ok u
    → Audited parse index rows cases
unfolding audit_cases
audit_cases-Audited parse index [] [] u n h = tt
audit_cases-Audited parse index [] (c ∷ cases) u n h = absurd (omega arith)
audit_cases-Audited parse index (row ∷ rows) [] u n h = absurd (omega arith)
audit_cases-Audited parse index (row ∷ rows) (c ∷ cases) u n h =
    let (u1, p1, h1) = >>=-eq-ok (require (text_eq c.id row.id && c.index == index) _) _ h in
    let (m, scored, h2) = >>=-eq-ok (score parse row c.output) _ h1 in
    let (u2, p2, h3) = >>=-eq-ok (require (same_metrics c.metrics m) _) _ h2 in
    let (ids, places) = both _ _ (require-eq-ok _ _ p1) in
    let metrics = eq_of_same-metrics c.metrics m (require-eq-ok _ _ p2) in
    (
      eq_of_text_eq c.id row.id ids,
      (==_iff c.index index).0 places,
      scored ∙ ap ok (sym metrics),
      audit_cases-Audited parse (index + 1) rows cases u (omega arith) h3,
    )

-- The result of every group is there, and audited against its records.
abbrev pub AllAudited :
    (Text → Source) → List (Text × List Case) → List (Text × List Record) → Type 0
AllAudited parse results = Each (λ (g : Text × List Record).
    (cases : List Case) × (result_of parse g.0 results ≡ some cases) × Audited parse 0 g.1 cases)

audit_each-AllAudited :
    (parse : Text → Source) (results : List (Text × List Case)) (groups : List (Text × List Record))
    (u : Unit {0})
    → audit_each parse results groups ≡ ok u
    → AllAudited parse results groups
unfolding audit_each
audit_each-AllAudited parse results [] u h = tt
audit_each-AllAudited parse results ((group, rows) ∷ groups) u h =
    elim (Option-cases (result_of parse group results)) [
      | inl missing ↦ absurd (cc (rw (audit_each, missing) at h))
      | inr (cases, found) ↦
          let (u1, p1, h1) =
            >>=-eq-ok (require (length cases == length rows) _) _ (rw (audit_each, found) at h) in
          let (u2, p2, h2) = >>=-eq-ok (audit_cases parse 0 rows cases) _ h1 in
          let same = (==_iff (length cases) (length rows)).0 (require-eq-ok _ _ p1) in
          (
            (cases, found, audit_cases-Audited parse 0 rows cases u2 same p2),
            audit_each-AllAudited parse results groups u h2,
          )
    ]

-- An audit that passes has found the results of every group: as many as its records, in their order
-- and with their places and ids, and with the metrics that the recorded output scores.
pub audit_groups-AllAudited :
    (parse : Text → Source) (results : List (Text × List Case)) (groups : List (Text × List Record))
    (u : Unit {0})
    → audit_groups parse results groups ≡ ok u
    → AllAudited parse results groups
unfolding audit_groups
audit_groups-AllAudited parse results groups u h =
    let names =
      same_keys (map (λ (r : Text × List Case). r.0) results)
        (map (λ (g : Text × List Record). g.0) groups) in
    let (u1, p1, h1) =
      >>=-eq-ok (require names (value_error "evaluation group set differs"))
        (λ _. audit_each parse results groups) h in
    audit_each-AllAudited parse results groups u h1
