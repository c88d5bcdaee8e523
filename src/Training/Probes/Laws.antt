-- ===== src/Training/Probes/Laws.antt =====
-- What an audit of functional probes has compared.
use npp_ai.Prelude.{
  suc, ◌≤◌, ◌≡◌, sym, ap, ◌∙◌, true, false, Bool, ◌&&◌, both, if_intro, List, [], ◌∷◌, length, map,
  ◌==◌, ==_iff, Each, arith, if◌then◌else◌,
}
use Prim.Native.String.{String}
use npp_ai.Text.{Text, codes, text_eq}
use npp_ai.Text.Laws.{eq_of_text_eq}
use npp_ai.Python.Exceptions.{ok, value_error, require, >>=-eq-ok, require-eq-ok}
use npp_ai.Training.Score.{same_keys}
use npp_ai.Training.Probes.{
  lookup, is_image_digest, is_category, Refusals, ProbeTask, ProbeCase, Measured, Functional,
  check_items, audit_probe, audit_probes, count_passed, audit_measured, audit_copy, audit_models,
  quality_refusals, quality_functional,
}

module _ {V : Type 0} (same : V → V → Bool) where
  -- The case has every item of its task, the digest of the task's suite and one of the categories.
  abbrev pub Probed : List (Text × Text) → ProbeCase same → ProbeTask same → Type 0
  Probed suites c task =
      Each (λ (item : Text × V). (v : V) × (lookup item.0 c.items ≡ ok v) × (same v item.1 ≡ true))
        task.items
      × (lookup task.task_id suites ≡ ok c.suite_sha256)
      × (is_category c.category ≡ true)

  abbrev pub AllProbed : List (Text × Text) → List (ProbeCase same) → List (ProbeTask same) → Type 0
  AllProbed suites [] [] = Unit {0}
  AllProbed suites [] (task ∷ tasks) = ⊥
  AllProbed suites (c ∷ cases) [] = ⊥
  AllProbed suites (c ∷ cases) (task ∷ tasks) = Probed suites c task × AllProbed suites cases tasks

  -- A case for each task, in order; the tasks and the passed cases are counted right.
  abbrev pub Counted : List (Text × Text) → List (ProbeTask same) → Measured same → Type 0
  Counted suites expected measured =
      (measured.tasks ≡ length expected)
      × AllProbed suites measured.cases expected
      × (measured.passed ≡ count_passed same measured.cases)
      × (measured.passed ≤ measured.tasks)

  check_items-Each :
      (refusal : String) (given items : List (Text × V)) (u : Unit {0})
      → check_items same refusal given items ≡ ok u
      → Each
          (λ (item : Text × V). (v : V) × (lookup item.0 given ≡ ok v) × (same v item.1 ≡ true))
          items
  unfolding check_items
  check_items-Each refusal given [] u h = tt
  check_items-Each refusal given ((key, value) ∷ items) u h =
      let (v, found, h1) = >>=-eq-ok (lookup key given) _ h in
      let (u1, p, h2) = >>=-eq-ok (require (same v value) (value_error refusal)) _ h1 in
      ((v, found, require-eq-ok _ _ p), check_items-Each refusal given items u h2)

  audit_probe-Probed :
      (refusal : String) (strict : Bool) (suites : List (Text × Text)) (c : ProbeCase same)
      (task : ProbeTask same) (u : Unit {0})
      → audit_probe same refusal strict suites c task ≡ ok u
      → Probed suites c task
  unfolding audit_probe
  audit_probe-Probed refusal strict suites c task u h =
      let (u1, items, h1) = >>=-eq-ok (check_items same refusal c.items task.items) _ h in
      let (suite, found, h2) = >>=-eq-ok (lookup task.task_id suites) _ h1 in
      let (front, _) =
        both (text_eq c.suite_sha256 suite && is_category c.category)
          (if strict then c.has_texts else true) (require-eq-ok _ _ h2) in
      let (digest, category) = both (text_eq c.suite_sha256 suite) (is_category c.category) front in
      (
        check_items-Each refusal c.items task.items u1 items,
        found ∙ ap ok (sym (eq_of_text_eq c.suite_sha256 suite digest)),
        category,
      )

  audit_probes-AllProbed :
      (refusal : String) (strict : Bool) (suites : List (Text × Text))
      (cases : List (ProbeCase same)) (tasks : List (ProbeTask same)) (u : Unit {0})
      → length cases ≡ length tasks
      → audit_probes same refusal strict suites cases tasks ≡ ok u
      → AllProbed suites cases tasks
  unfolding audit_probes
  audit_probes-AllProbed refusal strict suites [] [] u n h = tt
  audit_probes-AllProbed refusal strict suites [] (task ∷ tasks) u n h = absurd (omega arith)
  audit_probes-AllProbed refusal strict suites (c ∷ cases) [] u n h = absurd (omega arith)
  audit_probes-AllProbed refusal strict suites (c ∷ cases) (task ∷ tasks) u n h =
      let (u1, probed, h1) = >>=-eq-ok (audit_probe same refusal strict suites c task) _ h in
      (
        audit_probe-Probed refusal strict suites c task u1 probed,
        audit_probes-AllProbed refusal strict suites cases tasks u (omega arith) h1,
      )

  count_passed-le : (cases : List (ProbeCase same)) → count_passed same cases ≤ length cases
  unfolding count_passed
  count_passed-le [] = omega arith
  count_passed-le (c ∷ cases) =
      if_intro (λ n. n ≤ suc (length cases)) (text_eq c.category (codes "passed"))
        (λ _. omega (arith, count_passed-le cases)) (λ _. omega (arith, count_passed-le cases))

  audit_measured-Counted :
      (refusals : Refusals) (strict : Bool) (suites : List (Text × Text))
      (expected : List (ProbeTask same)) (measured : Measured same) (u : Unit {0})
      → audit_measured same refusals strict suites expected measured ≡ ok u
      → Counted suites expected measured
  unfolding audit_measured
  audit_measured-Counted refusals strict suites expected measured u h =
      let (u1, p1, h1) =
        >>=-eq-ok
          (require (measured.tasks == length expected && length measured.cases == length expected)
            (value_error refusals.count))
          _ h in
      let (u2, probed, h2) =
        >>=-eq-ok (audit_probes same refusals.mismatch strict suites measured.cases expected) _
          h1 in
      let (tasks, size) = both _ _ (require-eq-ok _ _ p1) in
      let tasks' = (==_iff measured.tasks (length expected)).0 tasks in
      let size' = (==_iff (length measured.cases) (length expected)).0 size in
      let passed =
        (==_iff measured.passed (count_passed same measured.cases)).0 (require-eq-ok _ _ h2) in
      (
        tasks',
        audit_probes-AllProbed refusals.mismatch strict suites measured.cases expected u2 size'
            probed,
        passed,
        omega (arith, count_passed-le measured.cases, passed, tasks', size'),
      )

  -- An audit of the one model "copy" that passes has found its measure in the report, with a case for
  -- each task in order, which has the items of the task and the digest of its suite; the tasks and
  -- the passed cases are counted right, and no more passed than there are tasks.
  pub audit_copy-Counted :
      (refusals : Refusals) (tasks_sha256 : Text) (suites : List (Text × Text))
      (expected : List (ProbeTask same)) (f : Functional same) (u : Unit {0})
      → audit_copy same refusals tasks_sha256 suites expected f ≡ ok u
      → (f.manifest_sha256 ≡ tasks_sha256)
        × ((measured : Measured same) × (lookup (codes "copy") f.models ≡ ok measured)
            × Counted suites expected measured)
  unfolding audit_copy
  audit_copy-Counted refusals tasks_sha256 suites expected f u h =
      let (u1, p1, h1) =
        >>=-eq-ok
          (require
            (text_eq f.manifest_sha256 tasks_sha256
              && same_keys (map (λ (m : Text × Measured same). m.0) f.models) (codes "copy" ∷ [])
              && is_image_digest f.image)
            (value_error refusals.provenance))
          _ h in
      let (measured, found, h2) = >>=-eq-ok (lookup (codes "copy") f.models) _ h1 in
      let (front, _) = both _ (is_image_digest f.image) (require-eq-ok _ _ p1) in
      let (manifest, _) = both (text_eq f.manifest_sha256 tasks_sha256) _ front in
      (
        eq_of_text_eq f.manifest_sha256 tasks_sha256 manifest,
        (measured, found, audit_measured-Counted refusals false suites expected measured u h2),
      )

  audit_models-Each :
      (refusals : Refusals) (suites : List (Text × Text)) (expected : List (ProbeTask same))
      (models : List (Text × Measured same)) (u : Unit {0})
      → audit_models same refusals suites expected models ≡ ok u
      → Each (λ (m : Text × Measured same). Counted suites expected m.1) models
  unfolding audit_models
  audit_models-Each refusals suites expected [] u h = tt
  audit_models-Each refusals suites expected ((name, measured) ∷ models) u h =
      let (u1, counted, h1) =
        >>=-eq-ok (audit_measured same refusals true suites expected measured) _ h in
      (
        audit_measured-Counted refusals true suites expected measured u1 counted,
        audit_models-Each refusals suites expected models u h1,
      )

  -- An audit of the functional part of a quality report that passes has found, for every model in it,
  -- a case for each task in order, which has the items of the task, the digest of its suite and a
  -- known category; the tasks and the passed cases of each model are counted right, and no more
  -- passed than there are tasks.
  pub quality_functional-Counted :
      (tasks_sha256 : Text) (suites : List (Text × Text)) (expected : List (ProbeTask same))
      (functional : Functional same)
      → quality_functional same tasks_sha256 suites expected functional ≡ ok tt
      → (functional.manifest_sha256 ≡ tasks_sha256)
        × Each (λ (m : Text × Measured same). Counted suites expected m.1) functional.models
  unfolding quality_functional
  quality_functional-Counted tasks_sha256 suites expected functional h =
      let (u1, p1, h1) =
        >>=-eq-ok
          (require
            (text_eq functional.manifest_sha256 tasks_sha256
              && same_keys (map (λ (m : Text × Measured same). m.0) functional.models)
                  (codes "native" ∷ codes "both64" ∷ []))
            (value_error "functional provenance differs"))
          _ h in
      let (u2, _, h2) =
        >>=-eq-ok
          (require (is_image_digest functional.image)
            (value_error "immutable validator image required"))
          _ h1 in
      let (manifest, _) =
        both (text_eq functional.manifest_sha256 tasks_sha256) _ (require-eq-ok _ _ p1) in
      (
        eq_of_text_eq functional.manifest_sha256 tasks_sha256 manifest,
        audit_models-Each (quality_refusals same) suites expected functional.models tt h2,
      )
