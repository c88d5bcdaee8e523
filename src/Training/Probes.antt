-- ===== src/Training/Probes.antt =====
-- The audit of the functional probes of a report: in `audit_report` of scripts/portable_quality.py,
-- and in `audit` of scripts/copy_curriculum.py, namespace_retention.py and protected_sequential.py.
-- A JSON value is a parameter, with its `==`.
pub mod Laws
use npp_ai.Prelude.{
  ℕ, ◌+◌, Bool, true, false, ◌&&◌, ◌||◌, List, [], ◌∷◌, length, map, drop, ◌==◌, if◌then◌else◌,
}
use Prim.Native.String.{String}
use npp_ai.Text.{Text, codes, text_eq, starts_with}
use npp_ai.Python.Exceptions.{Result, ok, err, value_error, other_exception, require, ◌>>=◌, ◌>>◌}
use npp_ai.Training.Score.{same_keys}
use npp_ai.Training.Trace.{is_digest}

-- `d[key]`
unfoldable pub lookup {ℓ} : {A : Type ℓ} → Text → List (Text × A) → Result A
lookup key [] = err (other_exception "KeyError")
lookup key ((name, value) ∷ rest) =
    let later = lookup key rest in if text_eq name key then ok value else later

-- `re.fullmatch(r'sha256:[0-9a-f]{64}', s)`
unfoldable pub is_image_digest : Text → Bool
unfolding is_digest
is_image_digest s = starts_with s (codes "sha256:") && is_digest (drop 7 s)

unfoldable pub is_category : Text → Bool
is_category c =
    text_eq c (codes "empty")
    || text_eq c (codes "syntax_failure")
    || text_eq c (codes "functional_failure")
    || text_eq c (codes "passed")

-- What the ValueErrors of a script say.
pub record Refusals : Type 0 where
  pub provenance : String
  pub count : String
  pub mismatch : String
  pub pass_count : String

module _ {V : Type 0} (same : V → V → Bool) where
  -- A task: its id and all its items, of which the id is one.
  pub record ProbeTask : Type 0 where
    pub task_id : Text
    pub items : List (Text × V)

  -- A case; `source` and `diagnostics` are given by whether they are texts.
  pub record ProbeCase : Type 0 where
    pub items : List (Text × V)
    pub suite_sha256 : Text
    pub category : Text
    pub has_texts : Bool

  pub record Measured : Type 0 where
    pub tasks : ℕ
    pub cases : List ProbeCase
    pub passed : ℕ

  pub record Functional : Type 0 where
    pub manifest_sha256 : Text
    pub models : List (Text × Measured)
    pub image : Text

  -- `any(case[key] != value for key, value in task.items())`: no ValueError for the same values.
  unfoldable pub check_items : String → List (Text × V) → List (Text × V) → Result (Unit {0})
  unfolding lookup
  check_items refusal given [] = ok tt
  check_items refusal given ((key, value) ∷ items) = do
    v ← lookup key given
    require (same v value) (value_error refusal)
    check_items refusal given items

  -- `strict` is for the script that wants texts too.
  unfoldable pub audit_probe :
      String → Bool → List (Text × Text) → ProbeCase → ProbeTask → Result (Unit {0})
  unfolding check_items lookup is_category
  audit_probe refusal strict suites c task = do
    check_items refusal c.items task.items
    suite ← lookup task.task_id suites
    require
        (text_eq c.suite_sha256 suite
          && is_category c.category
          && (if strict then c.has_texts else true))
        (value_error refusal)

  unfoldable pub audit_probes :
      String → Bool → List (Text × Text) → List ProbeCase → List ProbeTask → Result (Unit {0})
  unfolding audit_probe
  audit_probes refusal strict suites [] tasks = ok tt
  audit_probes refusal strict suites (c ∷ cases) [] = ok tt
  audit_probes refusal strict suites (c ∷ cases) (task ∷ tasks) = do
    audit_probe refusal strict suites c task
    audit_probes refusal strict suites cases tasks

  -- `sum(case['category'] == 'passed' for case in cases)`
  unfoldable pub count_passed : List ProbeCase → ℕ
  count_passed [] = 0
  count_passed (c ∷ cases) =
      if text_eq c.category (codes "passed") then count_passed cases + 1 else count_passed cases

  unfoldable pub audit_measured :
      Refusals → Bool → List (Text × Text) → List ProbeTask → Measured → Result (Unit {0})
  unfolding audit_probes count_passed
  audit_measured refusals strict suites expected measured = do
    require (measured.tasks == length expected && length measured.cases == length expected)
        (value_error refusals.count)
    audit_probes refusals.mismatch strict suites measured.cases expected
    require (measured.passed == count_passed measured.cases) (value_error refusals.pass_count)

  -- A report that measures one model, "copy".
  unfoldable pub audit_copy :
      Refusals → Text → List (Text × Text) → List ProbeTask → Functional → Result (Unit {0})
  unfolding audit_measured is_image_digest
  audit_copy refusals tasks_sha256 suites expected f = do
    require
        (text_eq f.manifest_sha256 tasks_sha256
          && same_keys (map (λ (m : Text × Measured). m.0) f.models) (codes "copy" ∷ [])
          && is_image_digest f.image)
        (value_error refusals.provenance)
    measured ← lookup (codes "copy") f.models
    audit_measured refusals false suites expected measured

  unfoldable pub curriculum_functional :
      Text → List (Text × Text) → List ProbeTask → Functional → Result (Unit {0})
  unfolding audit_copy
  curriculum_functional = audit_copy (record {
    provenance = "functional curriculum provenance differs";
    count = "functional curriculum count differs";
    mismatch = "functional curriculum case differs";
    pass_count = "functional curriculum pass count differs";
  })

  unfoldable pub namespace_functional :
      Text → List (Text × Text) → List ProbeTask → Functional → Result (Unit {0})
  unfolding audit_copy
  namespace_functional = audit_copy (record {
    provenance = "namespace functional provenance differs";
    count = "namespace functional count differs";
    mismatch = "namespace functional case differs";
    pass_count = "namespace functional pass count differs";
  })

  unfoldable pub protected_functional :
      Text → List (Text × Text) → List ProbeTask → Functional → Result (Unit {0})
  unfolding audit_copy
  protected_functional = audit_copy (record {
    provenance = "protected functional provenance differs";
    count = "protected functional count differs";
    mismatch = "protected functional case differs";
    pass_count = "protected functional pass count differs";
  })

  -- The loop over `functional['models'].values()`.
  unfoldable pub audit_models :
      Refusals → List (Text × Text) → List ProbeTask → List (Text × Measured) → Result (Unit {0})
  unfolding audit_measured
  audit_models refusals suites expected [] = ok tt
  audit_models refusals suites expected ((name, measured) ∷ models) = do
    audit_measured refusals true suites expected measured
    audit_models refusals suites expected models

  abbrev pub quality_refusals : Refusals
  quality_refusals = record {
    provenance = "functional provenance differs";
    count = "functional case count differs";
    mismatch = "functional case differs";
    pass_count = "functional pass count differs";
  }

  -- In portable_quality.py, for the models "native" and "both64".
  unfoldable pub quality_functional :
      Text → List (Text × Text) → List ProbeTask → Functional → Result (Unit {0})
  unfolding audit_models is_image_digest
  quality_functional tasks_sha256 suites expected functional = do
    require
        (text_eq functional.manifest_sha256 tasks_sha256
          && same_keys (map (λ (m : Text × Measured). m.0) functional.models)
              (codes "native" ∷ codes "both64" ∷ []))
        (value_error quality_refusals.provenance)
    require (is_image_digest functional.image) (value_error "immutable validator image required")
    audit_models quality_refusals suites expected functional.models
