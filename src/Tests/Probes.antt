-- ===== src/Tests/Probes.antt =====
-- A quality report with one task for two models, one of which passed.
use npp_ai.Prelude.{ℕ, ◌≡◌, refl, Bool, true, [], ◌∷◌, ◌++◌, replicate, Each, ◌==◌}
use npp_ai.Text.{Text, codes, text_eq}
use npp_ai.Python.Exceptions.{ok}
use npp_ai.Training.Probes.{ProbeTask, ProbeCase, Measured, Functional, quality_functional}
use npp_ai.Training.Probes.Laws.{Counted, quality_functional-Counted}

abbrev same_value : ℕ → ℕ → Bool
same_value a b = a == b

abbrev one_task : ProbeTask same_value
one_task = record {
  task_id = codes "t";
  items = (codes "task_id", 1) ∷ (codes "cases_file", 2) ∷ [];
}

abbrev probed : Text → ProbeCase same_value
probed category = record {
  items = (codes "cases_file", 2) ∷ (codes "task_id", 1) ∷ [];
  suite_sha256 = codes "s";
  category = category;
  has_texts = true;
}

abbrev functional_t : Functional same_value
functional_t = record {
  manifest_sha256 = codes "m";
  models =
      (codes "both64", record { tasks = 1; cases = probed (codes "passed") ∷ []; passed = 1 })
      ∷ ((codes "native", record { tasks = 1; cases = probed (codes "empty") ∷ []; passed = 0 })
          ∷ []);
  image = codes "sha256:" ++ replicate 64 48;
}

audited_t :
    quality_functional same_value
      (codes "m")
      ((codes "t", codes "s") ∷ [])
      (one_task ∷ [])
      functional_t
    ≡ ok tt
unfolding quality_functional text_eq npp_ai.Training.Score.same_keys
    npp_ai.Training.Probes.is_image_digest npp_ai.Training.Trace.is_digest
    npp_ai.Training.Trace.is_hex_digit npp_ai.Text.starts_with npp_ai.Training.Probes.is_category
    npp_ai.Training.Probes.lookup
audited_t = refl

quality_functional-Counted_example :
    (functional_t.manifest_sha256 ≡ codes "m")
    × Each
        (λ (m : Text × Measured same_value).
          Counted same_value ((codes "t", codes "s") ∷ []) (one_task ∷ []) m.1)
        functional_t.models
quality_functional-Counted_example =
    quality_functional-Counted same_value (codes "m") ((codes "t", codes "s") ∷ []) (one_task ∷ [])
      functional_t audited_t
