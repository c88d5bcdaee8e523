-- ===== src/Server/Inference/Laws.antt =====
-- The lock and the backend of Server/Inference, in the states that the service reaches.
use npp_ai.Prelude.{
  ◌≡◌, refl, ◌⊎◌, inl, inr, Bool, true, false, Option, some, List, [], ◌∷◌, ◌++◌, arith,
}
use npp_ai.Text.{Text}
use npp_ai.Python.Int.{ℤ}
use npp_ai.Python.Exceptions.{Result}
use npp_ai.Protocol.{GenerationRequest, GenerationResponse}
use npp_ai.Server.Inference.{
  Environment, Job, Service, fresh_service, configured_inference_backend, run_job, begin, Step,
  request, cancel, finish, Steps, here, then_step,
}

-- The lock is free and nothing runs, or it is held and exactly one job runs.
abbrev pub IsExclusive : {B : Type 0} → Service B → Type 0
IsExclusive s =
    ((s.held ≡ false) × (s.running ≡ [])) ⊎ ((job : Job) × (s.held ≡ true) × (s.running ≡ job ∷ []))

only_job :
    (before after : List Job) (job other : Job)
    → before ++ (job ∷ after) ≡ other ∷ []
    → before ++ after ≡ []
only_job [] [] job other h = refl
only_job [] (x ∷ after) job other h = absurd cc
only_job (x ∷ []) after job other h = absurd cc
only_job (x ∷ (y ∷ before)) after job other h = absurd cc

no_job : (before after : List Job) (job : Job) → before ++ (job ∷ after) ≡ [] → ⊥
no_job [] after job h = cc
no_job (x ∷ before) after job h = cc

module _ {B : Type 0} (parse_int : Text → Option ℤ) (load : Text → ℤ → Bool → Result B)
    (generate : B → GenerationRequest → Result GenerationResponse) (env : Environment) where
  begin-IsExclusive :
      (job : Job) (starts : Bool) (s : Service B)
      → IsExclusive s
      → IsExclusive (begin parse_int load generate job starts s).1
  unfolding begin
  begin-IsExclusive job true s (inl (free, idle)) = rw free (inr (job, refl, rw idle))
  begin-IsExclusive job false s (inl (free, idle)) = rw free (inl (refl, idle))
  begin-IsExclusive job starts s (inr (other, busy, one)) = rw busy (inr (other, refl, one))

  Step-IsExclusive :
      (s t : Service B) → IsExclusive s → Step parse_int load generate env s t → IsExclusive t
  unfolding run_job
  Step-IsExclusive s _ x (request job starts _) = begin-IsExclusive job starts s x
  Step-IsExclusive s _ x (cancel _) = x
  Step-IsExclusive s _ (inl (free, idle)) (finish before after job _ e) =
      absurd (no_job before after job cc)
  Step-IsExclusive s _ (inr (other, busy, one)) (finish before after job _ e) =
      inl (refl, only_job before after job other cc)

  -- In every state that the service reaches, either the lock is free and no job runs, or it is
  -- held and exactly one job runs: jobs never overlap, and the lock is not lost.
  pub Steps-IsExclusive :
      (s : Service B) → Steps parse_int load generate env fresh_service s → IsExclusive s
  Steps-IsExclusive s here = inl (refl, refl)
  Steps-IsExclusive s (then_step {t = t} before step) =
      Step-IsExclusive t s (Steps-IsExclusive t before) step

  Step-backend :
      (s t : Service B) (b : B)
      → s.backend ≡ some b
      → Step parse_int load generate env s t
      → t.backend ≡ some b
  unfolding run_job begin configured_inference_backend
  Step-backend s _ b h (request job starts _) = ground arith
  Step-backend s _ b h (cancel _) = h
  Step-backend s _ b h (finish before after job _ e) = rw h

  -- Once a checkpoint is loaded it answers every later request: no step replaces or drops it.
  pub Steps-backend :
      (s t : Service B) (b : B)
      → s.backend ≡ some b
      → Steps parse_int load generate env s t
      → t.backend ≡ some b
  Steps-backend s _ b h here = h
  Steps-backend s t b h (then_step {t = m} before step) =
      Step-backend m t b (Steps-backend s m b h before) step
