-- ===== src/Server/Inference.antt =====
-- The inference lock of server_backend.py, the backend that it protects, and the handlers that
-- take it. What runs is a list of jobs in the executor; the constructor of `DenseLocalBackend`, its
-- `generate` and the parser of `int(…)` are parameters.
pub mod Laws
use npp_ai.Prelude.{
  ℕ, Bool, true, false, not, ◌&&◌, ◌||◌, ◌≡◌, Option, none, some, List, [], ◌∷◌, ◌++◌,
  if◌then◌else◌,
}
use npp_ai.Text.{Text, codes, text_eq}
use npp_ai.Python.Int.{ℤ}
use npp_ai.Python.Exceptions.{
  Exception, Result, ok, err, backend_unavailable, http_exception, is_value_error,
  is_backend_unavailable,
}
use npp_ai.Python.Exceptions
use npp_ai.Protocol.{GenerationRequest, GenerationResponse}

-- `NPPAI_INFERENCE_MODEL`, `NPPAI_PROMPT_BYTES` and `NPPAI_PYTHON_FUNCTIONS`.
pub record Environment : Type 0 where
  pub model : Option Text
  pub prompt_bytes : Option Text
  pub python_functions : Option Text

-- `os.getenv(name, "0")`
or_zero : Option Text → Text
or_zero none = codes "0"
or_zero (some text) = text

-- What the executor runs: `generate_with_configured_model`, or `inspect_configured_model`.
pub data Job : Type 0 where
  generate_job : GenerationRequest → Job
  inspect_job : Job

pub data Answer : Type 0 where
  generated : GenerationResponse → Answer
  ready : Answer

-- Other parts of the process see the lock and the backend, and the executor its jobs.
pub record Service (B : Type 0) : Type 0 where
  pub held : Bool
  pub backend : Option B
  pub running : List Job

abbrev pub fresh_service : {B : Type 0} → Service B
fresh_service = record { held = false; backend = none; running = [] }

-- The configuration of a backend: where it is, and `prompt_bytes` and `python_functions`.
module _ {B : Type 0} (parse_int : Text → Option ℤ) (load : Text → ℤ → Bool → Result B) where
  -- `except ValueError` around the constructor.
  keep_loaded : Result B → Result B × Option B
  keep_loaded (ok b) = (ok b, some b)
  keep_loaded (err e) =
      if is_value_error e
      then (err (backend_unavailable "Invalid inference profile"), none)
      else (err e, none)

  configure : Environment → Text → Result B × Option B
  unfolding or_zero keep_loaded
  configure env path = elim (parse_int (or_zero env.prompt_bytes)) [
    | none ↦ (err (backend_unavailable "Invalid NPPAI_PROMPT_BYTES"), none)
    | some width ↦
        let profile = or_zero env.python_functions in
        if not (text_eq profile (codes "0")) && not (text_eq profile (codes "1"))
        then (err (backend_unavailable "Invalid NPPAI_PYTHON_FUNCTIONS"), none)
        else keep_loaded (load path width (text_eq profile (codes "1")))
  ]

  -- The result, and `inference_backend` behind the call.
  unfoldable pub configured_inference_backend : Environment → Option B → Result B × Option B
  unfolding configure
  configured_inference_backend env (some b) = (ok b, some b)
  configured_inference_backend env none = elim env.model [
    | none ↦ (err (backend_unavailable "Inference model is not configured"), none)
    | some [] ↦ (err (backend_unavailable "Inference model is not configured"), none)
    | some (c ∷ path) ↦ configure env (c ∷ path)
  ]

  module _ (generate : B → GenerationRequest → Result GenerationResponse) where
    answer_of : Job → Result B → Result Answer
    answer_of job (err e) = err e
    answer_of inspect_job (ok b) = ok ready
    answer_of (generate_job payload) (ok b) = elim (generate b payload) [
      | err e ↦ err e
      | ok r ↦ ok (generated r)
    ]

    -- A job that is run to its end; `finally` releases the lock.
    unfoldable pub run_job : Environment → List Job → Job → Service B → Result Answer × Service B
    unfolding answer_of
    run_job env others job s =
        let (found, backend) = configured_inference_backend env s.backend in
        (answer_of job found, record { held = false; backend = backend; running = others })

    -- A handler up to its `await`: the lock is tried, and released where the executor refuses.
    unfoldable pub begin : Job → Bool → Service B → Option Exception × Service B
    begin job starts s =
        if s.held
        then (some (http_exception 503 "Inference is busy"), s)
        else if starts
        then (none, record s { held = true; running = s.running ++ (job ∷ []) })
        else (
          some (Exceptions.runtime_error "cannot schedule new futures after shutdown"),
          record s { held = false },
        )

    -- What can happen next: a request comes, or one of the jobs ends. A client that goes away
    -- changes nothing, since the handler shields the job.
    pub data Step (env : Environment) : Service B → Service B → Type 0 where
      request : (job : Job) (starts : Bool) (s : Service B) → Step env s (begin job starts s).1
      cancel : (s : Service B) → Step env s s
      finish :
          (before after : List Job) (job : Job) (s : Service B)
          → s.running ≡ before ++ (job ∷ after)
          → Step env s (run_job env (before ++ after) job s).1

    pub data Steps (env : Environment) : Service B → Service B → Type 0 where
      here : {s : Service B} → Steps env s s
      then_step : {s t u : Service B} → Steps env s t → Step env t u → Steps env s u

-- The `except` clauses of `generate_code`.
pub generate_error : Exception → Exception
generate_error e =
    if is_backend_unavailable e
    then http_exception 503 "Inference model unavailable"
    else if is_value_error e
    then http_exception 422 "Request exceeds model capacity"
    else http_exception 500 "Inference failed"
