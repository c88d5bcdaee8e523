-- ===== src/Tests/Inference.antt =====
-- A generation that starts and ends, with a backend that is its path.
use npp_ai.Prelude.{◌≡◌, refl, Bool, true, Option, none, some, [], ◌∷◌}
use npp_ai.Text.{Text, codes}
use npp_ai.Python.Int.{ℤ, pos}
use npp_ai.Python.Exceptions.{Result, ok}
use npp_ai.Protocol.{GenerationRequest, GenerationResponse, eos}
use npp_ai.Server.Inference.{
  Environment, inspect_job, Service, fresh_service, configured_inference_backend, run_job, begin,
  Steps, here, then_step, request, finish,
}
use npp_ai.Server.Inference.Laws.{IsExclusive, Steps-IsExclusive, Steps-backend}

abbrev parse_zero : Text → Option ℤ
parse_zero text = some (pos 0)

abbrev load_path : Text → ℤ → Bool → Result Text
load_path path width functions = ok path

abbrev say_ok : Text → GenerationRequest → Result GenerationResponse
say_ok path payload =
    ok (record { model_id = path; output = codes "ok"; generated_tokens = 2; finish_reason = eos })

abbrev one_model : Environment
one_model = record { model = some (codes "m"); prompt_bytes = none; python_functions = none }

abbrev started : Service Text
started = (begin parse_zero load_path say_ok inspect_job true fresh_service).1

started_running : started.running ≡ inspect_job ∷ []
unfolding begin
started_running = refl

abbrev ended : Service Text
ended = (run_job parse_zero load_path say_ok one_model [] inspect_job started).1

start_and_end : Steps parse_zero load_path say_ok one_model fresh_service ended
start_and_end =
    then_step (then_step here (request inspect_job true fresh_service))
      (finish [] [] inspect_job started started_running)

ended_backend : ended.backend ≡ some (codes "m")
unfolding begin run_job configured_inference_backend npp_ai.Text.text_eq
ended_backend = refl

Steps-IsExclusive_example : IsExclusive ended
Steps-IsExclusive_example =
    Steps-IsExclusive parse_zero load_path say_ok one_model ended start_and_end

Steps-backend_example :
    (begin parse_zero load_path say_ok inspect_job true ended).1.backend ≡ some (codes "m")
Steps-backend_example =
    Steps-backend parse_zero load_path say_ok one_model ended
      (begin parse_zero load_path say_ok inspect_job true ended).1 (codes "m") ended_backend
      (then_step here (request inspect_job true ended))
