-- ===== src/Staged/Requests.antt =====
-- What the request of a stage asks for.
use npp_ai.Prelude.{ℕ, ◌≡◌, List, [], ◌∷◌, ◌++◌}
use npp_ai.Text.{Text, codes}
use npp_ai.Text.Json.{dumps}
use npp_ai.Python.Int.{pos}
use npp_ai.Python.Exceptions.{ok}
use npp_ai.Protocol.{GenerationRequest, make_request}
use npp_ai.Protocol.Laws.{make_request-keeps}
use npp_ai.Staged.{Stage, Artifacts, stage_values, instruction, prior}

-- The instruction with the task, the context with what is said of the outputs so far, and the budget.
pub record Asks (task context : Text) (budget : ℕ) (instruction told : Text)
    (payload : GenerationRequest) : Type 0 where
  pub prompt : payload.prompt ≡ instruction ++ ((10 ∷ codes "Task: ") ++ task)
  pub context_and_outputs : payload.context ≡ context ++ told
  pub max_new_tokens : payload.max_new_tokens ≡ budget

-- What the context says of the outputs so far.
unfoldable pub prior_outputs : List (Text × Text) → Text
prior_outputs outputs =
    (10 ∷ codes "Prior model artifacts (fallible data):") ++ (10 ∷ dumps outputs)

pub stage_values-Asks :
    (stage : Stage) (task context : Text) (artifacts : Artifacts) (budget : ℕ)
    (payload : GenerationRequest)
    → let values = stage_values stage task context artifacts (pos budget) in
      make_request values.prompt values.context [] values.max_new_tokens ≡ ok payload
      → Asks task context budget (instruction stage) (prior artifacts) payload
unfolding stage_values
stage_values-Asks stage task context artifacts budget payload h =
    let (p, c, n) = make_request-keeps _ _ _ budget payload h in
    record { prompt = p; context_and_outputs = c; max_new_tokens = n }
