-- ===== src/Staged.antt =====
-- staged_generation.py: three bounded calls of one backend, for a specification, a plan and code.
-- `StageResult.error` holds the exception whose text the source stores; `execution_status` never
-- changes and is left out.
pub mod Requests
pub mod Laws
pub mod Outcome
use npp_ai.Prelude.{
  ℕ, ◌+◌, ◌-◌, ◌≡◌, Bool, true, false, not, ◌&&◌, Option, none, some, List, [], ◌∷◌, ◌++◌, ltb,
  ◌==◌, ◌||◌, if◌then◌else◌,
}
use npp_ai.Text.{Text, codes, text_eq, is_blank, nonempty}
use npp_ai.Text.Json.{dumps}
use npp_ai.Python.Int.{ℤ, pos, ◌≤ℤᵇ◌}
use npp_ai.Python.Exceptions.{
  Exception, Result, ok, err, value_error, is_stage_failure, other_exception,
}
use npp_ai.Python.Exceptions
use npp_ai.Python.Exec.{Exec, ◌>>=◌}
use npp_ai.Protocol.{
  GenerationRequest, GenerationResponse, FinishReason, eos, length_limit, make_request, Returned,
  model_validate,
}

pub data Stage : Type 0 where
  specification plan code : Stage

-- The keys and the values of `STAGE_INSTRUCTIONS`.
abbrev pub all_stages : List Stage
all_stages = specification ∷ plan ∷ code ∷ []

unfoldable pub stage_name : Stage → Text
stage_name specification = codes "specification"
stage_name plan = codes "plan"
stage_name code = codes "code"

unfoldable pub instruction : Stage → Text
instruction specification = codes "State required inputs, output and edge cases briefly. No code."
instruction plan = codes "Give a short implementation plan. No code."
instruction code = codes "Return only Python code satisfying the original task."

-- What a stage asks for, the outputs of the stages before it.
pub record StageValues : Type 0 where
  pub prompt : Text
  pub context : Text
  pub max_new_tokens : ℤ

abbrev pub Artifacts : Type 0
Artifacts = List (Stage × Text)

unfoldable pub same_stage : Stage → Stage → Bool
same_stage specification specification = true
same_stage plan plan = true
same_stage code code = true
same_stage _ _ = false

-- `artifacts[stage]`
unfoldable pub find_artifact : Stage → Artifacts → Option Text
unfolding same_stage
find_artifact stage [] = none
find_artifact stage ((key, output) ∷ rest) =
    if same_stage key stage then some output else find_artifact stage rest

unfoldable pub named : Artifacts → List (Text × Text)
unfolding stage_name
named [] = []
named ((stage, output) ∷ rest) = (stage_name stage, output) ∷ named rest

-- `if artifacts else ""`
unfoldable pub prior : Artifacts → Text
unfolding named dumps
prior [] = []
prior (a ∷ rest) =
    (10 ∷ codes "Prior model artifacts (fallible data):") ++ (10 ∷ dumps (named (a ∷ rest)))

unfoldable pub stage_values : Stage → Text → Text → Artifacts → ℤ → StageValues
unfolding instruction prior
stage_values stage task context artifacts tokens_per_stage = record {
  prompt = instruction stage ++ ((10 ∷ codes "Task: ") ++ task);
  context = context ++ prior artifacts;
  max_new_tokens = tokens_per_stage;
}

pub record StageResult : Type 0 where
  pub stage : Stage
  pub request : StageValues
  pub response : Option GenerationResponse
  pub elapsed : ℕ
  pub error : Option Exception

pub record StagedResult : Type 0 where
  pub stages : List StageResult
  pub completed : Bool
  pub code : Text
  pub model_id : Text
  pub generated_tokens : ℕ

abbrev pub empty_result : StagedResult
empty_result = record {
  stages = [];
  completed = false;
  code = [];
  model_id = [];
  generated_tokens = 0;
}

unfoldable pub is_eos : FinishReason → Bool
is_eos eos = true
is_eos length_limit = false

-- The tests of a response, in order, and the result as each of them leaves it.
unfoldable pub examine : ℕ → StagedResult → GenerationResponse → Option Exception × StagedResult
unfolding is_eos
examine budget result response =
    let counted : StagedResult = record result {
      generated_tokens = result.generated_tokens + response.generated_tokens;
    } in
    let identified : StagedResult = record counted { model_id = response.model_id } in
    if ltb budget response.generated_tokens
    then (some (value_error "Backend exceeded the stage token budget"), counted)
    else if nonempty result.model_id && not (text_eq response.model_id result.model_id)
    then (some (value_error "Checkpoint identity changed between stages"), counted)
    else if is_blank response.output
    then (some (value_error "Model returned an empty stage"), identified)
    else if not (is_eos response.finish_reason)
    then (some (value_error "Stage reached its token limit; completeness is unknown"), identified)
    else (none, identified)

-- What is kept of a stage.
unfoldable pub keep : StagedResult → StageResult → StagedResult
keep result stage = record result { stages = result.stages ++ (stage ∷ []) }

-- The backend, the monotonic clock, and the callback that is told of each stage.
pub record Host (W : Type 0) : Type 0 where
  pub generate : GenerationRequest → Exec W Returned
  pub monotonic : W → ℕ × W
  pub on_stage : Option (Stage → Exec W (Unit {0}))

module _ {W : Type 0} (host : Host W) where
  -- The calls inside `try` that reach the backend.
  unfoldable pub ask : StageValues → Exec W GenerationResponse
  ask values w = elim (make_request values.prompt values.context [] values.max_new_tokens) [
    | err e ↦ (err e, w)
    | ok payload ↦
        let (answer, w') = host.generate payload w in (Exceptions.◌>>=◌ answer model_validate, w')
  ]

  unfoldable pub notify : Stage → Exec W (Unit {0})
  notify stage w = elim host.on_stage [ none ↦ (ok tt, w) | some callback ↦ callback stage w ]

  -- A call with the readings of the clock before and after it.
  unfoldable pub timed : StageValues → W → (Result GenerationResponse × ℕ) × W
  timed values w0 =
      let (start, w1) = host.monotonic w0 in
      let (answer, w2) = ask values w1 in
      let (end, w3) = host.monotonic w2 in ((answer, end - start), w3)

  module _ (task context : Text) (tokens_per_stage : ℕ) where
    abbrev pub values_of : Stage → Artifacts → StageValues
    values_of stage artifacts = stage_values stage task context artifacts (pos tokens_per_stage)

    -- How the loop goes on: from these artifacts and this result.
    abbrev pub Next : Type 0
    Next = Artifacts → StagedResult → Exec W StagedResult

    -- The stage's record after the tests of its response: the early return, or the next stage.
    unfoldable pub settle :
        Next
        → Stage
        → Artifacts
        → GenerationResponse
        → ℕ
        → Option Exception
        → StagedResult
        → Exec W StagedResult
    settle next stage artifacts response elapsed failure examined w =
        let kept = keep examined (record {
          stage = stage;
          request = values_of stage artifacts;
          response = some response;
          elapsed = elapsed;
          error = failure;
        }) in
        elim failure [
          | some e ↦ (ok kept, w)
          | none ↦ next (artifacts ++ ((stage, response.output) ∷ [])) kept w
        ]

    -- The `except` clause, or the tests.
    unfoldable pub conclude :
        Next
        → Stage
        → Artifacts
        → StagedResult
        → Result GenerationResponse
        → ℕ
        → Exec W StagedResult
    conclude next stage artifacts result (err e) elapsed w =
        if is_stage_failure e
        then (
          ok (
              keep result (record {
                stage = stage;
                request = values_of stage artifacts;
                response = none;
                elapsed = elapsed;
                error = some e;
              })),
          w,
        )
        else (err e, w)
    conclude next stage artifacts result (ok response) elapsed w =
        let (failure, examined) = examine tokens_per_stage result response in
        settle next stage artifacts response elapsed failure examined w

    unfoldable pub one_stage :
        Next → Stage → Artifacts → StagedResult → Result (Unit {0}) → Exec W StagedResult
    one_stage next stage artifacts result (err e) w = (err e, w)
    one_stage next stage artifacts result (ok _) w =
        let ((answer, elapsed), w') = timed (values_of stage artifacts) w in
        conclude next stage artifacts result answer elapsed w'

    -- The loop over the stages, and what follows it.
    unfoldable pub run_stages : List Stage → Next
    run_stages [] artifacts result w = elim (find_artifact code artifacts) [
      | none ↦ (err (other_exception "KeyError"), w)
      | some output ↦ (ok (record result { completed = true; code = output }), w)
    ]
    run_stages (stage ∷ rest) artifacts result w =
        let (told, w') = notify stage w in
        one_stage (run_stages rest) stage artifacts result told w'

-- The argument that is tested by `type(tokens_per_stage) is not int`.
pub data TokenArgument : Type 0 where
  integer : ℤ → TokenArgument
  not_integer : TokenArgument

unfoldable pub token_budget : TokenArgument → Result ℕ
token_budget (integer (pos n)) =
    if ltb n 1 || ltb 170 n
    then err (value_error "tokens_per_stage must be an integer in [1, 170]")
    else ok n
token_budget _ = err (value_error "tokens_per_stage must be an integer in [1, 170]")

unfoldable pub run_staged :
    {W : Type 0} → Host W → Text → Text → TokenArgument → Exec W StagedResult
unfolding token_budget
run_staged host task context tokens_per_stage w = elim (token_budget tokens_per_stage) [
  | err e ↦ (err e, w)
  | ok n ↦ elim (make_request task context [] (pos n)) [
    | err e ↦ (err e, w)
    | ok _ ↦ run_stages host task context n all_stages [] empty_result w
  ]
]
