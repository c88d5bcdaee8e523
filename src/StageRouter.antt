-- ===== src/StageRouter.antt =====
-- experimental_stage_router.py: the three stages with a planner for the first two and a coder for
-- the last. `call['error']` holds the exception whose text the source stores.
pub mod Runs
pub mod Laws
use npp_ai.Prelude.{
  ℕ, ◌+◌, Bool, true, false, not, Option, none, some, List, [], ◌∷◌, ◌++◌, ltb, if◌then◌else◌,
}
use npp_ai.Text.{Text, text_eq, is_blank}
use npp_ai.Python.Int.{pos}
use npp_ai.Python.Exceptions.{
  Exception, Result, ok, err, value_error, is_stage_failure, other_exception,
}
use npp_ai.Python.Exceptions
use npp_ai.Python.Exec.{Exec}
use npp_ai.Protocol.{
  GenerationRequest, GenerationResponse, FinishReason, eos, length_limit, make_request, Returned,
  model_validate,
}
use npp_ai.Staged.{
  Stage, specification, plan, code, all_stages, Artifacts, find_artifact, StageValues, stage_values,
  is_eos,
}

-- A backend with the attribute `model_id`, which is read each time.
pub record Model (W : Type 0) : Type 0 where
  pub model_id : W → Text
  pub generate : GenerationRequest → Exec W Returned

pub record Call : Type 0 where
  pub stage : Stage
  pub expected_model_id : Text
  pub request : GenerationRequest
  pub response : Option GenerationResponse
  pub error : Option Exception

pub record Routed : Type 0 where
  pub completed : Bool
  pub code : Text
  pub stages : List Call
  pub generated_tokens : ℕ

abbrev pub nothing_routed : Routed
nothing_routed = record { completed = false; code = []; stages = []; generated_tokens = 0 }

-- `coder if stage=='code' else planner`
abbrev pub by_role {ℓ} : {A : Type ℓ} → A → A → Stage → A
by_role planner coder specification = planner
by_role planner coder plan = planner
by_role planner coder code = coder

-- The tests behind a response, in order.
unfoldable pub judge : Text → GenerationResponse → Option Exception
unfolding is_eos
judge identity r =
    if not (text_eq r.model_id identity)
    then some (value_error "Unexpected checkpoint for stage role")
    else if ltb 128 r.generated_tokens
    then some (value_error "Stage token budget exceeded")
    else if is_blank r.output
    then some (value_error "Empty stage")
    else if not (is_eos r.finish_reason)
    then some (value_error "Stage token limit")
    else none

abbrev pub add_call : Routed → Call → ℕ → Routed
add_call result call tokens = record {
  completed = result.completed;
  code = result.code;
  stages = result.stages ++ (call ∷ []);
  generated_tokens = result.generated_tokens + tokens;
}

module _ {W : Type 0} (planner coder : Model W) (task : Text) where
  -- The calls inside `try`.
  unfoldable pub consult : Text → Stage → GenerationRequest → Exec W GenerationResponse
  consult identity stage payload w =
      let backend = by_role planner coder stage in
      if not (text_eq (backend.model_id w) identity)
      then (err (value_error "Stage backend identity changed"), w)
      else (let (answer, w') = backend.generate payload w in
          (Exceptions.◌>>=◌ answer model_validate, w'))

  module _ (identities : Stage → Text) where
    abbrev pub call_of :
        Stage → GenerationRequest → Option GenerationResponse → Option Exception → Call
    call_of stage payload response error = record {
      stage = stage;
      expected_model_id = identities stage;
      request = payload;
      response = response;
      error = error;
    }

    abbrev pub Next : Type 0
    Next = Artifacts → Routed → Exec W Routed

    -- The record of a response, and the early return or the next stage.
    unfoldable pub settle :
        Next
        → Stage
        → Artifacts
        → Routed
        → GenerationRequest
        → GenerationResponse
        → Option Exception
        → Exec W Routed
    settle next stage prior result payload r (some e) w =
        (ok (add_call result (call_of stage payload (some r) (some e)) r.generated_tokens), w)
    settle next stage prior result payload r none w =
        next (prior ++ ((stage, r.output) ∷ []))
          (add_call result (call_of stage payload (some r) none) r.generated_tokens) w

    unfoldable pub conclude :
        Next
        → Stage
        → Artifacts
        → Routed
        → GenerationRequest
        → Result GenerationResponse
        → Exec W Routed
    conclude next stage prior result payload (err e) w =
        if is_stage_failure e
        then (ok (add_call result (call_of stage payload none (some e)) 0), w)
        else (err e, w)
    conclude next stage prior result payload (ok r) w =
        settle next stage prior result payload r (judge (identities stage) r) w

    -- The loop over the stages; a request that is refused leaves it at once.
    unfoldable pub route : List Stage → Next
    route [] prior result w = elim (find_artifact code prior) [
      | none ↦ (err (other_exception "KeyError"), w)
      | some output ↦ (ok (record result { completed = true; code = output }), w)
    ]
    route (stage ∷ rest) prior result w =
        let values = stage_values stage task [] prior (pos 128) in
        elim (make_request values.prompt values.context [] values.max_new_tokens) [
          | err e ↦ (err e, w)
          | ok payload ↦
              let (answer, w') = consult (identities stage) stage payload w in
              conclude (route rest) stage prior result payload answer w'
        ]

  unfoldable pub run_routed : Exec W Routed
  run_routed w =
      route (by_role (planner.model_id w) (coder.model_id w)) all_stages [] nothing_routed w
