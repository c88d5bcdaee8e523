-- ===== src/Tests/Staged.antt =====
-- Runs of staged_generation.py with backends that always give the same answer.
use npp_ai.Prelude.{ℕ, ◌≤◌, ◌≡◌, refl, ◌⊎◌, true, none, []}
use npp_ai.Text.{codes, text_eq, is_blank}
use npp_ai.Text.Utf8.{is_text}
use npp_ai.Python.Int.{pos}
use npp_ai.Python.Exceptions.{Result, ok, err}
use npp_ai.Protocol.{
  GenerationRequest, eos, length_limit, make_request, Returned, fields, make_response,
  model_validate,
}
use npp_ai.Staged.{
  Host, TokenArgument, integer, empty_result, run_staged, run_stages, StagedResult, examine, keep,
  find_artifact, stage_values, stage_name, instruction, ask, notify, timed, settle, conclude,
  one_stage,
}
use npp_ai.Staged.Laws.{MakesValid}
use npp_ai.Staged.Outcome.{Completed, Stopped, run_staged-outcome}

-- It answers "x" with two tokens; the world is the clock.
abbrev echo : Host ℕ
echo = record {
  generate = λ p w. (
    ok (
        fields (record {
          protocol_version = pos 1;
          model_id = codes "m";
          output = codes "x";
          generated_tokens = pos 2;
          finish_reason = eos;
        })),
    w,
  );
  monotonic = λ w. (w, w);
  on_stage = none;
}

abbrev after_echo : Result StagedResult × ℕ
after_echo = run_staged echo (codes "t") [] (integer (pos 2)) 0

abbrev echoed : StagedResult
echoed = elim after_echo.0 [ ok final ↦ final | err e ↦ empty_result ]

echo_runs : after_echo ≡ (ok echoed, 0)
unfolding run_staged make_request is_text npp_ai.Text.Utf8.is_scalar run_stages one_stage notify
    conclude timed ask stage_values model_validate settle examine is_blank npp_ai.Text.is_space keep
    text_eq npp_ai.Protocol.int_field make_response npp_ai.Protocol.text_field find_artifact
    instruction npp_ai.Staged.is_eos npp_ai.Staged.named npp_ai.Staged.prior
    npp_ai.Staged.same_stage stage_name npp_ai.Staged.token_budget npp_ai.Text.Json.dumps
    npp_ai.Text.Json.escape npp_ai.Text.Json.escape_char npp_ai.Text.Hex.hex_digit
    npp_ai.Text.Json.members npp_ai.Text.Json.quoted
echo_runs = refl

echo_completes :
    (echoed.completed ≡ true) × (echoed.code ≡ codes "x") × (echoed.generated_tokens ≡ 6)
unfolding run_staged make_request is_text npp_ai.Text.Utf8.is_scalar run_stages one_stage notify
    conclude timed ask stage_values model_validate settle examine is_blank npp_ai.Text.is_space keep
    text_eq npp_ai.Protocol.int_field make_response npp_ai.Protocol.text_field find_artifact
    instruction npp_ai.Staged.is_eos npp_ai.Staged.named npp_ai.Staged.prior
    npp_ai.Staged.same_stage stage_name npp_ai.Staged.token_budget npp_ai.Text.Json.dumps
    npp_ai.Text.Json.escape npp_ai.Text.Json.escape_char npp_ai.Text.Hex.hex_digit
    npp_ai.Text.Json.members npp_ai.Text.Json.quoted
echo_completes = (refl, refl, refl)

MakesValid-echo : MakesValid echo
MakesValid-echo p v r h = cc

run_staged-outcome_example :
    (budget : ℕ) × (integer (pos 2) ≡ integer (pos budget))
    × (1 ≤ budget)
    × (budget ≤ 170)
    × (Completed echo (codes "t") [] budget 0 0 echoed ⊎ Stopped echo (codes "t") [] budget echoed)
run_staged-outcome_example =
    run_staged-outcome echo (codes "t") [] (integer (pos 2)) echoed 0 0 MakesValid-echo echo_runs
