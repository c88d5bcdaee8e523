-- ===== src/Tests/StageRouter.antt =====
-- A run of experimental_stage_router.py with two models that always give the same answer.
use npp_ai.Prelude.{ℕ, ◌≡◌, refl, ◌⊎◌}
use npp_ai.Text.{Text, codes, text_eq}
use npp_ai.Python.Int.{pos}
use npp_ai.Python.Exceptions.{Result, ok, err}
use npp_ai.Protocol.{eos, fields}
use npp_ai.StageRouter.{Model, Routed, nothing_routed, by_role, run_routed}
use npp_ai.StageRouter.Laws.{Completed, Stopped, run_routed-outcome}

abbrev saying : Text → Model ℕ
saying name = record {
  model_id = λ w. name;
  generate = λ payload w. (
    ok (
        fields (record {
          protocol_version = pos 1;
          model_id = name;
          output = codes "x";
          generated_tokens = pos 2;
          finish_reason = eos;
        })),
    w,
  );
}

abbrev planner : Model ℕ
planner = saying (codes "p")

abbrev coder : Model ℕ
coder = saying (codes "c")

abbrev after_run : Result Routed × ℕ
after_run = run_routed planner coder (codes "t") 0

abbrev routed : Routed
routed = elim after_run.0 [ ok final ↦ final | err e ↦ nothing_routed ]

run_ends : after_run ≡ (ok routed, 0)
unfolding run_routed npp_ai.StageRouter.route npp_ai.StageRouter.consult npp_ai.StageRouter.conclude
    npp_ai.StageRouter.settle npp_ai.StageRouter.judge npp_ai.Protocol.make_request
    npp_ai.Protocol.model_validate npp_ai.Protocol.make_response npp_ai.Protocol.text_field
    npp_ai.Protocol.int_field npp_ai.Text.Utf8.is_text npp_ai.Text.Utf8.is_scalar
    npp_ai.Staged.stage_values npp_ai.Staged.find_artifact npp_ai.Staged.is_eos
    npp_ai.Staged.instruction npp_ai.Staged.named npp_ai.Staged.prior npp_ai.Staged.same_stage
    npp_ai.Staged.stage_name npp_ai.Text.is_blank npp_ai.Text.is_space text_eq
    npp_ai.Text.Json.dumps npp_ai.Text.Json.escape npp_ai.Text.Json.escape_char
    npp_ai.Text.Hex.hex_digit npp_ai.Text.Json.members npp_ai.Text.Json.quoted
run_ends = refl

run_routed-outcome_example :
    Completed planner coder (codes "t") (by_role (codes "p") (codes "c")) 0 0 routed
    ⊎ Stopped planner coder (codes "t") (by_role (codes "p") (codes "c")) routed
run_routed-outcome_example = run_routed-outcome planner coder (codes "t") routed 0 0 run_ends
