-- ===== src/StageRouter/Laws.antt =====
-- How `run_routed` ends.
use npp_ai.Prelude.{
  ◌+◌, ◌≤◌, ◌≡◌, refl, ◌⊎◌, inl, inr, true, false, none, some, List, [], ◌∷◌, ◌++◌, length, arith,
}
use npp_ai.Text.{Text, codes}
use npp_ai.Python.Exceptions.{Exception, ok}
use npp_ai.Protocol.{GenerationRequest, GenerationResponse}
use npp_ai.Staged.{
  Stage, specification, plan, code, all_stages, Artifacts, find_artifact, instruction, prior, named,
  stage_name,
}
use npp_ai.Staged.Requests.{Asks, prior_outputs, stage_values-Asks}
use npp_ai.StageRouter.{Model, Call, Routed, nothing_routed, by_role, call_of, run_routed}
use npp_ai.StageRouter.Runs.{IsAccepted, Sent, Runs, over, fails, goes_on, route-Runs}

module _ {W : Type 0} (planner coder : Model W) (task : Text) (identities : Stage → Text) where
  -- A call that is recorded without an error.
  pub record IsGood (stage : Stage) (prior : Artifacts) (told instruction : Text) (w v : W)
      (c : Call) : Type 0 where
    pub payload : GenerationRequest
    pub response : GenerationResponse
    pub asked : Asks task [] 128 instruction told payload
    pub sent : Sent planner coder task identities stage payload response w v
    pub same : c ≡ call_of planner coder task identities stage payload (some response) none
    pub accepted : IsAccepted (identities stage) response

  pub record Completed (w w' : W) (final : Routed) : Type 0 where
    pub completed : final.completed ≡ true
    pub world1 : W
    pub world2 : W
    pub first : Call
    pub second : Call
    pub third : Call
    pub good1 :
        IsGood specification [] []
          (codes "State required inputs, output and edge cases briefly. No code.")
          w
          world1
          first
    pub good2 :
        IsGood plan
          ((specification, good1.response.output) ∷ [])
          (prior_outputs ((codes "specification", good1.response.output) ∷ []))
          (codes "Give a short implementation plan. No code.")
          world1
          world2
          second
    pub good3 :
        IsGood code
          ((specification, good1.response.output) ∷ (plan, good2.response.output) ∷ [])
          (prior_outputs (
            (codes "specification", good1.response.output)
            ∷ (codes "plan", good2.response.output)
            ∷ []))
          (codes "Return only Python code satisfying the original task.")
          world2
          w'
          third
    pub stages : final.stages ≡ first ∷ second ∷ third ∷ []
    pub code_output : final.code ≡ good3.response.output
    pub total :
        final.generated_tokens
        ≡ good1.response.generated_tokens + good2.response.generated_tokens
          + good3.response.generated_tokens

  pub record Stopped (final : Routed) : Type 0 where
    pub completed : final.completed ≡ false
    pub code_empty : final.code ≡ []
    pub before : List Call
    pub last : Call
    pub error : Exception
    pub stages : final.stages ≡ before ++ (last ∷ [])
    pub few : length before ≤ 2
    pub failed : last.error ≡ some error

  Runs-outcome :
      (final : Routed) (w w' : W)
      → Runs planner coder task identities all_stages [] w w' nothing_routed final
      → Completed w w' final ⊎ Stopped final
  unfolding find_artifact instruction prior named stage_name prior_outputs
  Runs-outcome _ w w' (fails payload response tokens e asked) = inr (record {
    completed = refl;
    code_empty = refl;
    before = [];
    last = call_of planner coder task identities specification payload response (some e);
    error = e;
    stages = refl;
    few = omega arith;
    failed = refl;
  })
  Runs-outcome _ w w' (goes_on p1 r1 q1 s1 a1 (fails payload response tokens e asked)) =
      inr (record {
        completed = refl;
        code_empty = refl;
        before = call_of planner coder task identities specification p1 (some r1) none ∷ [];
        last = call_of planner coder task identities plan payload response (some e);
        error = e;
        stages = refl;
        few = omega arith;
        failed = refl;
      })
  Runs-outcome _ w w'
        (goes_on p1 r1 q1 s1 a1 (goes_on p2 r2 q2 s2 a2 (fails payload response tokens e asked))) =
      inr (record {
        completed = refl;
        code_empty = refl;
        before =
            call_of planner coder task identities specification p1 (some r1) none
            ∷ call_of planner coder task identities plan p2 (some r2) none
            ∷ [];
        last = call_of planner coder task identities code payload response (some e);
        error = e;
        stages = refl;
        few = omega arith;
        failed = refl;
      })
  Runs-outcome _ w w'
        (goes_on p1 r1 q1 s1 a1
          (goes_on p2 r2 q2 s2 a2 (goes_on p3 r3 q3 s3 a3 (over output found)))) =
      inl (record {
        completed = refl;
        world1 = _;
        world2 = _;
        first = call_of planner coder task identities specification p1 (some r1) none;
        second = call_of planner coder task identities plan p2 (some r2) none;
        third = call_of planner coder task identities code p3 (some r3) none;
        good1 = record {
          payload = p1;
          response = r1;
          asked = stage_values-Asks specification task [] [] 128 p1 q1;
          sent = s1;
          same = refl;
          accepted = a1;
        };
        good2 = record {
          payload = p2;
          response = r2;
          asked = stage_values-Asks plan task [] ((specification, r1.output) ∷ []) 128 p2 q2;
          sent = s2;
          same = refl;
          accepted = a2;
        };
        good3 = record {
          payload = p3;
          response = r3;
          asked =
              stage_values-Asks code task [] ((specification, r1.output) ∷ (plan, r2.output) ∷ [])
                128 p3 q3;
          sent = s3;
          same = refl;
          accepted = a3;
        };
        stages = refl;
        code_output = cc;
        total = omega arith;
      })

module _ {W : Type 0} (planner coder : Model W) (task : Text) where
  -- A routed run that returns has completed or stopped. It has completed after three calls in
  -- order: the planner, the planner and the coder, each with the identity it had at the start, were
  -- sent a request with the instruction of the stage and the task, the outputs before it, and a
  -- budget of 128 tokens, and each answered with the response that is recorded, within 128 tokens,
  -- ended by the model and not blank, with the third output as the code; or it stopped with no code, at most
  -- three calls, and an error in the last.
  pub run_routed-outcome :
      (final : Routed) (w w' : W)
      → run_routed planner coder task w ≡ (ok final, w')
      → let identities = by_role (planner.model_id w) (coder.model_id w) in
        Completed planner coder task identities w w' final
        ⊎ Stopped planner coder task identities final
  unfolding run_routed
  run_routed-outcome final w w' h =
      let identities = by_role (planner.model_id w) (coder.model_id w) in
      Runs-outcome planner coder task identities final w w'
        (route-Runs planner coder task identities all_stages [] nothing_routed final w w' h)
