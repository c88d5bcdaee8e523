-- ===== src/Staged/Outcome.antt =====
-- How `run_staged` ends.
use npp_ai.Prelude.{
  ℕ, ◌+◌, ◌≤◌, ◌≡◌, refl, ◌∙◌, ap, sym, subst, ◌⊎◌, inl, inr, true, false, some, List, [], ◌∷◌,
  ◌++◌, length, arith,
}
use npp_ai.Text.{Text, codes, is_blank, nonempty}
use npp_ai.Python.Int.{pos, negsuc}
use npp_ai.Python.Exceptions.{Exception, Result, ok, err}
use npp_ai.Protocol.{GenerationRequest, GenerationResponse, eos, make_request}
use npp_ai.Protocol.Laws.{IsResponse}
use npp_ai.Staged.Requests.{Asks, prior_outputs, stage_values-Asks}
use npp_ai.Staged.{
  instruction, prior, named, stage_name, specification, plan, code, all_stages, StageResult,
  StagedResult, empty_result, Host, run_stages, find_artifact, TokenArgument, integer, not_integer,
  token_budget, run_staged,
}
use npp_ai.Staged.Laws.{
  Passes, passed, advanced, Fails, Proceeds, MakesValid, Consulted, run_stages-outcome,
}

module _ {W : Type 0} (host : Host W) (task context : Text) (budget : ℕ) where
  -- All three stages passed: their records, in order, each within the budget, complete and not
  -- blank, by one model, and the code is the last output. From the first world to the last, the
  -- backend was sent three requests, each with the outputs before it, and answered each with the
  -- response that is recorded.
  pub record Completed (w w' : W) (final : StagedResult) : Type 0 where
    pub completed : final.completed ≡ true
    pub first : GenerationResponse
    pub second : GenerationResponse
    pub third : GenerationResponse
    pub elapsed1 : ℕ
    pub elapsed2 : ℕ
    pub elapsed3 : ℕ
    pub stages :
        final.stages
        ≡ passed host task context budget specification [] first elapsed1
          ∷ passed host task context budget plan
              ((specification, first.output) ∷ [])
              second
              elapsed2
          ∷ passed host task context budget code
              ((specification, first.output) ∷ (plan, second.output) ∷ [])
              third
              elapsed3
          ∷ []
    pub world1 : W
    pub world2 : W
    pub sent1 : Consulted host task context budget specification [] first elapsed1 w world1
    pub sent2 :
        Consulted host task context budget plan
          ((specification, first.output) ∷ [])
          second
          elapsed2
          world1
          world2
    pub sent3 :
        Consulted host task context budget code
          ((specification, first.output) ∷ (plan, second.output) ∷ [])
          third
          elapsed3
          world2
          w'
    pub asked1 :
        Asks task context budget
          (codes "State required inputs, output and edge cases briefly. No code.")
          []
          sent1.payload
    pub asked2 :
        Asks task context budget
          (codes "Give a short implementation plan. No code.")
          (prior_outputs ((codes "specification", first.output) ∷ []))
          sent2.payload
    pub asked3 :
        Asks task context budget
          (codes "Return only Python code satisfying the original task.")
          (prior_outputs
            ((codes "specification", first.output) ∷ (codes "plan", second.output) ∷ []))
          sent3.payload
    pub code_output : final.code ≡ third.output
    pub passes1 : Passes budget empty_result first
    pub passes2 :
        Passes budget
          (advanced host task context budget empty_result specification [] first elapsed1)
          second
    pub same_model :
        (second.model_id ≡ first.model_id)
        × (third.model_id ≡ first.model_id)
        × (final.model_id ≡ first.model_id)
    pub within3 : third.generated_tokens ≤ budget
    pub solid3 : is_blank third.output ≡ false
    pub reason3 : third.finish_reason ≡ eos
    pub total :
        final.generated_tokens
        ≡ first.generated_tokens + second.generated_tokens + third.generated_tokens

  -- The run stopped early: no code, at most three records, and the last of them has the error.
  pub record Stopped (final : StagedResult) : Type 0 where
    pub completed : final.completed ≡ false
    pub code_empty : final.code ≡ []
    pub before : List StageResult
    pub last : StageResult
    pub error : Exception
    pub stages : final.stages ≡ before ++ (last ∷ [])
    pub few : length before ≤ 2
    pub failed : last.error ≡ some error

  Stopped-of :
      (result final : StagedResult)
      → Fails host task context budget result final
      → result.completed ≡ false
      → result.code ≡ []
      → length result.stages ≤ 2
      → Stopped final
  Stopped-of result final f c d few = record {
    completed = f.completed ∙ c;
    code_empty = f.code ∙ d;
    before = result.stages;
    last = f.last;
    error = f.error;
    stages = f.stages;
    few = few;
    failed = f.failed;
  }

  nonempty_of_IsResponse : (r : GenerationResponse) → IsResponse r → nonempty r.model_id ≡ true
  nonempty_of_IsResponse r v = ground (arith, v.id_min)

  finished :
      (first second third : GenerationResponse) (result final : StagedResult) (w w' : W)
      → run_stages host task context budget []
          ((specification, first.output) ∷ (plan, second.output) ∷ (code, third.output) ∷ [])
          result
          w
        ≡ (ok final, w')
      → (record result { completed = true; code = third.output } ≡ final) × (w ≡ w')
  unfolding run_stages find_artifact
  finished first second third result final w w' h = (cc, cc)

  module _ (final : StagedResult) (w w' : W) where
    Completed-of :
        (p1 : Proceeds host task context budget
          (run_stages host task context budget (plan ∷ code ∷ []))
          specification
          []
          empty_result
          final
          w
          w')
        (p2 : Proceeds host task context budget
          (run_stages host task context budget (code ∷ []))
          plan
          ((specification, p1.response.output) ∷ [])
          (advanced host task context budget empty_result specification [] p1.response p1.elapsed)
          final
          p1.world
          w')
        (p3 : Proceeds host task context budget
          (run_stages host task context budget [])
          code
          ((specification, p1.response.output) ∷ (plan, p2.response.output) ∷ [])
          (advanced host task context budget
            (advanced host task context budget empty_result specification [] p1.response p1.elapsed)
            plan
            ((specification, p1.response.output) ∷ [])
            p2.response
            p2.elapsed)
          final
          p2.world
          w')
        → Completed w w' final
    unfolding instruction prior named stage_name prior_outputs
    Completed-of p1 p2 p3 =
        let (same, ends) =
          finished p1.response p2.response p3.response _ final p3.world w' p3.rest in
        let second : p2.response.model_id ≡ p1.response.model_id =
          p2.passes.identity (nonempty_of_IsResponse p1.response p1.valid) in
        let third : p3.response.model_id ≡ p2.response.model_id =
          p3.passes.identity (nonempty_of_IsResponse p2.response p2.valid) in
        let sent3 : Consulted host task context budget code
            ((specification, p1.response.output) ∷ (plan, p2.response.output) ∷ []) p3.response
            p3.elapsed p2.world w' =
          subst
            (Consulted host task context budget code
              ((specification, p1.response.output) ∷ (plan, p2.response.output) ∷ []) p3.response
              p3.elapsed p2.world)
            ends p3.consulted in
        record {
          completed = ap (λ (r : StagedResult). r.completed) (sym same);
          first = p1.response;
          second = p2.response;
          third = p3.response;
          elapsed1 = p1.elapsed;
          elapsed2 = p2.elapsed;
          elapsed3 = p3.elapsed;
          stages = ap (λ (r : StagedResult). r.stages) (sym same);
          world1 = p1.world;
          world2 = p2.world;
          sent1 = p1.consulted;
          sent2 = p2.consulted;
          sent3 = sent3;
          asked1 =
              stage_values-Asks specification task context [] budget p1.consulted.payload
                p1.consulted.made;
          asked2 =
              stage_values-Asks plan task context ((specification, p1.response.output) ∷ []) budget
                p2.consulted.payload p2.consulted.made;
          asked3 =
              stage_values-Asks code task context
                ((specification, p1.response.output) ∷ (plan, p2.response.output) ∷ []) budget
                sent3.payload sent3.made;
          code_output = ap (λ (r : StagedResult). r.code) (sym same);
          passes1 = p1.passes;
          passes2 = p2.passes;
          same_model = (
            second,
            third ∙ second,
            ap (λ (r : StagedResult). r.model_id) (sym same) ∙ third ∙ second,
          );
          within3 = p3.passes.tokens;
          solid3 = p3.passes.output;
          reason3 = p3.passes.reason;
          total = ap (λ (r : StagedResult). r.generated_tokens) (sym same) ∙ omega arith;
        }

  run-outcome :
      MakesValid host
      → (final : StagedResult) (w w' : W)
      → run_stages host task context budget all_stages [] empty_result w ≡ (ok final, w')
      → Completed w w' final ⊎ Stopped final
  run-outcome honest final w w' h =
      let after1 = λ (r : GenerationResponse) (n : ℕ).
        advanced host task context budget empty_result specification [] r n in
      let after2 = λ (r1 r2 : GenerationResponse) (n1 n2 : ℕ).
        advanced host task context budget (after1 r1 n1) plan ((specification, r1.output) ∷ []) r2
          n2 in
      elim (run_stages-outcome host task context budget honest specification (plan ∷ code ∷ []) []
        empty_result final w w' h) [
          | inl f ↦ inr (Stopped-of empty_result final f refl refl (omega arith))
          | inr p1 ↦
              elim (run_stages-outcome host task context budget honest plan (code ∷ []) _ _ final
                p1.world w' p1.rest) [
                  | inl f ↦
                      inr
                        (Stopped-of (after1 p1.response p1.elapsed) final f refl refl (omega arith))
                  | inr p2 ↦
                      elim (run_stages-outcome host task context budget honest code [] _ _ final
                        p2.world w' p2.rest) [
                          | inl f ↦ inr (
                              Stopped-of (after2 p1.response p2.response p1.elapsed p2.elapsed)
                                final f refl refl (omega arith))
                          | inr p3 ↦ inl (Completed-of final w w' p1 p2 p3)
                        ]
                ]
        ]

-- A run that returns has either completed or stopped. It has completed after three stages in
-- order, each within the token budget, ended by the model, not blank and by one model, with the third
-- output as the code, and the backend was sent three requests, the instruction of the stage with
-- the task, the context with the outputs before it, and the budget, and answered each with the response
-- that is recorded; or it stopped with no code, at
-- most three records, and an error in the last. `tokens_per_stage` was an integer in [1, 170]. The
-- responses that the backend hands over as objects are assumed to have been validated when made.
pub run_staged-outcome :
    {W : Type 0} (host : Host W) (task context : Text) (argument : TokenArgument)
    (final : StagedResult) (w w' : W)
    → MakesValid host
    → run_staged host task context argument w ≡ (ok final, w')
    → (budget : ℕ) × (argument ≡ integer (pos budget))
      × (1 ≤ budget)
      × (budget ≤ 170)
      × (Completed host task context budget w w' final ⊎ Stopped host task context budget final)
unfolding run_staged token_budget
run_staged-outcome host task context argument final w w' honest h =
    checked (token_budget argument) refl
  where
    in_range :
        (a : TokenArgument) (n : ℕ)
        → token_budget a ≡ ok n
        → (a ≡ integer (pos n)) × (1 ≤ n) × (n ≤ 170)
    in_range (integer (pos m)) n e = ground arith
    in_range (integer (negsuc m)) n e = cc
    in_range not_integer n e = cc

    valid :
        (n : ℕ) (m : Result GenerationRequest)
        → token_budget argument ≡ ok n
        → make_request task context [] (pos n) ≡ m
        → Completed host task context n w w' final ⊎ Stopped host task context n final
    valid n (ok p) b e =
        run-outcome host task context n honest final w w' (rw (b, e, run_staged) at h)
    valid n (err x) b e = absurd (cc (rw (b, e, run_staged) at h))

    checked :
        (b : Result ℕ)
        → token_budget argument ≡ b
        → (budget : ℕ) × (argument ≡ integer (pos budget))
          × (1 ≤ budget)
          × (budget ≤ 170)
          × (Completed host task context budget w w' final ⊎ Stopped host task context budget final)
    checked (ok n) e =
        let (a, low, high) = in_range argument n e in
        (n, a, low, high, valid n (make_request task context [] (pos n)) e refl)
    checked (err x) e = absurd (cc (rw (e, run_staged) at h))
