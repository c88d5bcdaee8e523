-- ===== src/Staged/Laws.antt =====
-- A stage of `run_staged`: what its tests let through, and how the run goes on behind it.
use npp_ai.Prelude.{
  ℕ, ◌+◌, ◌-◌, ◌≤◌, ◌≡◌, refl, ◌∙◌, ap, sym, subst, ◌⊎◌, inl, inr, true, false, Bool-cases, Option,
  none, some, List, [], ◌∷◌, ◌++◌, arith,
}
use npp_ai.Text.{Text, is_blank, nonempty}
use npp_ai.Text.Laws.{eq_of_text_eq}
use npp_ai.Python.Exceptions.{Exception, Result, ok, err, is_stage_failure}
use npp_ai.Python.Exceptions
use npp_ai.Protocol.{
  GenerationRequest, GenerationResponse, eos, Returned, instance_of, fields, malformed,
  make_request, model_validate,
}
use npp_ai.Protocol.Laws.{IsResponse, make_response-IsResponse}
use npp_ai.Staged.{
  Stage, StageValues, Artifacts, StageResult, StagedResult, examine, keep, Host, ask, notify, timed,
  values_of, Next, settle, conclude, one_stage, run_stages,
}

-- What the tests of a response let through.
pub record Passes (budget : ℕ) (result : StagedResult) (r : GenerationResponse) : Type 0 where
  pub tokens : r.generated_tokens ≤ budget
  pub identity : nonempty result.model_id ≡ true → r.model_id ≡ result.model_id
  pub output : is_blank r.output ≡ false
  pub reason : r.finish_reason ≡ eos

pub examine-Passes :
    (budget : ℕ) (result : StagedResult) (r : GenerationResponse)
    → (examine budget result r).0 ≡ none
    → Passes budget result r
unfolding examine
examine-Passes budget result r h = record {
  tokens = ground arith;
  identity = λ known. eq_of_text_eq r.model_id result.model_id (ground arith);
  output = ground arith;
  reason = ground arith;
}

-- The result that the next stage starts from.
examine-result :
    (budget : ℕ) (result : StagedResult) (r : GenerationResponse)
    → (examine budget result r).0 ≡ none
    → (examine budget result r).1 ≡ record result {
      model_id = r.model_id;
      generated_tokens = result.generated_tokens + r.generated_tokens;
    }
unfolding examine
examine-result budget result r h = ground arith

-- An examination leaves the code and the stages as they were.
examine-keeps :
    (budget : ℕ) (result : StagedResult) (r : GenerationResponse)
    → ((examine budget result r).1.code ≡ result.code)
      × ((examine budget result r).1.completed ≡ result.completed)
      × ((examine budget result r).1.stages ≡ result.stages)
unfolding examine
examine-keeps budget result r = ground arith

-- A response that the backend makes itself has been validated when it was made.
abbrev pub MakesValid : {W : Type 0} → Host W → Type 0
MakesValid {W} host =
    (p : GenerationRequest) (v : W) (r : GenerationResponse)
    → (host.generate p v).0 ≡ ok (instance_of r)
    → IsResponse r

module _ {W : Type 0} (host : Host W) (task context : Text) (budget : ℕ) where
  -- A stage as it is recorded.
  abbrev recorded :
      Stage → Artifacts → Option GenerationResponse → ℕ → Option Exception → StageResult
  recorded stage artifacts response elapsed error = record {
    stage = stage;
    request = values_of host task context budget stage artifacts;
    response = response;
    elapsed = elapsed;
    error = error;
  }

  -- A stage that passed, as it is recorded.
  abbrev pub passed : Stage → Artifacts → GenerationResponse → ℕ → StageResult
  passed stage artifacts r elapsed = record {
    stage = stage;
    request = values_of host task context budget stage artifacts;
    response = some r;
    elapsed = elapsed;
    error = none;
  }

  -- The result behind a stage that passed.
  abbrev pub advanced : StagedResult → Stage → Artifacts → GenerationResponse → ℕ → StagedResult
  advanced result stage artifacts r elapsed = record {
    stages = result.stages ++ (passed stage artifacts r elapsed ∷ []);
    completed = result.completed;
    code = result.code;
    model_id = r.model_id;
    generated_tokens = result.generated_tokens + r.generated_tokens;
  }

  -- The run ends here: one more stage is recorded, with its error.
  pub record Fails (result final : StagedResult) : Type 0 where
    pub completed : final.completed ≡ result.completed
    pub code : final.code ≡ result.code
    pub last : StageResult
    pub stages : final.stages ≡ result.stages ++ (last ∷ [])
    pub error : Exception
    pub failed : last.error ≡ some error

  keep-Fails :
      (result final examined : StagedResult) (last : StageResult) (x : Exception)
      → examined.code ≡ result.code
      → examined.completed ≡ result.completed
      → examined.stages ≡ result.stages
      → last.error ≡ some x
      → keep examined last ≡ final
      → Fails result final
  unfolding keep
  keep-Fails result final examined last x c d s failed same = record {
    completed = ap (λ (r : StagedResult). r.completed) (sym same) ∙ d;
    code = ap (λ (r : StagedResult). r.code) (sym same) ∙ c;
    last = last;
    stages = ap (λ (r : StagedResult). r.stages) (sym same) ∙ ap (λ l. l ++ (last ∷ [])) s;
    error = x;
    failed = failed;
  }

  -- What a stage does to the world: it is announced, and between two readings of the clock the
  -- backend is sent the request made of the values that are recorded, once, and its answer is the
  -- response.
  pub record Consulted (stage : Stage) (artifacts : Artifacts) (response : GenerationResponse)
      (elapsed : ℕ) (before after : W) : Type 0 where
    pub told : (notify host stage before).0 ≡ ok tt
    pub payload : GenerationRequest
    pub made :
        let values = values_of host task context budget stage artifacts in
        make_request values.prompt values.context [] values.max_new_tokens ≡ ok payload
    pub answered :
        let (start, sent) = host.monotonic (notify host stage before).1 in
        (Exceptions.◌>>=◌ (host.generate payload sent).0 model_validate ≡ ok response)
        × (elapsed ≡ (host.monotonic (host.generate payload sent).1).0 - start)
        × (after ≡ (host.monotonic (host.generate payload sent).1).1)

  -- The stage passes, and the run goes on from its output.
  pub record Proceeds (next : Next host task context budget) (stage : Stage) (artifacts : Artifacts)
      (result final : StagedResult) (w w' : W) : Type 0 where
    pub response : GenerationResponse
    pub elapsed : ℕ
    pub valid : IsResponse response
    pub passes : Passes budget result response
    pub world : W
    pub consulted : Consulted stage artifacts response elapsed w world
    pub rest :
        next
          (artifacts ++ ((stage, response.output) ∷ []))
          (advanced result stage artifacts response elapsed)
          world
        ≡ (ok final, w')

  module _ (next : Next host task context budget) (stage : Stage) (artifacts : Artifacts)
      (result final : StagedResult) (w0 w' : W) where
    settle-outcome :
        (r : GenerationResponse) (elapsed : ℕ) (failure : Option Exception) (w : W)
        → IsResponse r
        → Consulted stage artifacts r elapsed w0 w
        → (examine budget result r).0 ≡ failure
        → settle host task context budget next stage artifacts r elapsed failure
            (examine budget result r).1
            w
          ≡ (ok final, w')
        → Fails result final ⊎ Proceeds next stage artifacts result final w0 w'
    unfolding settle keep
    settle-outcome r elapsed none w v c e h = inr (record {
      valid = v;
      consulted = c;
      response = r;
      elapsed = elapsed;
      passes = examine-Passes budget result r e;
      world = w;
      rest = rw (examine-result budget result r e) at h;
    })
    settle-outcome r elapsed (some x) w v k e h =
        let (c, d, s) = examine-keeps budget result r in
        inl (
          keep-Fails result final (examine budget result r).1
            (recorded stage artifacts (some r) elapsed (some x)) x c d s refl cc)

    conclude-outcome :
        (answer : Result GenerationResponse) (elapsed : ℕ) (w : W)
        → ((r : GenerationResponse)
            → answer ≡ ok r
            → IsResponse r × Consulted stage artifacts r elapsed w0 w)
        → conclude host task context budget next stage artifacts result answer elapsed w
          ≡ (ok final, w')
        → Fails result final ⊎ Proceeds next stage artifacts result final w0 w'
    unfolding conclude
    conclude-outcome (ok r) elapsed w v h =
        let (valid, consulted) = v r refl in
        settle-outcome r elapsed (examine budget result r).0 w valid consulted refl h
    conclude-outcome (err x) elapsed w v h = elim (Bool-cases (is_stage_failure x)) [
      | inl caught ↦ inl (
          keep-Fails result final result (recorded stage artifacts none elapsed (some x)) x refl
            refl refl refl (ground (arith, caught)))
      | inr escapes ↦ absurd (ground (arith, escapes))
    ]

  module _ (honest : MakesValid host) where
    validated :
        (answer : Result Returned) (r : GenerationResponse)
        → ((x : GenerationResponse) → answer ≡ ok (instance_of x) → IsResponse x)
        → (Exceptions.◌>>=◌ answer model_validate) ≡ ok r
        → IsResponse r
    unfolding model_validate
    validated (ok (instance_of x)) r valid h = subst IsResponse (cc) (valid x refl)
    validated (ok (fields raw)) r valid h = make_response-IsResponse raw r h
    validated (ok malformed) r valid h = cc
    validated (err e) r valid h = cc

    -- What the backend was sent, where its answer is a response.
    ask-sent :
        (values : StageValues) (w : W) (r : GenerationResponse)
        → (ask host values w).0 ≡ ok r
        → (p : GenerationRequest) × (make_request values.prompt values.context []
              values.max_new_tokens
            ≡ ok p)
          × (Exceptions.◌>>=◌ (host.generate p w).0 model_validate ≡ ok r)
          × ((ask host values w).1 ≡ (host.generate p w).1)
    unfolding ask
    ask-sent values w r h =
        asked (make_request values.prompt values.context [] values.max_new_tokens) refl
      where
        asked :
            (m : Result GenerationRequest)
            → make_request values.prompt values.context [] values.max_new_tokens ≡ m
            → (p : GenerationRequest) × (make_request values.prompt values.context []
                  values.max_new_tokens
                ≡ ok p)
              × (Exceptions.◌>>=◌ (host.generate p w).0 model_validate ≡ ok r)
              × ((ask host values w).1 ≡ (host.generate p w).1)
        asked (ok p) e = (p, e, rw (e, ask) at h, rw (e, ask) refl)
        asked (err x) e = absurd (cc (rw (e, ask) at h))

    -- A stage that was answered consulted the backend.
    timed-Consulted :
        (stage : Stage) (artifacts : Artifacts) (w : W) (r : GenerationResponse)
        → (notify host stage w).0 ≡ ok tt
        → let v = (notify host stage w).1 in
          let values = values_of host task context budget stage artifacts in
          (timed host values v).0.0 ≡ ok r
          → IsResponse r
            × Consulted stage artifacts r (timed host values v).0.1 w (timed host values v).1
    unfolding timed
    timed-Consulted stage artifacts w r told h =
        let values = values_of host task context budget stage artifacts in
        let sent = (host.monotonic (notify host stage w).1).1 in
        let (payload, made, answered, after) = ask-sent values sent r h in
        (
          validated (host.generate payload sent).0 r (honest payload sent) answered,
          record {
            told = told;
            payload = payload;
            made = made;
            answered = (
              answered,
              ap (λ x. (host.monotonic x).0 - (host.monotonic (notify host stage w).1).0) after,
              ap (λ x. (host.monotonic x).1) after,
            );
          },
        )

    one_stage-outcome :
        (next : Next host task context budget) (stage : Stage) (artifacts : Artifacts)
        (result final : StagedResult) (w w' : W) (told : Result (Unit {0}))
        → (notify host stage w).0 ≡ told
        → one_stage host task context budget next stage artifacts result told
            (notify host stage w).1
          ≡ (ok final, w')
        → Fails result final ⊎ Proceeds next stage artifacts result final w w'
    unfolding one_stage
    one_stage-outcome next stage artifacts result final w w' (err x) e h = cc
    one_stage-outcome next stage artifacts result final w w' (ok u) e h =
        conclude-outcome next stage artifacts result final w w' _ _ _
          (λ r. timed-Consulted stage artifacts w r e) h

    pub run_stages-outcome :
        (stage : Stage) (others : List Stage) (artifacts : Artifacts) (result final : StagedResult)
        (w w' : W)
        → run_stages host task context budget (stage ∷ others) artifacts result w ≡ (ok final, w')
        → Fails result final
          ⊎ Proceeds (run_stages host task context budget others) stage artifacts result final w w'
    unfolding run_stages
    run_stages-outcome stage others artifacts result final w w' h =
        one_stage-outcome (run_stages host task context budget others) stage artifacts result final
          w w' _ refl h
