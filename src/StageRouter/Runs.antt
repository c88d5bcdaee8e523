-- ===== src/StageRouter/Runs.antt =====
-- A routed run as a chain of calls from one world to the next.
use npp_ai.Prelude.{
  ℕ, ◌≤◌, ◌≡◌, refl, subst, inl, inr, true, false, Bool-cases, Option, none, some, List, [], ◌∷◌,
  ◌++◌, arith,
}
use npp_ai.Text.{Text, text_eq, is_blank}
use npp_ai.Text.Laws.{eq_of_text_eq}
use npp_ai.Python.Int.{pos}
use npp_ai.Python.Exceptions.{Exception, Result, ok, err, is_stage_failure}
use npp_ai.Python.Exceptions
use npp_ai.Protocol.{GenerationRequest, GenerationResponse, eos, make_request, model_validate}
use npp_ai.Staged.{Stage, code, Artifacts, find_artifact, StageValues, stage_values, is_eos, prior}
use npp_ai.StageRouter.{
  Model, Routed, by_role, judge, add_call, call_of, consult, settle, conclude, route,
}

-- A response that a stage accepts from the model with this identity.
pub record IsAccepted (identity : Text) (r : GenerationResponse) : Type 0 where
  pub model_id : r.model_id ≡ identity
  pub tokens : r.generated_tokens ≤ 128
  pub solid : is_blank r.output ≡ false
  pub reason : r.finish_reason ≡ eos

judge-IsAccepted :
    (identity : Text) (r : GenerationResponse) → judge identity r ≡ none → IsAccepted identity r
unfolding judge is_eos
judge-IsAccepted identity r h = record {
  model_id = eq_of_text_eq r.model_id identity (ground arith);
  tokens = ground arith;
  solid = ground arith;
  reason = ground arith;
}

module _ {W : Type 0} (planner coder : Model W) (task : Text) (identities : Stage → Text) where
  -- The request of a stage is made from the outputs before it.
  abbrev pub IsRequestOf : Stage → Artifacts → GenerationRequest → Type 0
  IsRequestOf stage prior payload =
      let values = stage_values stage task [] prior (pos 128) in
      make_request values.prompt values.context [] values.max_new_tokens ≡ ok payload

  -- The model of a stage's role has the identity that it had at the start, is sent the request once,
  -- and its answer is the response.
  pub record Sent (stage : Stage) (payload : GenerationRequest) (r : GenerationResponse)
      (before after : W) : Type 0 where
    pub known : (by_role planner coder stage).model_id before ≡ identities stage
    pub answered :
        Exceptions.◌>>=◌ ((by_role planner coder stage).generate payload before).0 model_validate
        ≡ ok r
    pub behind : after ≡ ((by_role planner coder stage).generate payload before).1

  consult-Sent :
      (stage : Stage) (payload : GenerationRequest) (r : GenerationResponse) (w : W)
      → (consult planner coder task (identities stage) stage payload w).0 ≡ ok r
      → Sent stage payload r w (consult planner coder task (identities stage) stage payload w).1
  unfolding consult
  consult-Sent stage payload r w h =
      elim (Bool-cases (text_eq ((by_role planner coder stage).model_id w) (identities stage))) [
        | inl same ↦ record {
          known = eq_of_text_eq _ (identities stage) same;
          answered = rw (same, consult) at h;
          behind = rw same refl;
        }
        | inr other ↦ absurd (cc (rw (other, consult) at h))
      ]

  -- A run from the stages that are left, the outputs and the result so far, from one world to
  -- another: it is over, a stage fails and is recorded with its error, or a stage is accepted and the
  -- run goes on.
  pub data Runs : List Stage → Artifacts → W → W → Routed → Routed → Type 0 where
    over :
        {prior : Artifacts} {w : W} {result : Routed} (output : Text)
        → find_artifact code prior ≡ some output
        → Runs [] prior w w result (record result { completed = true; code = output })
    fails :
        {stage : Stage} {rest : List Stage} {prior : Artifacts} {w w' : W} {result : Routed}
        (payload : GenerationRequest) (response : Option GenerationResponse) (tokens : ℕ)
        (e : Exception)
        → IsRequestOf stage prior payload
        → Runs (stage ∷ rest) prior w w' result (
            add_call result
              (call_of planner coder task identities stage payload response (some e))
              tokens)
    goes_on :
        {stage : Stage} {rest : List Stage} {prior : Artifacts} {w v w' : W} {result final : Routed}
        (payload : GenerationRequest) (r : GenerationResponse)
        → IsRequestOf stage prior payload
        → Sent stage payload r w v
        → IsAccepted (identities stage) r
        → Runs rest
            (prior ++ ((stage, r.output) ∷ []))
            v
            w'
            (add_call result
              (call_of planner coder task identities stage payload (some r) none)
              r.generated_tokens)
            final
        → Runs (stage ∷ rest) prior w w' result final

  same_result :
      (a b : Routed) (v w : W) → ◌≡◌ {A = Result Routed × W} (ok a, v) (ok b, w) → (a ≡ b) × (v ≡ w)
  same_result a b v w h = (cc, cc)

  conclude-Runs :
      (stage : Stage) (rest : List Stage) (prior : Artifacts) (result final : Routed)
      (payload : GenerationRequest) (answer : Result GenerationResponse) (w0 w w' : W)
      → ((p : Artifacts) (s : Routed) (v : W)
          → route planner coder task identities rest p s v ≡ (ok final, w')
          → Runs rest p v w' s final)
      → IsRequestOf stage prior payload
      → ((r : GenerationResponse) → answer ≡ ok r → Sent stage payload r w0 w)
      → conclude planner coder task identities
          (route planner coder task identities rest)
          stage
          prior
          result
          payload
          answer
          w
        ≡ (ok final, w')
      → Runs (stage ∷ rest) prior w0 w' result final
  unfolding conclude settle
  conclude-Runs stage rest prior result final payload (err e) w0 w w' ih asked sent h =
      elim (Bool-cases (is_stage_failure e)) [
        | inl caught ↦
            subst (Runs (stage ∷ rest) prior w0 w' result)
              (same_result _ final w w' (rw (caught, conclude) at h)).0
              (fails payload none 0 e asked)
        | inr escapes ↦ absurd (cc (rw (escapes, conclude) at h))
      ]
  conclude-Runs stage rest prior result final payload (ok r) w0 w w' ih asked sent h =
      judged (judge (identities stage) r) refl
    where
      judged :
          (o : Option Exception)
          → judge (identities stage) r ≡ o
          → Runs (stage ∷ rest) prior w0 w' result final
      judged (some e) j =
          subst (Runs (stage ∷ rest) prior w0 w' result) (same_result _ final w w' (rw j at h)).0
            (fails payload (some r) r.generated_tokens e asked)
      judged none j =
          goes_on payload r asked (sent r refl) (judge-IsAccepted (identities stage) r j)
            (ih _ _ w (rw j at h))

  pub route-Runs :
      (stages : List Stage) (prior : Artifacts) (result final : Routed) (w w' : W)
      → route planner coder task identities stages prior result w ≡ (ok final, w')
      → Runs stages prior w w' result final
  unfolding route
  route-Runs [] prior result final w w' h = found (find_artifact code prior) refl
    where
      found : (o : Option Text) → find_artifact code prior ≡ o → Runs [] prior w w' result final
      found (some output) e =
          let (same, ends) = same_result _ final w w' (rw (e, route) at h) in
          subst (Runs [] prior w w' result) same (
            subst
              (λ v. Runs [] prior w v result (record result { completed = true; code = output }))
              ends (over output e))
      found none e = absurd (cc (rw (e, route) at h))
  route-Runs (stage ∷ rest) prior result final w w' h =
      asked (make_request values.prompt values.context [] values.max_new_tokens) refl
        (route-Runs rest)
    where
      values : StageValues
      values = stage_values stage task [] prior (pos 128)

      asked :
          (m : Result GenerationRequest)
          → make_request values.prompt values.context [] values.max_new_tokens ≡ m
          → ((p : Artifacts) (s t : Routed) (u v : W)
              → route planner coder task identities rest p s u ≡ (ok t, v)
              → Runs rest p u v s t)
          → Runs (stage ∷ rest) prior w w' result final
      asked (ok payload) e ih =
          conclude-Runs stage rest prior result final payload _ w _ w' (λ p s v. ih p s final v w')
            e (λ r. consult-Sent stage payload r w) (rw (e, route) at h)
      asked (err x) e ih = absurd (cc (rw (e, route) at h))
