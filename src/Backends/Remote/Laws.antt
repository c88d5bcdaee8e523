-- ===== src/Backends/Remote/Laws.antt =====
-- What the remote backend accepts, and how it classifies what goes wrong.
use npp_ai.Prelude.{
  ℕ, zero, suc, ◌≤◌, ◌<◌, ◌≡◌, refl, ap, subst, ◌∙◌, ◌↔◌, ◌⊎◌, true, false, not, List, [], ◌∷◌,
  length, take, ltb, le_of_not-ltb, arith,
}
use npp_ai.Text.{Bytes}
use npp_ai.Python.Exceptions.{
  Exception, ok, err, backend_unavailable, is_backend_unavailable, >>=-eq-ok, require,
  require-eq-ok,
}
use npp_ai.Protocol.{
  GenerationRequest, GenerationResponse, Returned, instance_of, fields, malformed, model_validate,
}
use npp_ai.Backends.Remote.{
  Transport, responded, http_error, unreachable, malformed_response, is_temporary, accept,
}

take-eq_of_short : {A : Type 0} (n : ℕ) (xs : List A) → length (take n xs) < n → take n xs ≡ xs
take-eq_of_short zero xs h = absurd (omega arith)
take-eq_of_short (suc n) [] h = refl
take-eq_of_short (suc n) (x ∷ xs) h = λ i. x ∷ take-eq_of_short n xs (omega arith) i

-- The failures that a hybrid router may answer from the other backend.
abbrev pub IsOutage : Transport → Type 0
IsOutage (responded body) = ⊥
IsOutage (http_error code) = (code ≡ 429) ⊎ (code ≡ 502) ⊎ (code ≡ 503) ⊎ (code ≡ 504)
IsOutage unreachable = Unit
IsOutage malformed_response = ⊥

module _ (parse : Bytes → Returned) (payload : GenerationRequest) where
  -- A body is accepted only whole, within 16384 bytes, valid, and within the tokens asked for.
  pub accept-ok :
      (body : Bytes) (r : GenerationResponse)
      → accept parse payload (responded body) ≡ ok r
      → (length body ≤ 16384)
        × (model_validate (parse body) ≡ ok r)
        × (r.generated_tokens ≤ payload.max_new_tokens)
  unfolding accept
  accept-ok body r h0 =
      let (_, sized, h1) =
        >>=-eq-ok (require (not (ltb 16384 (length (take 16385 body)))) _) _ h0 in
      let short : length (take 16385 body) < 16385 =
        omega (arith, le_of_not-ltb _ _ (require-eq-ok _ _ sized)) in
      let whole : take 16385 body ≡ body = take-eq_of_short 16385 body short in
      let (result, valid, h2) = >>=-eq-ok (model_validate (parse (take 16385 body))) _ h1 in
      let (_, within, h3) =
        >>=-eq-ok (require (not (ltb payload.max_new_tokens result.generated_tokens)) _) _ h2 in
      let same : result ≡ r = cc in
      (
        subst (λ b. length b ≤ 16384) whole (omega arith),
        subst (λ b. model_validate (parse b) ≡ ok r) whole (valid ∙ ap ok same),
        subst (λ x. x.generated_tokens ≤ payload.max_new_tokens) same
            (le_of_not-ltb _ _ (require-eq-ok _ _ within)),
      )

  model_validate-class :
      (v : Returned) (e : Exception) → model_validate v ≡ err e → is_backend_unavailable e ≡ false
  unfolding model_validate is_backend_unavailable
  model_validate-class (instance_of x) e h = cc
  model_validate-class (fields raw) e h = ground arith
  model_validate-class malformed e h = ground arith

  refused :
      (body : Bytes) (e : Exception)
      → accept parse payload (responded body) ≡ err e
      → is_backend_unavailable e ≡ true
      → ⊥
  unfolding accept is_backend_unavailable
  refused body e h u = ground (arith, model_validate-class (parse (take 16385 body)) e)

  -- The failure is "unavailable" exactly for an outage: a refused request, an oversized or invalid
  -- response and an exceeded budget are errors of another class.
  pub accept-unavailable :
      (t : Transport)
      → ((e : Exception) × (accept parse payload t ≡ err e) × (is_backend_unavailable e ≡ true))
        ↔ IsOutage t
  unfolding accept is_temporary is_backend_unavailable model_validate
  accept-unavailable (responded body) = (λ (e, h, u). refused body e h u, λ h. absurd h)
  accept-unavailable (http_error code) = (
    λ (e, h, u). ground arith,
    λ o. (backend_unavailable "Remote backend temporarily unavailable", ground arith, refl),
  )
  accept-unavailable unreachable = (λ _. tt, λ _. (backend_unavailable _, refl, refl))
  accept-unavailable malformed_response = (λ (e, h, u). ground arith, λ h. absurd h)
