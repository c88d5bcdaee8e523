-- ===== src/Decoding/Legacy/Laws.antt =====
-- What an answer of the legacy attempt in Decoding/Legacy is.
use npp_ai.Prelude.{
  ℕ, zero, suc, ◌+◌, ◌≤◌, ◌≡◌, refl, ◌∙◌, inl, inr, true, Bool-cases, Option, none, some, List, [],
  ◌∷◌, ◌++◌, length, all, ◌==◌, not, ltb, arith,
}
use npp_ai.Text.{Text, Bytes}
use npp_ai.Text.Utf8.{encode, decode}
use npp_ai.Python.Int.{pos}
use npp_ai.Python.Exceptions.{ok, require, ◌>>=◌, >>=-eq-ok}
use npp_ai.Protocol.{
  GenerationRequest, GenerationResponse, FinishReason, eos, RawResponse, make_response,
  format_prompt,
}
use npp_ai.Backends.Dense.{Network, argmax}
use npp_ai.Decoding.Structure.{Language, Signature, acceptable}
use npp_ai.Decoding.Legacy.{settle, returns_value, legacy_loop, legacy_function}

abbrev pub response_of : Text → Text → ℕ → FinishReason → RawResponse
response_of model_id output count reason = record {
  protocol_version = pos 1;
  model_id = model_id;
  output = output;
  generated_tokens = pos count;
  finish_reason = reason;
}

-- A response that is made has the fields it was made of.
pub make_response-fields :
    (model_id output : Text) (count : ℕ) (reason : FinishReason) (r : GenerationResponse)
    → make_response (response_of model_id output count reason) ≡ ok r
    → (r.output ≡ output) × (r.generated_tokens ≡ count) × (r.finish_reason ≡ reason)
unfolding make_response
make_response-fields model_id output count reason r h = ground arith

module _ (net : Network) (lang : Language) (model_id : Text) where
  -- An answer of the legacy attempt.
  pub record Direct (limit : ℕ) (signature : Signature) (r : GenerationResponse) : Type 0 where
    pub reason : r.finish_reason ≡ eos
    pub accepted : acceptable lang r.output (some signature) ≡ true
    pub returning : returns_value (lang.parse r.output) ≡ true
    pub some_tokens : 1 ≤ r.generated_tokens
    pub few_tokens : r.generated_tokens ≤ limit

  settle-Direct :
      (limit : ℕ) (signature : Signature) (code : Text) (count : ℕ) (r : GenerationResponse)
      → 1 ≤ count
      → count ≤ limit
      → settle net lang model_id signature code count ≡ ok (some r)
      → Direct limit signature r
  unfolding settle
  settle-Direct limit signature code count r low high h =
      elim (Bool-cases (acceptable lang code (some signature))) [
        | inl a ↦ elim (Bool-cases (returns_value (lang.parse code))) [
          | inl b ↦
              let raw = response_of model_id code count eos in
              let passed : (make_response raw >>= λ r. ok (some r)) ≡ ok (some r) =
                rw (settle, a, b) at h in
              let (r', made, same) = >>=-eq-ok (make_response raw) (λ r. ok (some r)) passed in
              let (o, n, f) = make_response-fields model_id code count eos r (made ∙ (cc)) in
              record {
                reason = f;
                accepted = rw (o) a;
                returning = rw (o) b;
                some_tokens = omega arith;
                few_tokens = omega arith;
              }
          | inr b ↦ absurd (cc (rw (settle, a, b) at h))
        ]
        | inr a ↦ absurd (cc (rw (settle, a) at h))
      ]

  legacy_loop-Direct :
      (limit : ℕ) (signature : Signature) (rounds count : ℕ) (tokens : List ℕ) (output : Bytes)
      → (r : GenerationResponse) → 1 ≤ count
      → count + rounds ≤ suc limit
      → legacy_loop net lang model_id signature rounds count tokens output ≡ ok (some r)
      → Direct limit signature r
  unfolding legacy_loop
  legacy_loop-Direct limit signature zero count tokens output r low high h = absurd (cc h)
  legacy_loop-Direct limit signature (suc rounds) count tokens output r low high h =
      let values = net.logits tokens in
      let token = argmax net values in
      elim (Bool-cases (all net.is_finite values)) [
        | inr odd ↦ absurd (cc (rw (legacy_loop, odd) at h))
        | inl finite ↦ elim (Bool-cases (token == 0)) [
          | inl end ↦
              settle-Direct limit signature (decode output) count r low (omega arith)
                (rw (legacy_loop, finite, end) at h)
          | inr more ↦
              legacy_loop-Direct limit signature rounds (count + 1) (tokens ++ (token ∷ []))
                (output ++ (token ∷ [])) r (omega arith) (omega arith)
                (rw (legacy_loop, finite, more) at h)
        ]
      ]

  pub legacy_function-Direct :
      (payload : GenerationRequest) (signature : Option Signature) (r : GenerationResponse)
      → legacy_function net lang model_id payload signature ≡ ok (some r)
      → (s : Signature) × (signature ≡ some s) × Direct payload.max_new_tokens s r
  unfolding legacy_function
  legacy_function-Direct payload none r h = absurd (cc h)
  legacy_function-Direct payload (some signature) r h =
      let (text, formatted, rest) = >>=-eq-ok (format_prompt payload 0) _ h in
      let tokens = encode (text ++ payload.assistant_prefix) in
      let (u, fits, looped) =
        >>=-eq-ok (require (not (ltb net.context (length tokens))) _) _ rest in
      (
        signature,
        refl,
        legacy_loop-Direct payload.max_new_tokens signature payload.max_new_tokens 1 tokens
            (encode payload.assistant_prefix) r (omega arith) (omega arith) looped,
      )
