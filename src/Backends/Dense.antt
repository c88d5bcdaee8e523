-- ===== src/Backends/Dense.antt =====
-- `DenseLocalBackend.generate` without the Python profile: greedy decoding, byte by byte. The
-- floats of a token's logits, their order and the forward pass are parameters (numpy).
pub mod Loading
pub mod Laws
use npp_ai.Prelude.{
  ℕ, zero, suc, ◌+◌, ◌≡◌, Bool, true, false, not, List, [], ◌∷◌, ◌++◌, length, all, ltb, ◌==◌,
  if◌then◌else◌,
}
use npp_ai.Text.{Text, Bytes}
use npp_ai.Text.Utf8.{encode, decode}
use npp_ai.Python.Int.{pos}
use npp_ai.Python.Exceptions.{Result, ok, err, value_error, runtime_error, require, ◌>>=◌, ◌>>◌}
use npp_ai.Protocol.{
  GenerationRequest, GenerationResponse, FinishReason, eos, length_limit, make_response,
  format_prompt,
}

-- The numbers of numpy, and the model that a checkpoint holds.
pub record Network : Type 1 where
  pub Float : Type 0
  pub less : Float → Float → Bool
  pub is_finite : Float → Bool
  pub context : ℕ
  pub logits : List ℕ → List Float

-- What the loop leaves: the bytes behind the prefix, the count and the reason.
pub record Decoded : Type 0 where
  pub bytes : Bytes
  pub count : ℕ
  pub reason : FinishReason

module _ (net : Network) where
  -- `argmax()`: the index of the first of the largest values.
  unfoldable pub argmax_from : net.Float → ℕ → ℕ → List net.Float → ℕ
  argmax_from best at i [] = at
  argmax_from best at i (x ∷ xs) =
      argmax_from (if net.less best x then x else best) (if net.less best x then i else at) (i + 1)
        xs

  unfoldable pub argmax : List net.Float → ℕ
  unfolding argmax_from
  argmax [] = 0
  argmax (x ∷ xs) = argmax_from x 0 1 xs

  -- The loop over `range(payload.max_new_tokens)`.
  unfoldable pub greedy : ℕ → List ℕ → Bytes → ℕ → Result Decoded
  greedy zero tokens output count =
      ok (record { bytes = output; count = count; reason = length_limit })
  greedy (suc rounds) tokens output count =
      let values = net.logits tokens in
      let token = argmax values in
      let rest = greedy rounds (tokens ++ (token ∷ [])) (output ++ (token ∷ [])) (count + 1) in
      if not (all net.is_finite values)
      then err (runtime_error "Non-finite model logits")
      else if token == 0
      then ok (record { bytes = output; count = count + 1; reason = eos })
      else rest

  module _ (model_id : Text) (prompt_bytes : ℕ) where
    unfoldable pub generate : GenerationRequest → Result GenerationResponse
    generate payload = do
      text ← format_prompt payload prompt_bytes
      let tokens = encode (text ++ payload.assistant_prefix)
      require (not (ltb net.context (length tokens)))
          (value_error "Formatted prompt exceeds this model's byte context")
      decoded ← greedy payload.max_new_tokens tokens (encode payload.assistant_prefix) 0
      make_response (record {
        protocol_version = pos 1;
        model_id = model_id;
        output = decode decoded.bytes;
        generated_tokens = pos decoded.count;
        finish_reason = decoded.reason;
      })
