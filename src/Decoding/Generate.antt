-- ===== src/Decoding/Generate.antt =====
-- `generate` of python_function_decoding.py.
pub mod Laws
use npp_ai.Prelude.{
  ℕ, ◌+◌, Bool, true, false, not, Option, none, some, List, [], ◌∷◌, ◌++◌, length, ltb,
  if◌then◌else◌,
}
use npp_ai.Text.{Text, Bytes}
use npp_ai.Text.Utf8.{encode, decode}
use npp_ai.Python.Int.{pos}
use npp_ai.Python.Exceptions.{Result, ok, err, value_error, require, ◌>>=◌, ◌>>◌}
use npp_ai.Protocol.{
  GenerationRequest, GenerationResponse, FinishReason, make_response, format_prompt,
}
use npp_ai.Backends.Dense.{Network}
use npp_ai.Decoding.Structure.{Language, Signature, acceptable, declaration}
use npp_ai.Decoding.Legacy.{legacy_function}
use npp_ai.Decoding.Beam.{Scored, Candidate, root, search, choose}

module _ (net : Network) (model : Scored) (lang : Language) (model_id : Text) where
  -- The code of a candidate.
  abbrev pub code_of : Text → Bytes → Text
  code_of header body = header ++ decode body

  unfoldable pub respond : Text → Candidate model × FinishReason → Result GenerationResponse
  respond header (winner, reason) = make_response (record {
    protocol_version = pos 1;
    model_id = model_id;
    output = code_of header winner.body;
    generated_tokens = pos winner.count;
    finish_reason = reason;
  })

  -- The search behind the legacy attempt.
  unfoldable pub decode_beam :
      ℕ → GenerationRequest → Text → Option Signature → Result GenerationResponse
  unfolding respond
  decode_beam prompt_bytes payload header signature = do
    text ← format_prompt payload prompt_bytes
    let prefix = encode (text ++ header)
    require (not (ltb net.context (length prefix)))
        (value_error "Formatted prompt exceeds model context")
    (beam, finished, fallback) ←
        search model (λ body. acceptable lang (code_of header body) signature) prefix
          payload.max_new_tokens (root model ∷ []) [] none
    chosen ← choose model beam finished fallback
    respond header chosen

  unfoldable pub generate : ℕ → GenerationRequest → Result GenerationResponse
  generate prompt_bytes payload = do
    (header, signature) ← declaration lang payload
    legacy ← legacy_function net lang model_id payload signature
    elim legacy [ some r ↦ ok r | none ↦ decode_beam prompt_bytes payload header signature ]
