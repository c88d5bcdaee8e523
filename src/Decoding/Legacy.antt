-- ===== src/Decoding/Legacy.antt =====
-- `legacy_function` of python_function_decoding.py.
pub mod Laws
use npp_ai.Prelude.{
  ℕ, zero, suc, ◌+◌, Bool, true, false, not, ◌&&◌, Option, none, some, List, [], ◌∷◌, ◌++◌, length,
  all, any, ltb, ◌==◌, if◌then◌else◌,
}
use npp_ai.Text.{Text, Bytes}
use npp_ai.Text.Utf8.{encode, decode}
use npp_ai.Python.Int.{pos}
use npp_ai.Python.Exceptions.{Result, ok, err, value_error, runtime_error, require, ◌>>=◌, ◌>>◌}
use npp_ai.Protocol.{GenerationRequest, GenerationResponse, eos, make_response, format_prompt}
use npp_ai.Backends.Dense.{Network, argmax}
use npp_ai.Decoding.Structure.{
  BodyStatement, return_value, other_statement, Statement, Parsed, parsed, syntax_error,
  parser_failure, Language, Signature, functions_of, acceptable,
}

unfoldable pub is_return : BodyStatement → Bool
is_return return_value = true
is_return other_statement = false

-- The first function of a module returns a value.
unfoldable pub first_returns : List (Signature × List BodyStatement) → Bool
unfolding is_return
first_returns [] = false
first_returns ((s, body) ∷ rest) = any is_return body

unfoldable pub returns_value : Parsed → Bool
unfolding first_returns
returns_value (parsed body) = first_returns (functions_of body)
returns_value _ = false

module _ (net : Network) (lang : Language) (model_id : Text) where
  -- The code at the end byte: answered, or given up.
  unfoldable pub settle : Signature → Text → ℕ → Result (Option GenerationResponse)
  settle signature code count =
      if acceptable lang code (some signature) && returns_value (lang.parse code)
      then (do
        r ← make_response (record {
          protocol_version = pos 1;
          model_id = model_id;
          output = code;
          generated_tokens = pos count;
          finish_reason = eos;
        })
        ok (some r))
      else ok none

  -- The loop over `range(1, payload.max_new_tokens + 1)`, from `count`.
  unfoldable pub legacy_loop :
      Signature → ℕ → ℕ → List ℕ → Bytes → Result (Option GenerationResponse)
  unfolding settle
  legacy_loop signature zero count tokens output = ok none
  legacy_loop signature (suc rounds) count tokens output =
      let values = net.logits tokens in
      let token = argmax net values in
      let rest =
        legacy_loop signature rounds (count + 1) (tokens ++ (token ∷ []))
          (output ++ (token ∷ [])) in
      if not (all net.is_finite values)
      then err (runtime_error "Non-finite model logits")
      else if token == 0
      then settle signature (decode output) count
      else rest

  unfoldable pub legacy_function :
      GenerationRequest → Option Signature → Result (Option GenerationResponse)
  unfolding legacy_loop
  legacy_function payload none = ok none
  legacy_function payload (some signature) = do
    text ← format_prompt payload 0
    let tokens = encode (text ++ payload.assistant_prefix)
    require (not (ltb net.context (length tokens)))
        (value_error "Formatted prompt exceeds model context")
    legacy_loop signature payload.max_new_tokens 1 tokens (encode payload.assistant_prefix)
