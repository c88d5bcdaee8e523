-- ===== src/Protocol.antt =====
-- model_backends.py: the generation contract. Requests and responses with the constraints that
-- their classes declare, and the prompt format.
pub mod Laws
use Prim.Native.String.{String}
use npp_ai.Prelude.{
  ℕ, ◌+◌, ◌-◌, ◌≤◌, ◌≡◌, Bool, true, false, not, ◌&&◌, List, [], ◌∷◌, ◌++◌, length, replicate, ltb,
  leb, ◌==◌, if◌then◌else◌,
}
use npp_ai.Text.{Text, Bytes, codes, nonempty}
use npp_ai.Text.Utf8.{is_text, encode}
use npp_ai.Python.Int.{ℤ, pos, ◌≤ℤᵇ◌, ◌==ℤ◌, pos_part}
use npp_ai.Python.Exceptions.{Result, ok, err, value_error, validation_error, require, ◌>>=◌, ◌>>◌}

-- `GenerationRequest`; `protocol_version` is always 1.
pub record GenerationRequest : Type 0 where
  pub prompt : Text
  pub context : Text
  pub assistant_prefix : Text
  pub max_new_tokens : ℕ

-- `Literal["eos", "length"]`
pub data FinishReason : Type 0 where
  eos length_limit : FinishReason

-- `GenerationResponse`
pub record GenerationResponse : Type 0 where
  pub model_id : Text
  pub output : Text
  pub generated_tokens : ℕ
  pub finish_reason : FinishReason

-- `Field(min_length=low, max_length=high)` of a text: its code points are counted, and a text
-- that has no UTF-8 form is refused.
unfoldable pub text_field : ℕ → ℕ → Text → Bool
text_field low high s = is_text s && (leb low (length s) && leb (length s) high)

-- `Field(ge=low, le=high)` of an integer.
unfoldable pub int_field : ℕ → ℕ → ℤ → Bool
int_field low high z = pos low ≤ℤᵇ z && z ≤ℤᵇ pos high

-- `GenerationRequest(prompt=…, context=…, assistant_prefix=…, max_new_tokens=…)`
unfoldable pub make_request : Text → Text → Text → ℤ → Result GenerationRequest
unfolding text_field int_field
make_request prompt context assistant_prefix max_new_tokens = do
  require
      (text_field 1 100000 prompt
        && (text_field 0 100000 context
            && (text_field 0 1024 assistant_prefix && int_field 1 512 max_new_tokens)))
      validation_error
  ok (record {
    prompt = prompt;
    context = context;
    assistant_prefix = assistant_prefix;
    max_new_tokens = pos_part max_new_tokens;
  })

-- The values of a response before they are checked.
pub record RawResponse : Type 0 where
  pub protocol_version : ℤ
  pub model_id : Text
  pub output : Text
  pub generated_tokens : ℤ
  pub finish_reason : FinishReason

-- `GenerationResponse(model_id=…, …)`, and its validation from such values.
unfoldable pub make_response : RawResponse → Result GenerationResponse
unfolding text_field int_field
make_response r = do
  require
      (r.protocol_version ==ℤ pos 1
        && (text_field 1 128 r.model_id
            && (text_field 0 2048 r.output && int_field 0 512 r.generated_tokens)))
      validation_error
  ok (record {
    model_id = r.model_id;
    output = r.output;
    generated_tokens = pos_part r.generated_tokens;
    finish_reason = r.finish_reason;
  })

-- What `GenerationResponse.model_validate` is given: a response that was made and checked before
-- is passed on, fields are checked, and anything else, with other fields or types, is refused.
pub data Returned : Type 0 where
  instance_of : GenerationResponse → Returned
  fields : RawResponse → Returned
  malformed : Returned

unfoldable pub model_validate : Returned → Result GenerationResponse
unfolding make_response
model_validate (instance_of r) = ok r
model_validate (fields raw) = make_response raw
model_validate malformed = err validation_error

-- "[SYSTEM]: …:\n", "[USER]: ", "[AI]:\n"; a line feed is 10.
unfoldable pub system_header : Text
system_header = codes "[SYSTEM]: Kontekst poprzednich modyfikacji dla tego pliku:" ++ (10 ∷ [])

unfoldable pub user_header : Text
user_header = codes "[USER]: "

unfoldable pub ai_header : Text
ai_header = codes "[AI]:" ++ (10 ∷ [])

-- The prompt before it is padded.
unfoldable pub prompt_text : GenerationRequest → Text
unfolding system_header user_header
prompt_text payload =
    (if nonempty payload.context then system_header ++ (payload.context ++ (10 ∷ 10 ∷ [])) else [])
    ++ (user_header ++ (payload.prompt ++ (10 ∷ [])))

-- A negative padding is the error; `prompt_bytes` of 0 is no boundary.
unfoldable pub format_prompt : GenerationRequest → ℕ → Result Text
format_prompt payload prompt_bytes =
    let text = prompt_text payload in
    if prompt_bytes == 0 then ok (text ++ ai_header) else (do
      let used = length (encode (text ++ ai_header))
      require (not (ltb prompt_bytes used)) (value_error "Task exceeds fixed prompt boundary")
      ok ((text ++ replicate (prompt_bytes - used) 32) ++ ai_header))
