-- ===== src/Protocol/Laws.antt =====
-- The bounds of requests and responses, and the width of a padded prompt.
use npp_ai.Prelude.{
  ℕ, zero, suc, ◌+◌, ◌-◌, ◌≤◌, ◌<◌, ◌≡◌, refl, ◌∙◌, true, false, ◌++◌, length, length-append,
  replicate, ltb, ◌==◌, arith, Bool-cases, inl, inr, ◌⊎◌,
}
use npp_ai.Text.{Text}
use npp_ai.Text.Utf8.RoundTrip.{encode-append}
use npp_ai.Text.Utf8.{is_text, encode}
use npp_ai.Python.Int.{ℤ, pos, negsuc}
use npp_ai.Python.Exceptions.{ok, err, value_error}
use npp_ai.Protocol.{
  GenerationRequest, GenerationResponse, make_request, make_response, RawResponse, prompt_text,
  ai_header, format_prompt,
}

-- The bounds that the class declares.
pub record IsRequest (r : GenerationRequest) : Type 0 where
  pub prompt_text : is_text r.prompt ≡ true
  pub context_text : is_text r.context ≡ true
  pub prefix_text : is_text r.assistant_prefix ≡ true
  pub prompt_min : 1 ≤ length r.prompt
  pub prompt_max : length r.prompt ≤ 100000
  pub context_max : length r.context ≤ 100000
  pub prefix_max : length r.assistant_prefix ≤ 1024
  pub tokens_min : 1 ≤ r.max_new_tokens
  pub tokens_max : r.max_new_tokens ≤ 512

pub record IsResponse (r : GenerationResponse) : Type 0 where
  pub id_text : is_text r.model_id ≡ true
  pub output_text : is_text r.output ≡ true
  pub id_min : 1 ≤ length r.model_id
  pub id_max : length r.model_id ≤ 128
  pub output_max : length r.output ≤ 2048
  pub tokens_max : r.generated_tokens ≤ 512

-- A request that is made has the texts and the budget that it is made of.
pub make_request-keeps :
    (p c a : Text) (n : ℕ) (r : GenerationRequest)
    → make_request p c a (pos n) ≡ ok r
    → (r.prompt ≡ p) × (r.context ≡ c) × (r.max_new_tokens ≡ n)
unfolding make_request
make_request-keeps p c a n r h = ground arith

pub make_request-IsRequest :
    (p c a : Text) (n : ℤ) (r : GenerationRequest) → make_request p c a n ≡ ok r → IsRequest r
unfolding make_request
make_request-IsRequest p c a (pos n) r h = ground arith
make_request-IsRequest p c a (negsuc n) r h = ground arith

pub make_response-IsResponse :
    (raw : RawResponse) (r : GenerationResponse) → make_response raw ≡ ok r → IsResponse r
unfolding make_response
make_response-IsResponse raw r h = ground arith

-- A space takes one byte.
length-encode_spaces : (n : ℕ) → length (encode (replicate n 32)) ≡ n
unfolding encode
length-encode_spaces zero = refl
length-encode_spaces (suc n) = omega (arith, length-encode_spaces n)

length-encode_padded :
    (text tail : Text) (n : ℕ)
    → length (encode ((text ++ replicate n 32) ++ tail)) ≡ length (encode (text ++ tail)) + n
length-encode_padded text tail n =
    rw
      (
        encode-append (text ++ replicate n 32) tail,
        encode-append text (replicate n 32),
        encode-append text tail,
      )
      (omega (
        arith,
        length-append (encode text ++ encode (replicate n 32)) (encode tail),
        length-append (encode text) (encode (replicate n 32)),
        length-append (encode text) (encode tail),
        length-encode_spaces n,
      ))

-- With a boundary, a prompt is exactly that many bytes wide, or the request is refused.
pub length-format_prompt :
    (r : GenerationRequest) (width : ℕ)
    → 1 ≤ width
    → ((s : Text) × (format_prompt r width ≡ ok s) × (length (encode s) ≡ width))
      ⊎ (width < length (encode (prompt_text r ++ ai_header)))
        × (format_prompt r width ≡ err (value_error "Task exceeds fixed prompt boundary"))
unfolding format_prompt
length-format_prompt r width h =
    let text = prompt_text r in
    let used = length (encode (text ++ ai_header)) in
    let bounded : (width == 0) ≡ false = ground arith in
    elim (Bool-cases (ltb width used)) [
      | inl over ↦ inr (ground arith, rw (bounded, over))
      | inr fits ↦ inl (
        (text ++ replicate (width - used) 32) ++ ai_header,
        rw (bounded, fits),
        length-encode_padded text ai_header (width - used) ∙ ground arith,
      )
    ]

-- Values within the bounds are accepted as they are.
pub make_response_valid :
    (r : GenerationResponse)
    → IsResponse r
    → make_response (record {
      protocol_version = pos 1;
      model_id = r.model_id;
      output = r.output;
      generated_tokens = pos r.generated_tokens;
      finish_reason = r.finish_reason;
    })
      ≡ ok r
unfolding make_response
make_response_valid r v = ground arith
