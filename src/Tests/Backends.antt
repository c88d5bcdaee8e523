-- ===== src/Tests/Backends.antt =====
-- Requests to the backends of model_backends.py.
use npp_ai.Prelude.{
  ℕ, inl, inr, Bool-cases, ◌+◌, ◌≤◌, ◌<◌, ◌≡◌, refl, ◌↔◌, ◌⊎◌, true, false, all, ltb, if◌then◌else◌,
  some, List, [], ◌∷◌, ◌++◌, length, arith,
}
use npp_ai.Text.{Text, Bytes, codes}
use npp_ai.Text.Utf8.{is_text, encode, decode}
use npp_ai.Python.Exceptions.{
  Exception, ok, err, value_error, backend_unavailable, is_backend_unavailable,
}
use npp_ai.Protocol.{
  GenerationRequest, GenerationResponse, eos, format_prompt, prompt_text, ai_header, Returned,
  instance_of, model_validate,
}
use npp_ai.Protocol.Laws.{IsRequest, length-format_prompt}
use npp_ai.Backends.{Backend}
use npp_ai.Backends.Dense
use npp_ai.Backends.Dense.{Network}
use npp_ai.Backends.Dense.Laws.{Answers, generate-Answers}
use npp_ai.Backends.Remote.{http_error, responded, accept}
use npp_ai.Backends.Remote.Laws.{IsOutage, accept-ok, accept-unavailable}
use npp_ai.Backends.Router
use npp_ai.Backends.Router.{Mode, local_only, hybrid, BackendRouter, make_router}
use npp_ai.Backends.Router.Laws.{fall_back, generate_locally, generate_hybrid}

abbrev request : GenerationRequest
request = record {
  prompt = codes "t";
  context = [];
  assistant_prefix = codes "p";
  max_new_tokens = 4;
}

abbrev prompt : Text
prompt = codes "[USER]: t" ++ (10 ∷ (codes "[AI]:" ++ (10 ∷ [])))

-- After a prompt of seventeen bytes it emits one byte, then the zero byte.
abbrev short_net : Network
short_net = record {
  Float = ℕ;
  less = ltb;
  is_finite = λ x. true;
  context = 64;
  logits = λ tokens. if ltb (length tokens) 18 then 0 ∷ 1 ∷ [] else (1 ∷ 0 ∷ []);
}

IsRequest-request : IsRequest request
unfolding is_text npp_ai.Text.Utf8.is_scalar
IsRequest-request = record {
  prompt_text = refl;
  context_text = refl;
  prefix_text = refl;
  prompt_min = omega arith;
  prompt_max = omega arith;
  context_max = omega arith;
  prefix_max = omega arith;
  tokens_min = omega arith;
  tokens_max = omega arith;
}

request_formatted : format_prompt request 0 ≡ ok prompt
unfolding format_prompt prompt_text ai_header
request_formatted = refl

is_text-m : is_text (codes "m") ≡ true
unfolding is_text npp_ai.Text.Utf8.is_scalar
is_text-m = refl

request_fits : length (encode (prompt ++ request.assistant_prefix)) ≤ short_net.context
unfolding encode
request_fits = omega arith

short_net_finite : (tokens : List ℕ) → all short_net.is_finite (short_net.logits tokens) ≡ true
short_net_finite tokens = elim (Bool-cases (ltb (length tokens) 18)) [
  | inl short ↦ rw short
  | inr long ↦ rw long
]

generate-Answers_example :
    (r : GenerationResponse) × (Dense.generate short_net (codes "m") 0 request ≡ ok r)
    × Answers short_net short_net_finite (codes "m") 0 request prompt r
generate-Answers_example =
    generate-Answers short_net short_net_finite (codes "m") 0 request prompt is_text-m (omega arith)
      (omega arith) IsRequest-request request_formatted request_fits

length-format_prompt_example :
    ((s : Text) × (format_prompt request 20 ≡ ok s) × (length (encode s) ≡ 20))
    ⊎ (20 < length (encode (prompt_text request ++ ai_header)))
      × (format_prompt request 20 ≡ err (value_error "Task exceeds fixed prompt boundary"))
length-format_prompt_example = length-format_prompt request 20 (omega arith)

abbrev answer : GenerationResponse
answer = record { model_id = codes "m"; output = []; generated_tokens = 1; finish_reason = eos }

abbrev parse_answer : Bytes → Returned
parse_answer body = instance_of answer

answer_accepted : accept parse_answer request (responded (codes "{}")) ≡ ok answer
unfolding accept model_validate
answer_accepted = refl

accept-ok_example :
    (length (codes "{}") ≤ 16384)
    × (model_validate (parse_answer (codes "{}")) ≡ ok answer)
    × (answer.generated_tokens ≤ request.max_new_tokens)
accept-ok_example = accept-ok parse_answer request (codes "{}") answer answer_accepted

accept-unavailable_example :
    ((e : Exception) × (accept parse_answer request (http_error 503) ≡ err e)
      × (is_backend_unavailable e ≡ true))
    ↔ IsOutage (http_error 503)
accept-unavailable_example = accept-unavailable parse_answer request (http_error 503)

-- A backend that counts its calls and is down, and one that counts and answers.
abbrev down : Backend ℕ
down payload w = (err (backend_unavailable "down"), w + 1)

abbrev up : Backend ℕ
up payload w = (ok answer, w + 10)

abbrev locally : BackendRouter ℕ
locally = record { mode = local_only; local = some up; remote = some down }

made_locally : make_router local_only (some up) (some down) false ≡ ok locally
unfolding make_router
made_locally = refl

generate_locally_example :
    (here : Backend ℕ) × (some up ≡ some here)
    × ((payload : GenerationRequest) (w : ℕ) → Router.generate locally payload w ≡ here payload w)
generate_locally_example = generate_locally local_only (some up) (some down) locally made_locally

abbrev in_both : BackendRouter ℕ
in_both = record { mode = hybrid; local = some down; remote = some up }

made_in_both : make_router hybrid (some down) (some up) true ≡ ok in_both
unfolding make_router
made_in_both = refl

generate_hybrid_example :
    (here there : Backend ℕ) × (true ≡ true)
    × (some down ≡ some here)
    × (some up ≡ some there)
    × ((payload : GenerationRequest) (w : ℕ)
        → Router.generate in_both payload w ≡ fall_back there payload (here payload w))
generate_hybrid_example = generate_hybrid (some down) (some up) true in_both made_in_both
