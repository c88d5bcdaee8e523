-- ===== src/Server/BodyLimit.antt =====
-- The middleware `request_size_limit` of server_backend.py: the declared length, then the chunks
-- of the body as they arrive. The rest of the service is a parameter, and so is `int(…)`.
pub mod Laws
use npp_ai.Prelude.{
  ℕ, ◌+◌, ◌*◌, Bool, true, false, Option, none, some, List, [], ◌∷◌, ◌++◌, length, ltb,
  if◌then◌else◌,
}
use npp_ai.Text.{Text, Bytes}
use npp_ai.Python.Int.{ℤ, pos, ◌≤ℤᵇ◌}

abbrev pub max_request_bytes : ℕ
max_request_bytes = 2097152

-- A response of the middleware, or of the handlers behind it.
pub data Response (A : Type 0) : Type 0 where
  too_large : Response A
  invalid_length : Response A
  handled : A → Response A

module _ {A : Type 0} (call_next : Bytes → A) where
  -- `async for chunk in request.stream()`, with the bytes counted and kept so far.
  unfoldable pub receive : ℕ → Bytes → List Bytes → Response A
  receive total_bytes body [] = handled (call_next body)
  receive total_bytes body (chunk ∷ chunks) =
      let total = total_bytes + length chunk in
      let rest = receive total (body ++ chunk) chunks in
      if ltb max_request_bytes total then too_large else rest

  unfoldable pub request_size_limit : (Text → Option ℤ) → Option Text → List Bytes → Response A
  request_size_limit parse_int none chunks = receive 0 [] chunks
  request_size_limit parse_int (some []) chunks = receive 0 [] chunks
  request_size_limit parse_int (some (c ∷ text)) chunks = elim (parse_int (c ∷ text)) [
    | none ↦ invalid_length
    | some declared ↦ if declared ≤ℤᵇ pos max_request_bytes then receive 0 [] chunks else too_large
  ]
