-- ===== src/Backends/Remote.antt =====
-- `RemoteBackend` of model_backends.py. The parts of the address (urllib), the test of an IP
-- address (ipaddress), the connection and the JSON parser (pydantic) are parameters.
pub mod Laws
use Prim.Native.String.{String}
use text.Mathlib.Text.{◌==◌ as str_eq}
use npp_ai.Prelude.{
  ℕ, ◌≡◌, Bool, true, false, not, ◌&&◌, ◌||◌, Option, none, some, List, [], ◌∷◌, length, take, any,
  ltb, ◌==◌, if◌then◌else◌,
}
use npp_ai.Text.{Text, Bytes, nonempty}
use npp_ai.Python.Int.{ℤ, pos, ◌≤ℤᵇ◌}
use npp_ai.Python.Exceptions.{
  other_exception, Result, ok, err, value_error, backend_unavailable, require, ◌>>=◌, ◌>>◌,
}
use npp_ai.Python.Exec.{Exec}
use npp_ai.Protocol.{GenerationRequest, GenerationResponse, Returned, model_validate}

-- `urlsplit(endpoint)`; an absent part is the empty text, an absent host is none.
pub record Url : Type 0 where
  pub scheme : String
  pub hostname : Option String
  pub username : String
  pub password : String
  pub path : String
  pub query : String
  pub fragment : String

-- The backend as constructed; the timeout counts milliseconds.
pub record RemoteBackend : Type 0 where
  pub endpoint : Url
  pub api_key : Text
  pub timeout : ℤ

-- What the opener makes of a request: a body, an HTTP error status, no connection, or a response that
-- is no HTTP (`http.client.HTTPException`, which no clause catches).
pub data Transport : Type 0 where
  responded : Bytes → Transport
  http_error : ℕ → Transport
  unreachable : Transport
  malformed_response : Transport

-- `if part:` for a part of the address.
abbrev pub given : String → Bool
given s = not (str_eq s "")

module _ (is_loopback : String → Option Bool) where
  -- The address is no IP address where `is_loopback` is none.
  unfoldable pub loopback_host : Option String → Bool
  loopback_host none = false
  loopback_host (some host) = elim (is_loopback host) [
    | none ↦ str_eq host "localhost"
    | some answer ↦ answer
  ]

  unfoldable pub refused_address : Url → Bool
  refused_address url =
      not (str_eq url.scheme "http" || str_eq url.scheme "https")
      || not (elim url.hostname [ none ↦ false | some host ↦ given host ])
      || given url.username
      || given url.password
      || given url.query
      || given url.fragment
      || not (str_eq url.path "/api/v1/generate")
      || (str_eq url.scheme "http" && not (loopback_host url.hostname))

  -- `RemoteBackend.__init__`
  unfoldable pub make_remote : Url → Text → Bool → ℤ → Result RemoteBackend
  make_remote url api_key allow_remote timeout = do
    require allow_remote (value_error "Remote prompt transfer must be explicitly enabled")
    require (not (refused_address url))
        (value_error "Use HTTPS, or loopback HTTP, at /api/v1/generate")
    require
        (not (not (nonempty api_key) || any (λ c. c == 13) api_key || any (λ c. c == 10) api_key))
        (value_error "A valid API key is required")
    require (pos 1 ≤ℤᵇ timeout && timeout ≤ℤᵇ pos 300000)
        (value_error "Timeout must be in (0, 300] seconds")
    ok (record { endpoint = url; api_key = api_key; timeout = timeout })

-- `exc.code in (429, 502, 503, 504)`
unfoldable pub is_temporary : ℕ → Bool
is_temporary code = code == 429 || code == 502 || code == 503 || code == 504

module _ (parse : Bytes → Returned) where
  -- What follows `opener.open`: at most 16385 bytes are read.
  unfoldable pub accept : GenerationRequest → Transport → Result GenerationResponse
  accept payload (http_error code) =
      if is_temporary code
      then err (backend_unavailable "Remote backend temporarily unavailable")
      else err (value_error "Remote backend rejected request")
  accept payload unreachable = err (backend_unavailable "Remote backend connection failed")
  accept payload malformed_response = err (other_exception "HTTPException")
  accept payload (responded body) = do
    let raw = take 16385 body
    require (not (ltb 16384 (length raw))) (value_error "Remote response exceeds protocol limit")
    result ← model_validate (parse raw)
    require (not (ltb payload.max_new_tokens result.generated_tokens))
        (value_error "Remote response exceeds requested token budget")
    ok result

  unfoldable pub generate :
      {W : Type 0}
      → (GenerationRequest → W → Transport × W)
      → GenerationRequest
      → Exec W GenerationResponse
  generate post payload w = let (answer, w') = post payload w in (accept payload answer, w')
