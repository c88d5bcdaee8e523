-- ===== src/Backends.antt =====
-- model_backends.py: a backend answers a request or raises, and may act on the world. The
-- children are the local dense backend, the remote one and the router between them.
pub mod Dense
pub mod Remote
pub mod Router
use npp_ai.Python.Exec.{Exec}
use npp_ai.Protocol.{GenerationRequest, GenerationResponse}

-- `ModelBackend.generate`
abbrev pub Backend : Type 0 → Type 0
Backend W = GenerationRequest → Exec W GenerationResponse
