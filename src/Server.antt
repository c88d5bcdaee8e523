-- ===== src/Server.antt =====
-- server_backend.py, a module for each concern of the HTTP service. A handler's
-- `HTTPException(status_code, detail)` is the exception `http_exception`.
pub mod Auth
pub mod RateLimit
pub mod Training
pub mod BodyLimit
pub mod Knowledge
pub mod Inference
pub mod ModelFiles
