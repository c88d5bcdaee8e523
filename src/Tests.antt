-- ===== src/Tests.antt =====
-- Runs of the models at concrete inputs.
pub mod Diagnosis
pub mod Staged
pub mod Server
pub mod Tokenizer
pub mod Backends
pub mod Formats
pub mod Inference
pub mod ModelFiles
pub mod Training
pub mod Decoding
pub mod Sandbox
pub mod StageRouter
pub mod Replay
pub mod Trace
pub mod Sequential
pub mod Namespace
pub mod Probes
pub mod Exposure
