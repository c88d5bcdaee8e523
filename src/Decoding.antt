-- ===== src/Decoding.antt =====
-- python_function_decoding.py: beam search with structural checks of the code. Python's parser, its
-- symbol tables and numpy are parameters; a request-local cache of `CachedLogits` is the model's
-- logits, and a score is a float of numpy.
pub mod Structure
pub mod Legacy
pub mod Beam
pub mod Generate
