-- ===== src/Training.antt =====
-- The scripts that train and measure the naming of functions (scripts/resampled_name_training.py,
-- aligned_name_copy.py, gated_copy_model.py and copy_transition_diagnostic.py). torch and numpy, the
-- hash and the Unicode tables behind `\w` are parameters.
pub mod Records
pub mod Copy
pub mod Transition
pub mod Replay
pub mod Schedule
pub mod Score
pub mod Robustness
pub mod Curriculum
pub mod NameBytes
pub mod Trace
pub mod Sequential
pub mod Namespace
pub mod Probes
pub mod Exposure
pub mod Diagnosis
