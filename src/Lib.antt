-- ===== src/Lib.antt =====
-- The Python programs of the repository: the model files that training writes and inference loads,
-- the generation protocol with its backends, the staged generation of a specification, a plan and
-- code, Python decoding by a beam search, the HTTP service, the sandbox that validates code, the BPE
-- tokenizer, and the scripts that schedule, replay and score the naming of functions.
--
-- How the parts interact. train_nppai.py exports a dense checkpoint; `DenseLocalBackend` of
-- model_backends.py reads it with `load_weights` of scripts/check_dense_runtime_parity.py and decodes
-- greedily; `RemoteBackend` asks another service; `BackendRouter` chooses between the two, and
-- `run_staged` of staged_generation.py calls one backend three times, where `run_routed` of
-- experimental_stage_router.py calls two. For Python code the local backend may hand a request to
-- `generate` of python_function_decoding.py. server_backend.py stands before the local backend,
-- collects training samples, and starts a training process. sandbox_validate.py runs code that was
-- generated in a container. The scripts under scripts/ train and measure how a model names functions:
-- a schedule draws and renames records, the supervision and the replays read the alignment of a name
-- with its prompt, and the audits compare reports with scores that are computed again.
--
-- Files and the code they model:
--   Text, Text/Utf8, Text/Json,  str, bytes, UTF-8, json.dumps, hexadecimal and decimal digits,
--   Text/Hex, Text/Decimal,      strip, replace and slices as the source uses them; the lines and
--   Text/Words, Text/Edit        words of a file, and int of a word
--   Python/*                     int, struct, exceptions, and functions that act on a world
--   ModelFormat                  model_format.py: validate_model_format_metadata, build_v3_header,
--                                export_v3_metadata_model
--   Checkpoint                   train_nppai.py: the parameters of NppAIModel and export_to_bin
--   Checkpoint/Load              scripts/check_dense_runtime_parity.py: load_weights
--   Protocol                     model_backends.py: GenerationRequest, GenerationResponse,
--                                format_prompt
--   Backends/Dense               model_backends.py: DenseLocalBackend.generate
--   Backends/Dense/Loading       model_backends.py: DenseLocalBackend.__init__
--   Backends/Remote              model_backends.py: RemoteBackend
--   Backends/Router              model_backends.py: BackendRouter
--   Staged                       staged_generation.py: stage_values, run_staged
--   StageRouter                  experimental_stage_router.py: run_routed
--   Decoding/Structure           python_function_decoding.py: declaration, acceptable
--   Decoding/Legacy              python_function_decoding.py: legacy_function
--   Decoding/Beam                python_function_decoding.py: the beam search of generate
--   Decoding/Generate            python_function_decoding.py: generate
--   Server/Auth                  server_backend.py: require_api_key, positive_int_env
--   Server/RateLimit             server_backend.py: enforce_rate_limit
--   Server/BodyLimit             server_backend.py: request_size_limit
--   Server/Knowledge             server_backend.py: submit_knowledge
--   Server/Inference             server_backend.py: configured_inference_backend, the inference lock,
--                                generate_code
--   Server/ModelFiles            server_backend.py: model_version, check_model_update and
--                                download_model, for calls that do not overlap
--   Server/ModelFiles/Overlap    server_backend.py: model_version in the steps of its threads
--   Server/Training              server_backend.py: run_training_process
--   Tokenizer                    train_nppai.py: BPETokenizer
--   Tokenizer/Saving             train_nppai.py: BPETokenizer.save and load
--   Tokenizer/Start              train_nppai.py: load_dataset and the start of train_model
--   Sandbox/Cases                sandbox_validate.py: load_cases
--   Sandbox/Docker               sandbox_validate.py: docker_command and the environment
--   Sandbox/Watch                sandbox_validate.py: the reading thread and the loop of validate
--   Sandbox/Validate             sandbox_validate.py: validate
--   Training/Records             scripts/resampled_name_training.py: frame, alias, rename
--   Training/Schedule            scripts/resampled_name_training.py: schedule, schedule_evidence
--   Training/Score               scripts/resampled_name_training.py: score, summary, retention;
--                                scripts/portable_quality.py: audit_groups
--   Training/Robustness          scripts/prompt_robustness.py
--   Training/Copy                scripts/aligned_name_copy.py: alignment;
--                                scripts/gated_copy_model.py: source_bounds, generate
--   Training/Transition          scripts/copy_transition_diagnostic.py: plan, point, step, phase
--   Training/Replay              scripts/copy_transition_diagnostic.py: full_generate,
--                                scaffolded, initial_at_difference, and the first difference in audit
--   Training/Diagnosis           scripts/copy_transition_diagnostic.py: audit_point, and in audit the
--                                autonomous answer, the scaffolded name and the initial point
--   Training/Curriculum          scripts/copy_curriculum.py: schedule, schedule_evidence, supervision
--                                and the inputs of train; scripts/resampled_name_training.py: sample
--   Training/Trace               scripts/copy_curriculum.py: audit_trace
--   Training/NameBytes           scripts/diagnose_name_bytes.py: plan, metrics and the decoding in
--                                infer
--   Training/Namespace           scripts/namespace_retention.py: schedule, schedule_evidence
--   Training/Exposure            scripts/namespace_retention.py, protected_sequential.py: audit_trace
--   Training/Probes              the functional probes in the audits of scripts/portable_quality.py,
--                                copy_curriculum.py, namespace_retention.py, protected_sequential.py
--   Training/Sequential          scripts/sequential_copy_model.py: step_decision, generate
--   Training/Sequential/Audit    scripts/protected_sequential.py: audit_events
--   Tests/*                      runs at concrete inputs
-- The children Laws, Reading, RoundTrip, Outcome, Tensors, History, Merging, Termination, Bounds,
-- Rounds, Differences, Entries, Fresh, Window, Decision, Audited, Recorded, Runs, Copied, Points,
-- Loop, Names, Steps, Answers, Returns, Requests and Alone, and Tokenizer/Training and
-- Training/Score/Audit, hold proofs.
--
-- State and errors. A raise is a value of `Exception`; code that calls a backend, a clock or a
-- callback takes a world and returns one. A dict is its list of items, the oldest first. A float32 is
-- its bit pattern, and the numbers of numpy are an abstract type with an order. `model_version` runs in
-- threads with no lock: Server/ModelFiles/Overlap has a list of turns, each with the number of the call
-- and the file as it is then. A write to the dataset may break after some bytes.
--
-- Bounds and fuel. The loop of `BPETokenizer.encode` has the number of bytes plus one as fuel, since
-- each round merges at least one pair. `read_chunks` of Server/ModelFiles has the length of the file,
-- since each round takes at least one byte. The loops over ranges are structural. The loop of
-- `validate` is over a list of rounds, each what the loop sees in one pass; with no rounds left it
-- still runs. The loops over token budgets have the budget as fuel, which is the bound of the source.
-- File fields are 32 and 64 bits wide, with struct's range checks.
--
-- Not modelled: SHA-256, numpy's forward pass, urllib, ipaddress, pydantic's JSON parser, int() of an
-- environment variable and file writes are parameters or outcomes that are given, as are Python's parser and symbol
-- tables, tokenize, random and the containers; torch training, the cache of logits in
-- python_function_decoding.py, and the other evaluation scripts are left out. A time is a whole number of milliseconds or microseconds.
pub mod Prelude
pub mod Text
pub mod Python
pub mod ModelFormat
pub mod Checkpoint
pub mod Protocol
pub mod Backends
pub mod Staged
pub mod Decoding
pub mod StageRouter
pub mod Server
pub mod Sandbox
pub mod Tokenizer
pub mod Training
pub mod Tests
