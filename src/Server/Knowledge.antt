-- ===== src/Server/Knowledge.antt =====
-- `submit_knowledge` of server_backend.py, with the counter that schedules training. What the file
-- system does with a request is a parameter: it may have no directory for the dataset, or raise
-- OSError when a part of the entry, or all of it, is in the file.
pub mod Laws
use npp_ai.Prelude.{
  ℕ, suc, ◌+◌, Bool, true, false, List, [], ◌∷◌, ◌++◌, length, take, ltb, leb, if◌then◌else◌,
}
use npp_ai.Text.{Text, Bytes, codes}
use npp_ai.Text.Utf8.{encode}
use npp_ai.Python.Exceptions.{Result, ok, err, http_exception, os_error}

abbrev pub training_threshold : ℕ
training_threshold = 5

abbrev pub max_dataset_entry_bytes : ℕ
max_dataset_entry_bytes = 2097152

-- `SubmitKnowledgeRequest`
pub record Sample : Type 0 where
  pub prompt : Text
  pub final_code : Text
  pub thought_process : Text

-- The dataset file, `new_samples_count`, and the trainings handed to `background_tasks`.
pub record Store : Type 0 where
  pub dataset : Bytes
  pub new_samples_count : ℕ
  pub scheduled : ℕ

abbrev pub line : Text
line = 10 ∷ []

unfoldable pub entry_of : Sample → Text
entry_of s =
    line
    ++ (codes "[USER]:"
        ++ (line
            ++ (s.prompt
                ++ (line
                    ++ (line
                        ++ (codes "[SYSTEM]:"
                            ++ (line
                                ++ (s.thought_process
                                    ++ (line
                                        ++ (line
                                            ++ (codes "[AI]:"
                                                ++ (line
                                                    ++ (s.final_code
                                                        ++ (line
                                                            ++ (codes "<|endoftext|>"
                                                            ++ line)))))))))))))))

-- The body of the `async with dataset_lock` block after the write.
count_sample : Store → Bytes → Store
count_sample store written =
    if leb training_threshold (store.new_samples_count + 1)
    then record {
      dataset = store.dataset ++ written;
      new_samples_count = 0;
      scheduled = store.scheduled + 1;
    }
    else record {
      dataset = store.dataset ++ written;
      new_samples_count = store.new_samples_count + 1;
      scheduled = store.scheduled;
    }

-- What the file system does with a request. The OSError of `mkdir` is outside the `try`; that of
-- the `with` block leaves the first bytes of the entry in the file, up to all of them.
pub data Write : Type 0 where
  no_directory : Write
  broken : ℕ → Write
  whole : Write

unfoldable pub submit_knowledge : Write → Sample → Store → Result (Unit {0}) × Store
unfolding count_sample
submit_knowledge no_directory sample store = (err (os_error "cannot make the directory"), store)
submit_knowledge (broken n) sample store =
    let bytes = encode (entry_of sample) in
    if ltb max_dataset_entry_bytes (length bytes)
    then (err (http_exception 413 "Training sample too large"), store)
    else (
      err (http_exception 500 "Unable to persist training sample"),
      record store { dataset = store.dataset ++ take n bytes },
    )
submit_knowledge whole sample store =
    let bytes = encode (entry_of sample) in
    if ltb max_dataset_entry_bytes (length bytes)
    then (err (http_exception 413 "Training sample too large"), store)
    else (ok tt, count_sample store bytes)
