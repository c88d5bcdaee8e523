-- ===== src/Tokenizer/Start/Laws.antt =====
-- Two runs of the training program, one after the other.
use npp_ai.Prelude.{◌≤◌, ◌≡◌, refl, ap, true, false, none, some, ltb, length, arith}
use npp_ai.Python.Exceptions.{ok, ◌>>=◌}
use npp_ai.Text.{Text}
use npp_ai.Text.Utf8.{is_text}
use npp_ai.Tokenizer.{make_tokenizer, train}
use npp_ai.Tokenizer.Saving.{save}
use npp_ai.Tokenizer.Saving.RoundTrip.{load-save_trained}
use npp_ai.Tokenizer.Start.{prepare_tokenizer}

-- A first run on a text of at least 100 characters, with no file of merges, trains a tokenizer and
-- leaves a file; every later run on a long enough text, the same or not, loads that same tokenizer
-- from it and leaves the file as it is.
pub prepare_tokenizer-again :
    (dataset later : Text)
    → is_text dataset ≡ true
    → 100 ≤ length dataset
    → 100 ≤ length later
    → (file : Text) × (prepare_tokenizer dataset none
        ≡ ok (train (make_tokenizer 1024) dataset, file))
      × (prepare_tokenizer later (some file) ≡ ok (train (make_tokenizer 1024) dataset, file))
unfolding prepare_tokenizer
prepare_tokenizer-again dataset later h long long' =
    let tok = train (make_tokenizer 1024) dataset in
    let enough : ltb (length dataset) 100 ≡ false = ground arith in
    let enough' : ltb (length later) 100 ≡ false = ground arith in
    let size : (make_tokenizer 1024).vocab_size ≡ 1024 = unfold make_tokenizer in refl in
    (
      save tok,
      rw (prepare_tokenizer, enough),
      rw (prepare_tokenizer, enough')
          (ap (λ r. r >>= λ u. ok (u, save tok))
            (load-save_trained 1024 dataset (make_tokenizer 1024) h size)),
    )
