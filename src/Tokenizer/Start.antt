-- ===== src/Tokenizer/Start.antt =====
-- How a run of train_nppai.py comes by its text and its tokenizer: `load_dataset` and the start of
-- the main program.
pub mod Laws
use npp_ai.Prelude.{ℕ, Option, none, some, List, [], ◌∷◌, ◌++◌, length, ltb, if◌then◌else◌}
use npp_ai.Python.Exceptions.{Result, err, ok, Exception, other_exception, ◌>>=◌}
use npp_ai.Text.{Text}
use npp_ai.Tokenizer.{Tokenizer, make_tokenizer, train}
use npp_ai.Tokenizer.Saving.{save, load}

-- `text += file.read() + "\n\n"`; a file that cannot be read is reported and left out.
unfoldable pub add_file : Text → Result Text → Text
add_file text (ok content) = text ++ (content ++ (10 ∷ (10 ∷ [])))
add_file text (err e) = text

unfoldable pub read_files : Text → List (Result Text) → Text
unfolding add_file
read_files text [] = text
read_files text (file ∷ files) = read_files (add_file text file) files

-- `load_dataset`, by what `glob` found in the folder and each file gave; no list stands for a folder
-- that does not exist (and is made).
unfoldable pub load_dataset : Option (List (Result Text)) → Text
unfolding read_files
load_dataset none = []
load_dataset (some files) = read_files [] files

-- The tokenizer of a run and the file of merges that it leaves: loaded from the file where there is
-- one, else trained and saved. A dataset below 100 characters ends the run.
unfoldable pub prepare_tokenizer : Text → Option Text → Result (Tokenizer × Text)
unfolding save load
prepare_tokenizer dataset bpe_file =
    if ltb (length dataset) 100 then err (other_exception "exit(1)") else elim bpe_file [
      | some merges ↦ load (some merges) (make_tokenizer 1024) >>= λ tok. ok (tok, merges)
      | none ↦ let tok = train (make_tokenizer 1024) dataset in ok (tok, save tok)
    ]
