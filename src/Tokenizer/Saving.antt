-- ===== src/Tokenizer/Saving.antt =====
-- `BPETokenizer.save` and `load` of train_nppai.py. The merges are written as lines of text and
-- learned again from them.
pub mod Fresh
pub mod Laws
pub mod RoundTrip
use npp_ai.Prelude.{ℕ, Option, none, some, List, [], ◌∷◌, ◌++◌}
use npp_ai.Python.Exceptions.{Result, err, ok, Exception, value_error, other_exception, ◌>>=◌}
use npp_ai.Python.Int.{ℤ, pos, negsuc}
use npp_ai.Text.{Text}
use npp_ai.Text.Decimal.{decimal}
use npp_ai.Text.Words.{file_lines, split, int}
use npp_ai.Tokenizer.{Pair, Tokenizer, base_vocab, joined, learn}

-- `f.write(f"{p0} {p1} {idx}\n")`
unfoldable pub entry_line : Pair × ℕ → Text
unfolding decimal
entry_line (p, idx) = decimal p.0 ++ (32 ∷ (decimal p.1 ++ (32 ∷ (decimal idx ++ (10 ∷ [])))))

unfoldable pub entry_lines : List (Pair × ℕ) → Text
unfolding entry_line
entry_lines [] = []
entry_lines (entry ∷ merges) = entry_line entry ++ entry_lines merges

-- What `save` leaves in the file.
unfoldable pub save : Tokenizer → Text
unfolding entry_lines
save tok = entry_lines tok.merges

-- A token number. (`load` would take a new token with a negative number, which no training makes;
-- here it is refused. A part with a negative number is the KeyError that it is in the source.)
unfoldable pub token : Option ℤ → Result ℕ
token none = err (value_error "invalid literal for int() with base 10")
token (some (pos n)) = ok n
token (some (negsuc n)) = err (other_exception "KeyError")

-- `p0, p1, idx = map(int, line.split())`
unfoldable pub parse_entry : List Text → Result (Pair × ℕ)
unfolding int token
parse_entry (a ∷ (b ∷ (c ∷ []))) =
    token (int a) >>= λ p0. token (int b) >>= λ p1. token (int c) >>= λ idx. ok ((p0, p1), idx)
parse_entry words = err (value_error "not three numbers")

-- `self.merges[(p0, p1)] = idx` and `self.vocab[idx] = self.vocab[p0] + self.vocab[p1]`
unfoldable pub relearn : Tokenizer → Pair × ℕ → Result Tokenizer
unfolding joined learn
relearn tok (p, idx) = elim (joined (tok.vocab p.0) (tok.vocab p.1)) [
  | none ↦ err (other_exception "KeyError")
  | some bytes ↦ ok (learn tok p idx)
]

unfoldable pub load_lines : Tokenizer → List Text → Result Tokenizer
unfolding parse_entry relearn split
load_lines tok [] = ok tok
load_lines tok (line ∷ lines) =
    parse_entry (split line) >>= λ entry. relearn tok entry >>= λ tok'. load_lines tok' lines

unfoldable pub emptied : Tokenizer → Tokenizer
unfolding base_vocab
emptied tok = record { vocab_size = tok.vocab_size; merges = []; vocab = base_vocab }

-- `load`: no text stands for a file that does not exist.
unfoldable pub load : Option Text → Tokenizer → Result Tokenizer
unfolding emptied load_lines file_lines
load none tok = ok (emptied tok)
load (some text) tok = load_lines (emptied tok) (file_lines text)
