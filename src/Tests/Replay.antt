-- ===== src/Tests/Replay.antt =====
-- A replay of scripts/copy_transition_diagnostic.py with a model that follows the reference for a
-- while.
use npp_ai.Prelude.{
  ℕ, zero, suc, ◌-◌, ◌≡◌, refl, Bool, none, List, [], ◌∷◌, ◌++◌, length, leb, ◌&&◌,
}
use npp_ai.Text.{codes}
use npp_ai.Text.Utf8.{encode}
use npp_ai.Python.Exceptions.{Result, ok, err}
use npp_ai.Training.Records.{Record}
use npp_ai.Training.Transition.{Readout, Parts, ended}
use npp_ai.Training.Copy.{alignment}
use npp_ai.Training.Curriculum.{Sample, inputs, supervision}
use npp_ai.Training.Curriculum.Laws.{supervision-accepts}
use npp_ai.Training.Replay.{Full, full_generate}

-- A model that copies "def f(x" and then ends.
abbrev pub nth : List ℕ → ℕ → ℕ
nth [] n = 0
nth (x ∷ xs) zero = x
nth (x ∷ xs) (suc n) = nth xs n

abbrev first_of : List ℕ → ℕ
first_of [] = 0
first_of (x ∷ xs) = x

abbrev pub word_char : ℕ → Bool
word_char c = leb 48 c && leb c 122

abbrev pub row_n : Record
row_n = record {
  id = codes "1";
  function = codes "f";
  prompt = codes "f()";
  answer = codes "def f():" ++ (10 ∷ []);
}

abbrev plain_readout : Readout
plain_readout = record { Float = ℕ; zero_float = 0; floored_log = λ x. x; argmax = first_of }

abbrev copies : List ℕ → List Bool → Parts plain_readout
copies tokens mask = record {
  vocab = [];
  copy = [];
  gate = 0;
  attention = [];
  mixed = nth (codes "def f(x") (length tokens - 18) ∷ [];
}

abbrev replayed : Result (Full plain_readout)
replayed = full_generate plain_readout word_char 256 copies row_n

abbrev after_name : Full plain_readout
after_name = elim replayed [
  | ok full ↦ full
  | err e ↦ record { bytes = []; finish = ended; difference = none }
]

replayed_f : replayed ≡ ok after_name
unfolding full_generate npp_ai.Training.Replay.full_loop npp_ai.Training.Replay.source_at
    npp_ai.Training.Replay.expected_at npp_ai.Training.Replay.note
    npp_ai.Training.Replay.is_expected npp_ai.Training.Transition.plan
    npp_ai.Training.Transition.phase npp_ai.Training.Transition.at
    npp_ai.Training.Transition.index_from npp_ai.Training.Transition.skip_blanks
    npp_ai.Training.Transition.is_blank_byte npp_ai.Training.Transition.first_source
    npp_ai.Training.Transition.sources_of npp_ai.Training.Transition.step
    npp_ai.Training.Transition.point npp_ai.Training.Transition.logs npp_ai.Training.Copy.alignment
    npp_ai.Training.Copy.matches_from npp_ai.Training.Copy.opens npp_ai.Training.Copy.only_match
    npp_ai.Training.Copy.pairs_from npp_ai.Training.Copy.check_pairs npp_ai.Training.Copy.item
    npp_ai.Training.Copy.source_bounds npp_ai.Training.Copy.mask_from npp_ai.Training.Records.frame
    npp_ai.Training.Records.framed encode npp_ai.Text.Utf8.encode_char npp_ai.Text.starts_with
replayed_f = refl

abbrev rows_n : List Sample
rows_n = elim (inputs (row_n ∷ [])) [ ok rows ↦ rows | err e ↦ [] ]

inputs_n : inputs (row_n ∷ []) ≡ ok rows_n
unfolding encode inputs npp_ai.Training.Curriculum.samples npp_ai.Training.Curriculum.sample
    npp_ai.Training.Records.frame
inputs_n = refl

abbrev pairs_n : List (ℕ × ℕ)
pairs_n = (21, 8) ∷ []

aligned_n : alignment word_char row_n ≡ ok pairs_n
unfolding alignment npp_ai.Training.Copy.matches_from npp_ai.Training.Copy.opens
    npp_ai.Training.Copy.only_match npp_ai.Training.Copy.pairs_from npp_ai.Training.Copy.check_pairs
    npp_ai.Training.Copy.item npp_ai.Training.Records.frame npp_ai.Training.Records.framed encode
    npp_ai.Text.Utf8.encode_char npp_ai.Text.starts_with
aligned_n = refl

supervision-accepts_example : supervision word_char 0 (row_n ∷ []) rows_n ≡ ok ((0, 21, 8) ∷ [])
supervision-accepts_example =
    supervision-accepts word_char (row_n ∷ []) (pairs_n ∷ []) rows_n inputs_n (aligned_n, tt)
