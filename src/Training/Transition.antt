-- ===== src/Training/Transition.antt =====
-- The replay of a greedy answer in scripts/copy_transition_diagnostic.py: `plan`, `point`, `step`,
-- and `phase`.
use npp_ai.Prelude.{
  ℕ, zero, suc, ◌+◌, ◌-◌, Bool, ◌&&◌, ◌||◌, Option, none, some, List, [], ◌∷◌, ◌++◌, length, drop,
  ltb, leb, ◌==◌, if◌then◌else◌,
}
use npp_ai.Text.{Bytes}
use npp_ai.Text.Edit.{last_part}
use npp_ai.Text.Utf8.{encode}
use npp_ai.Python.Exceptions.{Result, ok, err, value_error, other_exception, require, ◌>>=◌, ◌>>◌}
use npp_ai.Training.Records.{Record, frame}
use npp_ai.Training.Copy.{alignment, last_marks}

-- `xs[i]` where the caller has tested the index.
unfoldable pub at {ℓ} : {A : Type ℓ} → List A → ℕ → Option A
at [] i = none
at (x ∷ xs) zero = some x
at (x ∷ xs) (suc i) = at xs i

-- `raw[end] in b' \t\r\n\f\v'`
unfoldable pub is_blank_byte : ℕ → Bool
is_blank_byte b = b == 32 || (leb 9 b && leb b 13)

-- The loop that moves `end` on, over the bytes from there, and the byte where it stops.
unfoldable pub skip_blanks : ℕ → Bytes → Result (ℕ × ℕ)
unfolding is_blank_byte
skip_blanks end [] = err (other_exception "IndexError")
skip_blanks end (b ∷ raw) =
    let rest = skip_blanks (end + 1) raw in if is_blank_byte b then rest else ok (end, b)

unfoldable pub first_source : List (ℕ × ℕ) → Result ℕ
first_source [] = err (other_exception "IndexError")
first_source ((query, source) ∷ rest) = ok source

unfoldable pub sources_of : List (ℕ × ℕ) → List ℕ
sources_of [] = []
sources_of ((query, source) ∷ rest) = source ∷ sources_of rest

-- `prefix, target, sources, source`
pub record Plan : Type 0 where
  pub prefix : Bytes
  pub target : Bytes
  pub sources : List ℕ
  pub start : ℕ

unfoldable pub plan : (ℕ → Bool) → Record → Result Plan
unfolding skip_blanks first_source sources_of
plan is_word row = do
  (prefix, raw) ← frame row
  mapping ← alignment is_word row
  let name = encode row.function
  source ← first_source mapping
  (end, byte) ← skip_blanks (source + length name) (drop (source + length name) raw)
  require (byte == 40) (value_error "source name terminator differs")
  ok (record {
    prefix = prefix;
    target = name ++ (40 ∷ []);
    sources = sources_of mapping ++ (end ∷ []);
    start = source;
  })

pub data Phase : Type 0 where
  eos def_scaffold name name_termination signature body : Phase

-- `answer.index(b'\n')`
unfoldable pub index_from : ℕ → Bytes → Result ℕ
index_from i [] = err (value_error "subsection not found")
index_from i (b ∷ bs) = let rest = index_from (i + 1) bs in if b == 10 then ok i else rest

unfoldable pub phase : Record → ℕ → Result Phase
unfolding index_from
phase row offset =
    let answer = encode row.answer in
    let stop = 4 + length (encode row.function) in
    if leb (length answer) offset
    then ok eos
    else if ltb offset 4
    then ok def_scaffold
    else if ltb offset stop
    then ok name
    else if offset == stop
    then ok name_termination
    else (do line ← index_from 0 answer; ok (if leb offset line then signature else body))

-- The outputs of a model at the last position: two distributions and their mixture, the gate, and
-- the attention over the window.
pub record Readout : Type 1 where
  pub Float : Type 0
  pub zero_float : Float
  -- `mixed.clamp_min(…).log()` of one probability.
  pub floored_log : Float → Float
  pub argmax : List Float → ℕ

pub data Finish : Type 0 where
  ended budget : Finish

module _ (R : Readout) where
  pub record Parts : Type 0 where
    pub vocab : List R.Float
    pub copy : List R.Float
    pub gate : R.Float
    pub attention : List R.Float
    pub mixed : List R.Float

  unfoldable pub entry : List R.Float → ℕ → R.Float
  entry [] i = R.zero_float
  entry (x ∷ xs) zero = x
  entry (x ∷ xs) (suc i) = entry xs i

  unfoldable pub logs : List R.Float → List R.Float
  logs [] = []
  logs (x ∷ xs) = R.floored_log x ∷ logs xs

  -- `target` with its three probabilities, in the order of the source.
  pub record Target : Type 0 where
    pub target : ℕ
    pub probability : R.Float
    pub vocab_probability : R.Float
    pub pointer_probability : R.Float

  pub record Point : Type 0 where
    pub predicted : ℕ
    pub vocab_predicted : ℕ
    pub pointer_predicted : ℕ
    pub gate : R.Float
    pub peak_position : ℕ
    pub peak_byte : Option ℕ
    pub peak_probability : R.Float
    pub predicted_probability : R.Float
    pub predicted_vocab_probability : R.Float
    pub predicted_pointer_probability : R.Float
    pub reference : Option Target
    -- `aligned_source` and `aligned_probability`
    pub aligned : Option (ℕ × R.Float)

  unfoldable pub target_of : Parts → Option ℕ → Option Target
  unfolding entry
  target_of parts none = none
  target_of parts (some expected) = some (record {
    target = expected;
    probability = entry parts.mixed expected;
    vocab_probability = entry parts.vocab expected;
    pointer_probability = entry parts.copy expected;
  })

  unfoldable pub aligned_of : Parts → List ℕ → ℕ → Option ℕ → Option (ℕ × R.Float)
  unfolding entry
  aligned_of parts tokens window_offset none = none
  aligned_of parts tokens window_offset (some source) = some (
    source,
    (if leb window_offset source && ltb (source - window_offset) (length tokens)
        then entry parts.attention (source - window_offset)
        else R.zero_float),
  )

  unfoldable pub point : Parts → List ℕ → ℕ → Option ℕ → Option ℕ → Point
  unfolding entry logs target_of aligned_of
  point parts tokens window_offset expected source =
      let predicted = R.argmax (logs parts.mixed) in
      let peak = R.argmax parts.attention in
      record {
        predicted = predicted;
        vocab_predicted = R.argmax parts.vocab;
        pointer_predicted = R.argmax parts.copy;
        gate = parts.gate;
        peak_position = peak + window_offset;
        peak_byte = at tokens peak;
        peak_probability = entry parts.attention peak;
        predicted_probability = entry parts.mixed predicted;
        predicted_vocab_probability = entry parts.vocab predicted;
        predicted_pointer_probability = entry parts.copy predicted;
        reference = target_of parts expected;
        aligned = aligned_of parts tokens window_offset source;
      }

  module _ (width : ℕ) (components : List ℕ → List Bool → Parts) where
    unfoldable pub step : List ℕ → List Bool → Option ℕ → Option ℕ → Point
    unfolding point
    step tokens mask expected source =
        let x = last_part width tokens in
        point (components x (last_marks width mask)) x (length tokens - length x) expected source
