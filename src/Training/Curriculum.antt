-- ===== src/Training/Curriculum.antt =====
-- The supervised copying of scripts/copy_curriculum.py: `schedule`, `schedule_evidence` and
-- `supervision`, with `sample` of scripts/resampled_name_training.py and the padding of a batch.
-- The label -100, which no loss reads, is none.
pub mod Entries
pub mod Laws
use npp_ai.Prelude.{
  ℕ, zero, suc, ◌+◌, ◌-◌, ◌*◌, Bool, true, false, not, ◌&&◌, ◌||◌, Option, none, some, List, [],
  ◌∷◌, ◌++◌, length, map, replicate, ltb, ◌==◌, if◌then◌else◌,
}
use npp_ai.Text.{Text, Bytes, codes, text_eq}
use npp_ai.Text.Utf8.{encode}
use npp_ai.Text.Hex.{hexdigest}
use npp_ai.Python.Exceptions.{Result, ok, err, value_error, other_exception, require, ◌>>=◌, ◌>>◌}
use npp_ai.Training.Records.{Record, Lexer, frame}
use npp_ai.Training.Copy.{alignment}
use npp_ai.Training.Transition.{at}
use npp_ai.Training.Schedule.{Pool, Batch, Random, resampled_policy}
use npp_ai.Training.Schedule

-- `raw[:-1]` and `raw[1:]`
unfoldable pub without_last : Bytes → Bytes
without_last [] = []
without_last (b ∷ []) = []
without_last (b ∷ c ∷ bs) = b ∷ without_last (c ∷ bs)

unfoldable pub without_first : Bytes → Bytes
without_first [] = []
without_first (b ∷ bs) = bs

-- `y[:n] = -100`
unfoldable pub masked : ℕ → List (Option ℕ) → List (Option ℕ)
masked zero ys = ys
masked (suc n) [] = []
masked (suc n) (y ∷ ys) = none ∷ masked n ys

abbrev pub Sample : Type 0
Sample = Bytes × List (Option ℕ)

unfoldable pub sample : Record → Result Sample
unfolding without_last without_first masked
sample row = do
  (prefix, raw) ← frame row
  ok (without_last raw, masked (length prefix - 1) (map some (without_first raw)))

unfoldable pub longest : List Sample → ℕ
longest [] = 0
longest ((x, y) ∷ rest) = let n = longest rest in if ltb n (length x) then length x else n

-- `pad_sequence(…, batch_first=True)` of the inputs and of the labels.
unfoldable pub padded : ℕ → Sample → Sample
padded n (x, y) = (x ++ replicate (n - length x) 0, y ++ replicate (n - length y) none)

unfoldable pub samples : List Record → Result (List Sample)
unfolding sample
samples [] = ok []
samples (row ∷ rows) = do s ← sample row; rest ← samples rows; ok (s ∷ rest)

-- The rows of `x` and `y` that `train` makes of the records.
unfoldable pub inputs : List Record → Result (List Sample)
unfolding samples longest padded
inputs rows = do all_samples ← samples rows; ok (map (padded (longest all_samples)) all_samples)

-- `int(x[batch, source]) != int(y[batch, query])`
unfoldable pub same_entry : Option ℕ → Option (Option ℕ) → Bool
same_entry (some a) (some (some b)) = a == b
same_entry _ _ = false

-- `(batch, query, source)`
abbrev pub CopyPoint : Type 0
CopyPoint = ℕ × ℕ × ℕ

-- The inner loop of `supervision`, over the pairs of one record.
unfoldable pub supervise_pairs : ℕ → Sample → List (ℕ × ℕ) → Result (List CopyPoint)
unfolding same_entry
supervise_pairs batch s [] = ok []
supervise_pairs batch s ((query, source) ∷ rest) = do
  require (ltb source query && ltb query (length s.0) && same_entry (at s.0 source) (at s.1 query))
      (value_error "invalid causal copy supervision")
  points ← supervise_pairs batch s rest
  ok ((batch, query, source) ∷ points)

unfoldable pub supervision : (ℕ → Bool) → ℕ → List Record → List Sample → Result (List CopyPoint)
unfolding supervise_pairs
supervision is_word batch [] rows = ok []
supervision is_word batch (row ∷ records) [] = err (other_exception "IndexError")
supervision is_word batch (row ∷ records) (s ∷ rows) = do
  pairs ← alignment is_word row
  points ← supervise_pairs batch s pairs
  rest ← supervision is_word (batch + 1) records rows
  ok (points ++ rest)

-- `target_gate`: 1 at the points.
unfoldable pub gate_at : List CopyPoint → ℕ → ℕ → Bool
gate_at [] batch query = false
gate_at ((batch', query', source) ∷ points) batch query =
    (batch' == batch && query' == query) || gate_at points batch query

abbrev pub curriculum : Text
curriculum = codes "curriculum"

unfoldable pub shortened : Record → Record
shortened row = record row { answer = codes "def " ++ (row.function ++ codes "(") }

-- `STEPS` and `WARMUP`
abbrev pub total_steps : ℕ
total_steps = 1024

abbrev pub warmup_steps : ℕ
warmup_steps = 256

-- The batches of a schedule, from `step`.
unfoldable pub warmed : Text → ℕ → List Batch → List (List Record)
unfolding shortened
warmed arm step [] = []
warmed arm step (batch ∷ rest) =
    let records = map (λ (draw : Pool × Record). draw.1) batch in
    (if text_eq arm curriculum && ltb step warmup_steps then map shortened records else records)
    ∷ warmed arm (step + 1) rest

unfoldable pub schedule :
    (Bytes → Bytes) → Lexer → Random → List Record → Text → Result (List (List Record))
unfolding warmed
schedule sha256 lexer random rows arm = do
  require (text_eq arm (codes "control") || text_eq arm curriculum)
      (value_error "unknown curriculum arm")
  selected ← Schedule.schedule sha256 lexer resampled_policy random rows total_steps
  ok (warmed arm 0 selected)

-- `quality.encoded(records)` is a parameter.
pub record CurriculumEvidence : Type 0 where
  pub digest : Text
  pub response_targets : ℕ
  pub updates : ℕ
  pub examples : ℕ

unfoldable pub targets_of : List Record → ℕ
targets_of [] = 0
targets_of (row ∷ rows) = (length (encode row.answer) + 1) + targets_of rows

unfoldable pub all_targets : List (List Record) → ℕ
unfolding targets_of
all_targets [] = 0
all_targets (records ∷ rest) = targets_of records + all_targets rest

unfoldable pub hashed : (List Record → Bytes) → List (List Record) → Bytes
hashed encoded [] = []
hashed encoded (records ∷ rest) = encoded records ++ hashed encoded rest

unfoldable pub schedule_evidence :
    (Bytes → Bytes)
    → Lexer
    → Random
    → (List Record → Bytes)
    → List Record
    → Text
    → Result CurriculumEvidence
unfolding schedule all_targets hashed
schedule_evidence sha256 lexer random encoded rows arm = do
  batches ← schedule sha256 lexer random rows arm
  ok (record {
    digest = hexdigest (sha256 (hashed encoded batches));
    response_targets = all_targets batches;
    updates = total_steps;
    examples = total_steps * 4;
  })
