-- ===== src/Training/Namespace.antt =====
-- The schedule of scripts/namespace_retention.py: originals as they are, renamed records with a
-- prefix that changes from draw to draw, and short answers at first.
pub mod Laws
use npp_ai.Prelude.{
  ℕ, ◌+◌, ◌-◌, ◌*◌, ◌%◌, Bool, true, false, not, ◌&&◌, ◌||◌, List, [], ◌∷◌, ◌++◌, length, map, drop,
  ltb, ◌==◌, if◌then◌else◌,
}
use npp_ai.Text.{Text, Bytes, codes, text_eq}
use npp_ai.Text.Utf8.{encode}
use npp_ai.Text.Hex.{hexdigest}
use npp_ai.Python.Exceptions.{Result, ok, value_error, require, ◌>>=◌, ◌>>◌}
use npp_ai.Training.Records.{Record, Lexer, rename, frame}
use npp_ai.Training.Schedule.{Pool, original, renamed, Batch, Random, resampled_policy}
use npp_ai.Training.Schedule
use npp_ai.Training.Curriculum.{shortened}

-- `STEPS` and `WARMUP`
abbrev pub pilot_steps : ℕ
pilot_steps = 512

abbrev pub pilot_warmup : ℕ
pilot_warmup = 128

-- `arm in ARMS`, and `ARMS[arm][0]`
unfoldable pub is_arm : Text → Bool
is_arm arm =
    text_eq arm (codes "fixed")
    || text_eq arm (codes "diverse")
    || text_eq arm (codes "retained")
    || text_eq arm (codes "diverse_retained")

unfoldable pub is_diverse : Text → Bool
is_diverse arm = text_eq arm (codes "diverse") || text_eq arm (codes "diverse_retained")

-- `PREFIXES[n % len(PREFIXES)]`
unfoldable pub prefix_of : ℕ → Text
prefix_of n =
    if n % 4 == 0
    then codes "cp_"
    else if n % 4 == 1
    then codes "token_"
    else if n % 4 == 2
    then codes "word_"
    else codes "id_"

-- The records of a batch and, for each, whether it is an original.
abbrev pub Selection : Type 0
Selection = List Record × List Bool

abbrev pub add_row : Record → Bool → Selection → Selection
add_row row flag (records, originals) = (row ∷ records, flag ∷ originals)

module _ (lexer : Lexer) (diverse : Bool) where
  unfoldable pub diversified : ℕ → ℕ → Record → Result Record
  unfolding prefix_of
  diversified step slot row =
      if diverse
      then rename lexer row (prefix_of (step * 2 + slot) ++ drop 3 row.function)
      else ok row

  abbrev pub warmed_up : ℕ → Record → Record
  warmed_up step row = if ltb step pilot_warmup then shortened row else row

  -- The inner loop of `schedule`, with `alias_slot`.
  unfoldable pub select : ℕ → ℕ → Batch → Result Selection
  unfolding diversified
  select step slot [] = ok ([], [])
  select step slot ((original, row) ∷ draws) = do
    checked ← frame row
    rest ← select step slot draws
    ok (add_row row true rest)
  select step slot ((renamed, row) ∷ draws) = do
    row' ← diversified step slot row
    let row'' = warmed_up step row'
    checked ← frame row''
    rest ← select step (slot + 1) draws
    ok (add_row row'' false rest)

  -- The outer loop, from `step`.
  unfoldable pub select_all : ℕ → List Batch → Result (List Selection)
  unfolding select
  select_all step [] = ok []
  select_all step (draws ∷ batches) = do
    selected ← select step 0 draws
    rest ← select_all (step + 1) batches
    ok (selected ∷ rest)

module _ (sha256 : Bytes → Bytes) (lexer : Lexer) (random : Random) (rows : List Record) where
  -- The batches are drawn before the first is selected, where the source takes turns: an exception
  -- of either ends the schedule.
  unfoldable pub namespace_schedule : Text → Result (List Selection)
  unfolding is_arm is_diverse select_all
  namespace_schedule arm = do
    require (is_arm arm) (value_error "unknown namespace arm")
    batches ← Schedule.schedule sha256 lexer resampled_policy random rows pilot_steps
    select_all lexer (is_diverse arm) 0 batches

-- `sum(original)`
unfoldable pub count_set : List Bool → ℕ
count_set [] = 0
count_set (b ∷ bs) = if b then count_set bs + 1 else count_set bs

-- `sum(len(r['answer'].encode()) + 1 for r in records)`
unfoldable pub response_targets_of : List Record → ℕ
response_targets_of [] = 0
response_targets_of (row ∷ rows) = length (encode row.answer) + 1 + response_targets_of rows

pub record NamespaceTally : Type 0 where
  pub content : Bytes
  pub prompts : Bytes
  pub targets : ℕ
  pub originals : ℕ
  pub aliases : ℕ

module _ (content_of : Selection → Bytes) (prompts_of : List Text → Bytes) where
  unfoldable pub add_selection : NamespaceTally → Selection → NamespaceTally
  unfolding count_set response_targets_of
  add_selection t (records, originals) = record {
    content = t.content ++ content_of (records, originals);
    prompts = t.prompts ++ prompts_of (map (λ (row : Record). row.prompt) records);
    targets = t.targets + response_targets_of records;
    originals = t.originals + count_set originals;
    aliases = t.aliases + (length originals - count_set originals);
  }

  unfoldable pub add_selections : NamespaceTally → List Selection → NamespaceTally
  unfolding add_selection
  add_selections t [] = t
  add_selections t (selected ∷ rest) = add_selections (add_selection t selected) rest

pub record NamespaceEvidence : Type 0 where
  pub sha256 : Text
  pub prompts_sha256 : Text
  pub response_targets : ℕ
  pub originals : ℕ
  pub aliases : ℕ
  pub updates : ℕ

abbrev pub nothing_tallied : NamespaceTally
nothing_tallied = record { content = []; prompts = []; targets = 0; originals = 0; aliases = 0 }

unfoldable pub namespace_evidence :
    (Bytes → Bytes)
    → Lexer
    → Random
    → List Record
    → (Selection → Bytes)
    → (List Text → Bytes)
    → Text
    → Result NamespaceEvidence
unfolding namespace_schedule add_selections
namespace_evidence sha256 lexer random rows content_of prompts_of arm = do
  selected ← namespace_schedule sha256 lexer random rows arm
  let t = add_selections content_of prompts_of nothing_tallied selected
  ok (record {
    sha256 = hexdigest (sha256 t.content);
    prompts_sha256 = hexdigest (sha256 t.prompts);
    response_targets = t.targets;
    originals = t.originals;
    aliases = t.aliases;
    updates = pilot_steps;
  })
