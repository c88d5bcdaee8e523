-- ===== src/Training/Schedule.antt =====
-- The batches of scripts/resampled_name_training.py: `schedule` and `schedule_evidence`. The
-- generator of random numbers, the hash and `json.dumps` are parameters.
pub mod Laws
use npp_ai.Prelude.{
  ℕ, zero, suc, ◌+◌, ◌*◌, Bool, true, false, not, ◌&&◌, ◌||◌, List, [], ◌∷◌, ◌++◌, length, map, any,
  ◌==◌, if◌then◌else◌,
}
use npp_ai.Text.{Text, Bytes, codes, text_eq}
use npp_ai.Text.Utf8.{encode}
use npp_ai.Text.Decimal.{decimal}
use npp_ai.Text.Hex.{hexdigest}
use npp_ai.Python.Exceptions.{Result, ok, err, value_error, require, ◌>>=◌, ◌>>◌}
use npp_ai.Training.Records.{Record, Lexer, alias, rename}

pub data Pool : Type 0 where
  original renamed : Pool

abbrev pub Batch : Type 0
Batch = List (Pool × Record)

-- `random.Random`: `sample` raises where the population is too small.
pub record Random : Type 1 where
  pub State : Type 0
  -- `Random(42)`
  pub seeded : State
  pub sample : List Record → ℕ → State → Result (List Record × State)
  pub shuffle : Batch → State → Batch × State

-- `encoded` of the two values that are hashed.
pub record Encoder : Type 0 where
  pub order : List (Pool × Text) → Bytes
  pub content : Batch → Bytes

abbrev pub fixed_policy : Text
fixed_policy = codes "fixed"

abbrev pub resampled_policy : Text
resampled_policy = codes "resampled"

module _ (sha256 : Bytes → Bytes) (lexer : Lexer) (policy : Text) where
  -- `record['function'] if policy == 'fixed' else f'{step}/{slot}'`
  unfoldable pub key_of : ℕ → ℕ → Record → Text
  key_of step slot row =
      if text_eq policy fixed_policy
      then row.function
      else decimal step ++ (codes "/" ++ decimal slot)

  unfoldable pub rename_all : ℕ → ℕ → List Record → Result Batch
  unfolding key_of
  rename_all step slot [] = ok []
  rename_all step slot (row ∷ rows) = do
    changed ←
        rename lexer row
          (alias sha256 (policy ++ (codes "/" ++ key_of step slot row)) (codes "nc_"))
    rest ← rename_all step (slot + 1) rows
    ok ((renamed, changed) ∷ rest)

  module _ (random : Random) (rows : List Record) where
    unfoldable pub batch : ℕ → random.State → Result (Batch × random.State)
    unfolding rename_all
    batch step state = do
      (first, state') ← random.sample rows 2 state
      (second, state'') ← random.sample rows 2 state'
      changed ← rename_all step 0 second
      ok (random.shuffle (map (λ row. (original, row)) first ++ changed) state'')

    -- The loop over `range(steps)`, from `step`.
    unfoldable pub batches : ℕ → ℕ → random.State → Result (List Batch)
    unfolding batch
    batches zero step state = ok []
    batches (suc rounds) step state = do
      (selected, state') ← batch step state
      rest ← batches rounds (step + 1) state'
      ok (selected ∷ rest)

    unfoldable pub schedule : ℕ → Result (List Batch)
    unfolding batches
    schedule steps = do
      require (text_eq policy fixed_policy || text_eq policy resampled_policy)
          (value_error "unknown policy")
      batches steps 0 random.seeded

-- `order`, `content`, `draws`, `names` and `targets`.
pub record Tally : Type 0 where
  pub order : Bytes
  pub content : Bytes
  pub originals : ℕ
  pub renameds : ℕ
  pub names : List Text
  pub targets : ℕ

abbrev pub no_tally : Tally
no_tally = record { order = []; content = []; originals = 0; renameds = 0; names = []; targets = 0 }

-- `names.add(name)`
unfoldable pub add_name : Text → List Text → List Text
add_name name names = if any (text_eq name) names then names else names ++ (name ∷ [])

unfoldable pub add_draw : Tally → Pool × Record → Tally
unfolding add_name
add_draw t (original, row) = record t {
  originals = t.originals + 1;
  targets = t.targets + (length (encode row.answer) + 1);
}
add_draw t (renamed, row) = record t {
  renameds = t.renameds + 1;
  targets = t.targets + (length (encode row.answer) + 1);
  names = add_name row.function t.names;
}

unfoldable pub add_draws : Tally → Batch → Tally
unfolding add_draw
add_draws t [] = t
add_draws t (draw ∷ rest) = add_draws (add_draw t draw) rest

unfoldable pub add_batch : Encoder → Tally → Batch → Tally
unfolding add_draws
add_batch encoder t selected =
    add_draws
      (record t {
        order =
            t.order ++ encoder.order (map (λ (draw : Pool × Record). (draw.0, draw.1.id)) selected);
        content = t.content ++ encoder.content selected;
      })
      selected

unfoldable pub tally : Encoder → Tally → List Batch → Tally
unfolding add_batch
tally encoder t [] = t
tally encoder t (selected ∷ rest) = tally encoder (add_batch encoder t selected) rest

pub record Evidence : Type 0 where
  pub order_sha256 : Text
  pub content_sha256 : Text
  pub originals : ℕ
  pub renameds : ℕ
  pub unique_aliases : ℕ
  pub response_targets : ℕ

unfoldable pub schedule_evidence :
    (Bytes → Bytes) → Lexer → Text → (random : Random) → Encoder → List Record → ℕ → Result Evidence
unfolding schedule tally
schedule_evidence sha256 lexer policy random encoder rows steps = do
  selected ← schedule sha256 lexer policy random rows steps
  let t = tally encoder no_tally selected
  require (not (text_eq policy resampled_policy && not (length t.names == steps * 2)))
      (value_error "per-draw alias collision")
  ok (record {
    order_sha256 = hexdigest (sha256 t.order);
    content_sha256 = hexdigest (sha256 t.content);
    originals = t.originals;
    renameds = t.renameds;
    unique_aliases = length t.names;
    response_targets = t.targets;
  })
