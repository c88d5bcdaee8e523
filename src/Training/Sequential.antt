-- ===== src/Training/Sequential.antt =====
-- The decoder with a hard cursor of scripts/sequential_copy_model.py, `step_decision` and `generate`.
-- The network and its floats are parameters.
pub mod Audit
pub mod Window
pub mod Decision
pub mod Audited
pub mod Recorded
pub mod Runs
pub mod Copied
use npp_ai.Prelude.{
  ℕ, zero, suc, ◌+◌, ◌-◌, Bool, true, false, not, ◌&&◌, Option, none, some, List, [], ◌∷◌, ◌++◌,
  length, drop, any, ltb, leb, ◌==◌, if◌then◌else◌,
}
use npp_ai.Text.{Text, Bytes, codes, text_eq}
use npp_ai.Text.Utf8.{decode}
use npp_ai.Python.Exceptions.{Result, ok, value_error, require, ◌>>=◌, ◌>>◌}
use npp_ai.Training.Records.{framed}
use npp_ai.Training.Copy.{source_bounds, mask_from}
use npp_ai.Training.Transition.{at}

-- The floats of the exit: a number, `probability >= 0.5`, `math.isfinite(p)` and `0 <= p <= 1`.
pub record Probability : Type 1 where
  pub Float : Type 0
  pub is_half : Float → Bool
  pub is_finite : Float → Bool
  pub in_unit : Float → Bool

-- `state`: the mode, and the cursor where the mode is "copy". (The source keeps an old cursor in
-- the mode "ended", where nothing reads it.)
pub data State : Type 0 where
  waiting : State
  copying : ℕ → State
  ended : State

pub data Kind : Type 0 where
  at_boundary exit copy : Kind

unfoldable pub nonzero : Option ℕ → Option ℕ
nonzero none = none
nonzero (some byte) = if byte == 0 then none else some byte

-- A byte with its mark: only a marked one can be copied.
unfoldable pub marked : Option Bool → Option ℕ → Option ℕ
unfolding nonzero
marked none byte = none
marked (some false) byte = none
marked (some true) byte = nonzero byte

module _ (P : Probability) where
  -- What the model gives for the window at its last position: the byte of the largest vocabulary
  -- probability, the position of the largest attention, and the probability of an exit for a cursor.
  pub record Outputs : Type 0 where
    pub base_byte : ℕ
    pub peak : ℕ
    pub exit_probability : ℕ → P.Float

  -- An event with its query; `decided` has what an event at the boundary lacks, the source byte and
  -- the probability.
  pub record CursorEvent : Type 0 where
    pub response_query : ℕ
    pub kind : Kind
    pub cursor : ℕ
    pub base_byte : ℕ
    pub chosen : ℕ
    pub decided : Option (ℕ × P.Float)

  -- `valid`, and the byte under the cursor where it is: the cursor lies in the window, on a byte of
  -- the prompt.
  unfoldable pub source_byte : List ℕ → List Bool → ℕ → ℕ → Option ℕ
  unfolding at marked
  source_byte tokens mask offset cursor =
      if leb offset cursor
      then marked (at mask (cursor - offset)) (at tokens (cursor - offset))
      else none

  -- The choice at a byte of the prompt: the base byte where the name is left, else that byte.
  unfoldable pub choose_byte : ℕ → ℕ → ℕ → ℕ → P.Float → Bool → ℕ × CursorEvent × State
  choose_byte base_byte query byte cursor p true = (
    base_byte,
    record {
      response_query = query;
      kind = exit;
      cursor = cursor;
      base_byte = base_byte;
      chosen = base_byte;
      decided = some (byte, p);
    },
    ended,
  )
  choose_byte base_byte query byte cursor p false = (
    byte,
    record {
      response_query = query;
      kind = copy;
      cursor = cursor;
      base_byte = base_byte;
      chosen = byte;
      decided = some (byte, p);
    },
    copying (cursor + 1),
  )

  -- The mode "copy", at a cursor: the byte that is chosen, the event and the next state.
  unfoldable pub copy_decision : Outputs → ℕ → Option ℕ → ℕ → ℕ → ℕ × CursorEvent × State
  unfolding choose_byte
  copy_decision outputs query none offset cursor = (
    outputs.base_byte,
    record {
      response_query = query;
      kind = at_boundary;
      cursor = cursor;
      base_byte = outputs.base_byte;
      chosen = outputs.base_byte;
      decided = none;
    },
    ended,
  )
  copy_decision outputs query (some byte) offset cursor =
      let probability = outputs.exit_probability (cursor - offset) in
      choose_byte outputs.base_byte query byte cursor probability (P.is_half probability)

  -- The trigger: behind "def " the mode changes, to "copy" where the window has a byte of the prompt.
  unfoldable pub triggered : Outputs → List Bool → ℕ → Bytes → State
  triggered outputs mask offset output =
      if text_eq output (codes "def ")
      then (if any (λ b. b) mask then copying (offset + outputs.peak) else ended)
      else waiting

  unfoldable pub entered : Outputs → List Bool → ℕ → Bytes → State → State
  unfolding triggered
  entered outputs mask offset output waiting = triggered outputs mask offset output
  entered outputs mask offset output (copying cursor) = copying cursor
  entered outputs mask offset output ended = ended

  unfoldable pub decided_in :
      Outputs → ℕ → List ℕ → List Bool → ℕ → State → ℕ × Option CursorEvent × State
  unfolding source_byte copy_decision
  decided_in outputs query tokens mask offset (copying cursor) =
      let (chosen, event, state) =
        copy_decision outputs query (source_byte tokens mask offset cursor) offset cursor in
      (chosen, some event, state)
  decided_in outputs query tokens mask offset state = (outputs.base_byte, none, state)

  -- `step_decision`, for the query whose number `generate` puts into the event.
  unfoldable pub step_decision :
      Outputs → ℕ → List ℕ → List Bool → ℕ → Bytes → State → ℕ × Option CursorEvent × State
  unfolding decided_in entered
  step_decision outputs query tokens mask offset output state =
      decided_in outputs query tokens mask offset (entered outputs mask offset output state)

  abbrev pub add_event : Option CursorEvent → List CursorEvent → List CursorEvent
  add_event none events = events
  add_event (some event) events = event ∷ events

  -- The rest of a round: the loop ends at byte 0, and goes on with any other.
  unfoldable pub finish :
      ℕ → Option CursorEvent → Bytes → Bytes × List CursorEvent → Bytes × List CursorEvent
  finish token event output (final, events) =
      if token == 0 then (output, add_event event []) else (final, add_event event events)

  module _ (width : ℕ) (model : List ℕ → List Bool → Outputs) where
    -- The loop over `range(budget)` from a query on: the output in the end, and the events from there.
    unfoldable pub answer_loop : ℕ → ℕ → ℕ → ℕ → List ℕ → Bytes → State → Bytes × List CursorEvent
    unfolding mask_from step_decision finish
    answer_loop zero query left right tokens output state = (output, [])
    answer_loop (suc rounds) query left right tokens output state =
        let offset = length tokens - width in
        let x = drop offset tokens in
        let mask = mask_from left right offset (length x) in
        let (token, event, state') =
          step_decision (model x mask) query x mask offset output state in
        finish token event output (
          answer_loop rounds (query + 1) left right (tokens ++ (token ∷ []))
            (output ++ (token ∷ [])) state')

    -- `generate(…, with_events=True)`
    unfoldable pub generate_with_events : Text → ℕ → Result (Text × List CursorEvent × Bytes)
    unfolding answer_loop source_bounds framed
    generate_with_events prompt budget = do
      let frame = framed prompt
      require (not (ltb width (length frame))) (value_error "prompt exceeds context")
      (left, right) ← source_bounds prompt
      let (output, events) = answer_loop budget 0 left right frame [] waiting
      ok (decode output, events, output)
