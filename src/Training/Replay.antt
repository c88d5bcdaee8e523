-- ===== src/Training/Replay.antt =====
-- The greedy replays of scripts/copy_transition_diagnostic.py: `full_generate`, `scaffolded` and
-- `initial_at_difference`, and the first difference that `audit` recomputes.
pub mod Differences
pub mod Laws
use npp_ai.Python.Int.{ℤ, pos, negsuc}
use npp_ai.Prelude.{
  ℕ, zero, suc, ◌+◌, ◌-◌, ◌*◌, Bool, true, false, not, ◌&&◌, ◌||◌, Option, none, some, List, [],
  ◌∷◌, ◌++◌, length, take, ltb, leb, ◌==◌, if◌then◌else◌,
}
use npp_ai.Text.{Text, Bytes, codes, text_eq}
use npp_ai.Text.Utf8.{encode, decode}
use npp_ai.Python.Int.{ℤ, pos}
use npp_ai.Python.Exceptions.{Result, ok, err, other_exception, ◌>>=◌}
use npp_ai.Training.Records.{Record}
use npp_ai.Training.Copy.{source_bounds, mask_from}
use npp_ai.Training.Transition.{
  at, Plan, plan, Phase, phase, Finish, ended, budget, Readout, Parts, Point, step,
}

-- `SPEC['full_budget']` and `SPEC['def_scaffold_budget']`
abbrev pub full_budget : ℕ
full_budget = 160

abbrev pub scaffold_budget : ℕ
scaffold_budget = 32

-- `token == expected`, where None is no token.
unfoldable pub is_expected : ℕ → Option ℕ → Bool
is_expected token none = false
is_expected token (some expected) = token == expected

-- `next((i for i, (a, b) in enumerate(zip(observed, expected)) if a != b), None)`
unfoldable pub first_difference : ℕ → Bytes → Bytes → Option ℕ
first_difference i [] expected = none
first_difference i (a ∷ observed) [] = none
first_difference i (a ∷ observed) (b ∷ expected) =
    let rest = first_difference (i + 1) observed expected in if a == b then rest else some i

-- `sources[offset - 4] if 4 <= offset < 4 + len(target) else None`
unfoldable pub source_at : Plan → ℕ → Result (Option ℕ)
source_at p offset =
    if leb 4 offset && ltb offset (4 + length p.target)
    then elim (at p.sources (offset - 4)) [
      | none ↦ err (other_exception "IndexError")
      | some source ↦ ok (some source)
    ]
    else ok none

module _ (R : Readout) where
  pub record Difference : Type 0 where
    pub offset : ℕ
    pub phase : Phase
    pub point : Point R

  pub record Full : Type 0 where
    pub bytes : Bytes
    pub finish : Finish
    pub difference : Option Difference

  -- `full['output']`
  abbrev pub output : Full → Text
  output full = decode full.bytes

  -- `output + ([0] if full['finish'] == 'eos' else [])`
  unfoldable pub observed : Full → Bytes
  observed full = elim full.finish [ ended ↦ full.bytes ++ (0 ∷ []) | budget ↦ full.bytes ]

  -- `answer[offset] if difference is None and offset < len(answer) else None`
  unfoldable pub expected_at : Bytes → ℕ → Option Difference → Option ℕ
  expected_at answer offset none = at answer offset
  expected_at answer offset (some d) = none

  -- `if difference is None and token != expected: difference = …`
  unfoldable pub note :
      Record → ℕ → Option ℕ → Point R → Option Difference → Result (Option Difference)
  unfolding is_expected
  note row offset expected item (some d) = ok (some d)
  note row offset expected item none = if is_expected item.predicted expected then ok none else (do
    p ← phase row offset
    ok (some (record { offset = offset; phase = p; point = item })))

  module _ (row : Record) (step : List ℕ → List Bool → Option ℕ → Option ℕ → Point R) where
    -- The loop over `range(SPEC['full_budget'])`, from `offset`.
    unfoldable pub full_loop :
        Plan → Bytes → ℕ → ℕ → List ℕ → List Bool → Bytes → Option Difference → Result Full
    unfolding source_at expected_at note
    full_loop p answer zero offset tokens mask bytes difference =
        ok (record { bytes = bytes; finish = budget; difference = difference })
    full_loop p answer (suc rounds) offset tokens mask bytes difference = do
      source ← source_at p offset
      let expected = expected_at answer offset difference
      let item = step tokens mask expected source
      difference' ← note row offset expected item difference
      let token = item.predicted
      elim (token == 0) [
        | true ↦ ok (record { bytes = bytes; finish = ended; difference = difference' })
        | false ↦
            full_loop p answer rounds (offset + 1) (tokens ++ (token ∷ [])) (mask ++ (false ∷ []))
              (bytes ++ (token ∷ [])) difference'
      ]

  -- A point of the trace: `offset`, `reference_prefix_intact`, `peak_in_name` and `peak_delta`.
  pub record Traced : Type 0 where
    pub point : Point R
    pub offset : ℕ
    pub intact : Bool
    pub peak_in_name : Bool
    pub peak_delta : Option ℤ

  pub record Scaffold : Type 0 where
    pub bytes : Bytes
    pub trace : List Traced
    pub exact_name : Bool

  -- `trace[-1]['peak_position']`
  unfoldable pub last_peak : List Traced → Option ℕ
  last_peak [] = none
  last_peak (t ∷ []) = some t.point.peak_position
  last_peak (t ∷ t' ∷ rest) = last_peak (t' ∷ rest)

  unfoldable pub delta : Option ℕ → ℕ → Option ℤ
  delta none peak = none
  delta (some before) peak =
      some (if leb before peak then pos (peak - before) else negsuc ((before - peak) - 1))

  -- `token in (0, 10, 40)`
  unfoldable pub ends_name : ℕ → Bool
  ends_name token = token == 0 || token == 10 || token == 40

  unfoldable pub scaffold_loop :
      Plan
      → (List ℕ → List Bool → Option ℕ → Option ℕ → Point R)
      → ℕ
      → ℕ
      → List ℕ
      → List Bool
      → Bytes
      → List Traced
      → Bytes × List Traced
  unfolding last_peak delta ends_name
  scaffold_loop p step zero offset tokens mask bytes trace = (bytes, trace)
  scaffold_loop p step (suc rounds) offset tokens mask bytes trace =
      let intact = text_eq bytes (take offset p.target) && ltb offset (length p.target) in
      let item =
        step tokens mask (if intact then at p.target offset else none)
          (if intact then at p.sources offset else none) in
      let token = item.predicted in
      let peak = item.peak_position in
      let traced : Traced = record {
        point = item;
        offset = offset;
        intact = intact;
        peak_in_name = leb p.start peak && ltb (peak + 1) (p.start + length p.target);
        peak_delta = delta (last_peak trace) peak;
      } in
      elim (ends_name token) [
        | true ↦ (bytes ++ (token ∷ []), trace ++ (traced ∷ []))
        | false ↦
            scaffold_loop p step rounds (offset + 1) (tokens ++ (token ∷ [])) (mask ++ (false ∷ []))
              (bytes ++ (token ∷ [])) (trace ++ (traced ∷ []))
      ]

  module _ (is_word : ℕ → Bool) (width : ℕ) (components : List ℕ → List Bool → Parts R) where
    unfoldable pub full_generate : Record → Result Full
    unfolding full_loop
    full_generate row = do
      p ← plan is_word row
      (left, right) ← source_bounds row.prompt
      full_loop row (step R width components) p (encode row.answer ++ (0 ∷ [])) full_budget 0
          p.prefix (mask_from left right 0 (length p.prefix)) [] none

    unfoldable pub initial_at_difference : Record → Option Difference → Result (Option (Point R))
    unfolding source_at
    initial_at_difference row none = ok none
    initial_at_difference row (some difference) = do
      p ← plan is_word row
      let offset = difference.offset
      let tokens = p.prefix ++ take offset (encode row.answer)
      (left, right) ← source_bounds row.prompt
      elim (at (encode row.answer ++ (0 ∷ [])) offset) [
        | none ↦ err (other_exception "IndexError")
        | some expected ↦ (do
          source ← source_at p offset
          ok (
              some (
                step R width components tokens (mask_from left right 0 (length tokens))
                  (some expected) source)))
      ]

    unfoldable pub scaffolded : Record → Result Scaffold
    unfolding scaffold_loop
    scaffolded row = do
      p ← plan is_word row
      let tokens = p.prefix ++ encode (codes "def ")
      (left, right) ← source_bounds row.prompt
      let (bytes, trace) =
          scaffold_loop p (step R width components) scaffold_budget 0 tokens
            (mask_from left right 0 (length tokens)) [] []
      ok (record { bytes = bytes; trace = trace; exact_name = text_eq bytes p.target })
