-- ===== src/Sandbox/Validate.antt =====
-- `validate` of sandbox_validate.py. What the run meets is a record; what it does to the container
-- is a list of actions.
pub mod Laws
use npp_ai.Prelude.{
  ℕ, ◌+◌, Bool, true, false, not, ◌&&◌, ◌||◌, Option, none, some, List, [], ◌∷◌, ◌++◌, length, any,
  ltb, ◌==◌, if◌then◌else◌,
}
use npp_ai.Text.{Text, codes, text_eq, nonempty}
use npp_ai.Text.Utf8.{is_text, encode, decode}
use npp_ai.Text.Decimal.{decimal}
use npp_ai.Text.Edit.{strip, replace, last_part}
use npp_ai.Python.Int.{ℤ, pos, ◌==ℤ◌}
use npp_ai.Python.Exceptions.{
  Exception, Result, ok, err, value_error, os_error, require, ◌>>=◌, ◌>>◌,
}
use npp_ai.Sandbox.Docker.{docker_command, child_environment}
use npp_ai.Sandbox.Watch.{
  Reader, fresh_reader, read_chunks, Round, Watched, cancelled, flooded, timed_out, ended, watch,
}

-- `NPPAI_DOCKER`, `NPPAI_DOCKER_HOST`, the random name and receipt, the environment with
-- `str.upper`, and the supervisor's text.
pub record Setting : Type 0 where
  pub docker : Text
  pub host : Text
  pub name : Text
  pub receipt : Text
  pub environ : List (Text × Text)
  pub upper : Text → Text
  pub supervisor : Text

-- Whether the run is cancelled before it starts, whether the process can be started, the rounds of
-- the loop with its deadline, what is read after the process has ended, and for the `finally` clause
-- whether the process is alive and whether it then ends within five seconds.
pub record Course : Type 0 where
  pub cancelled_first : Bool
  pub starts : Bool
  pub deadline : ℕ
  pub rounds : List Round
  pub tail : List (List ℕ)
  pub alive : Bool
  pub exits : Bool

-- What is done to the process and the container. `remove` is the command `rm -f`, which may fail or
-- time out: nothing depends on how it ends. `await_exit` is `process.wait(timeout=5)`.
pub data Action : Type 0 where
  start : List Text → List (Text × Text) → Action
  kill : Action
  remove : Text → Text → Text → Action
  await_exit : Action

-- `phase not in ('syntax', 'tests') or not source or …`. A source that has no UTF-8 form raises
-- UnicodeEncodeError, a kind of ValueError.
unfoldable pub is_supported : Text → Text → Bool
is_supported phase source =
    (text_eq phase (codes "syntax") || text_eq phase (codes "tests"))
    && nonempty source
    && is_text source
    && not (ltb 131072 (length (encode source)))
    && not (any (λ c. c == 0) source)

-- The line that only the supervisor can print.
unfoldable pub proof_line : Text → Text → ℕ → Text
proof_line receipt phase count =
    codes "NPPAI:" ++ (receipt ++ (codes ":" ++ (phase ++ (codes ":" ++ decimal count))))

unfoldable pub is_infrastructure : ℤ → Bool
is_infrastructure code = code ==ℤ pos 125 || code ==ℤ pos 126 || code ==ℤ pos 127

unfoldable pub feedback_of : Text → Text → Text
feedback_of receipt text =
    let shown = last_part 4096 (replace receipt (codes "[receipt]") text) in
    if nonempty shown then shown else codes "Validation did not produce a verified result"

-- What follows the two joins.
unfoldable pub verdict : Text → Text → ℕ → ℤ → Reader → ℕ × Text
unfolding is_infrastructure feedback_of
verdict receipt phase count code r =
    let text = decode r.output in
    if code ==ℤ pos 0 && text_eq (strip text) (proof_line receipt phase count) && not r.overflow
    then (0, phase ++ (codes " passed (" ++ (decimal count ++ codes " authored cases configured)")))
    else (if is_infrastructure code then 2 else 1, feedback_of receipt text)

module _ (setting : Setting) (phase : Text) (count : ℕ) (course : Course) where
  -- What is returned behind the loop, or by the `return` in it.
  unfoldable pub answer_of : Watched → ℕ × Text
  unfolding verdict
  answer_of cancelled = (3, codes "Validation cancelled")
  answer_of flooded = (1, codes "Candidate exceeded diagnostic output limit")
  answer_of timed_out = (1, codes "Candidate validation timed out")
  answer_of (ended code r) = verdict setting.receipt phase count code (read_chunks r course.tail)

  -- The `finally` clause of a process that was started.
  unfoldable pub clean_up : List Action
  clean_up =
      let late : List Action = if course.exits then [] else kill ∷ [] in
      let last = remove setting.docker setting.host setting.name ∷ await_exit ∷ late in
      if course.alive then kill ∷ last else last

  -- The process is started and watched; none while the loop still runs.
  unfoldable pub supervise : List Text → Option (Result (ℕ × Text) × List Action)
  unfolding answer_of clean_up
  supervise command =
      if course.cancelled_first
      then some (ok (3, codes "Validation cancelled"), [])
      else if not course.starts
      then some (err (os_error "cannot start the container command"), [])
      else elim (watch course.deadline fresh_reader course.rounds) [
        | none ↦ none
        | some watched ↦ some (
          ok (answer_of watched),
          start command (child_environment setting.upper setting.environ) ∷ clean_up,
        )
      ]

  unfoldable pub validate : Text → Text → Option (Result (ℕ × Text) × List Action)
  unfolding is_supported supervise
  validate source image =
      if not (is_supported phase source)
      then some (err (value_error "Unsupported phase or candidate size"), [])
      else elim (docker_command setting.supervisor setting.docker setting.host image setting.name) [
        | err e ↦ some (err e, [])
        | ok command ↦ supervise command
      ]
