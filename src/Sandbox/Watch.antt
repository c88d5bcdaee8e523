-- ===== src/Sandbox/Watch.antt =====
-- The loop of `validate` in sandbox_validate.py that waits for the container, and the thread that
-- reads its output. What happens is a list of rounds, each with what the round sees.
pub mod Laws
use npp_ai.Prelude.{
  ℕ, ◌+◌, Bool, true, false, not, Option, none, some, List, [], ◌∷◌, ◌++◌, length, ltb, leb,
  if◌then◌else◌,
}
use npp_ai.Text.{Bytes}
use npp_ai.Python.Int.{ℤ}

-- What the reading thread has kept, and its event `overflow`.
pub record Reader : Type 0 where
  pub output : Bytes
  pub overflow : Bool

abbrev pub fresh_reader : Reader
fresh_reader = record { output = []; overflow = false }

unfoldable pub read_chunk : Reader → Bytes → Reader
read_chunk r chunk =
    if leb (length r.output + length chunk) 16384
    then record { output = r.output ++ chunk; overflow = r.overflow }
    else record { output = r.output; overflow = true }

unfoldable pub read_chunks : Reader → List Bytes → Reader
unfolding read_chunk
read_chunks r [] = r
read_chunks r (chunk ∷ chunks) = read_chunks (read_chunk r chunk) chunks

-- A round: the chunks that were read since the round before it, the return code if the process
-- has ended, whether the file that cancels exists, and the clock.
pub record Round : Type 0 where
  pub received : List Bytes
  pub poll : Option ℤ
  pub cancelled : Bool
  pub clock : ℕ

-- How the loop is left.
pub data Watched : Type 0 where
  cancelled : Watched
  flooded : Watched
  timed_out : Watched
  ended : ℤ → Reader → Watched

-- The tests of a round, in order: the process has ended, the run is cancelled, the output has
-- overflowed, the time is up.
unfoldable pub leave : Option ℤ → Bool → Bool → Bool → Reader → Option Watched → Option Watched
leave (some code) stop overflow late r rest = some (ended code r)
leave none true overflow late r rest = some cancelled
leave none false true late r rest = some flooded
leave none false false true r rest = some timed_out
leave none false false false r rest = rest

-- Without a round that leaves it, the loop still runs.
unfoldable pub watch : ℕ → Reader → List Round → Option Watched
unfolding read_chunks leave
watch deadline r [] = none
watch deadline r (round ∷ rounds) =
    let r' = read_chunks r round.received in
    let rest = watch deadline r' rounds in
    leave round.poll round.cancelled r'.overflow (leb deadline round.clock) r' rest
