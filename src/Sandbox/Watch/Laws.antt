-- ===== src/Sandbox/Watch/Laws.antt =====
-- How long the loop of Sandbox/Watch runs, and how much its reader keeps.
use npp_ai.Prelude.{
  ℕ, ◌≤◌, ◌≡◌, refl, Bool, true, false, inl, inr, ◌⊎◌, Option, none, some, List, [], ◌∷◌, length,
  length-append, leb, arith,
}
use npp_ai.Text.{Bytes}
use npp_ai.Python.Int.{ℤ}
use npp_ai.Sandbox.Watch.{
  Reader, read_chunk, read_chunks, leave, Round, Watched, cancelled, flooded, timed_out, ended,
  watch,
}

-- One of the rounds comes at the deadline or later.
abbrev pub Reaches : ℕ → List Round → Type 0
Reaches deadline [] = ⊥
Reaches deadline (round ∷ rounds) = (deadline ≤ round.clock) ⊎ Reaches deadline rounds

leave-late :
    (poll : Option ℤ) (stop overflow : Bool) (r : Reader) (rest : Option Watched)
    → (w : Watched) × (leave poll stop overflow true r rest ≡ some w)
unfolding leave
leave-late (some code) stop overflow r rest = (ended code r, refl)
leave-late none true overflow r rest = (cancelled, refl)
leave-late none false true r rest = (flooded, refl)
leave-late none false false r rest = (timed_out, refl)

leave-rest :
    (poll : Option ℤ) (stop overflow late : Bool) (r : Reader) (rest : Option Watched) (w : Watched)
    → rest ≡ some w
    → (v : Watched) × (leave poll stop overflow late r rest ≡ some v)
unfolding leave
leave-rest (some code) stop overflow late r rest w h = (ended code r, refl)
leave-rest none true overflow late r rest w h = (cancelled, refl)
leave-rest none false true late r rest w h = (flooded, refl)
leave-rest none false false true r rest w h = (timed_out, refl)
leave-rest none false false false r rest w h = (w, h)

-- The loop is left at the first round at the deadline, if not before: it does not run on after it.
pub watch-ends :
    (deadline : ℕ) (r : Reader) (rounds : List Round)
    → Reaches deadline rounds
    → (w : Watched) × (watch deadline r rounds ≡ some w)
unfolding watch
watch-ends deadline r [] h = absurd h
watch-ends deadline r (round ∷ rounds) (inl late) =
    let r' = read_chunks r round.received in
    let now : leb deadline round.clock ≡ true = ground arith in
    rw now (leave-late round.poll round.cancelled r'.overflow r' (watch deadline r' rounds))
watch-ends deadline r (round ∷ rounds) (inr later) =
    let r' = read_chunks r round.received in
    let (w, e) = watch-ends deadline r' rounds later in
    leave-rest round.poll round.cancelled r'.overflow (leb deadline round.clock) r'
      (watch deadline r' rounds) w e

read_chunks-bound :
    (r : Reader) (chunks : List Bytes)
    → length r.output ≤ 16384
    → length (read_chunks r chunks).output ≤ 16384
unfolding read_chunks read_chunk
read_chunks-bound r [] h = h
read_chunks-bound r (chunk ∷ chunks) h =
    read_chunks-bound (read_chunk r chunk) chunks (ground (arith, length-append r.output chunk))
