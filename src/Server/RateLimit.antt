-- ===== src/Server/RateLimit.antt =====
-- `enforce_rate_limit` of server_backend.py. Times are microseconds of the monotonic clock, a
-- limit and a window (in seconds) are those that `positive_int_env` returns.
pub mod History
pub mod Laws
use npp_ai.Prelude.{
  ℕ, suc, ◌+◌, ◌-◌, ◌*◌, ◌/◌, Bool, true, false, List, [], ◌∷◌, ◌++◌, length, leb, if◌then◌else◌,
}
use Prim.Native.Nat.{max}
use Prim.Native.String.{String}
use text.Mathlib.Text.{◌==◌ as str_eq}

-- `rate_limit_hits`, a defaultdict: every client has its times, the oldest first.
abbrev pub Hits : Type 0
Hits = String → List ℕ

pub data Verdict : Type 0 where
  admitted : Verdict
  -- Status 429 with the header `Retry-After`.
  limited : ℕ → Verdict

abbrev pub second : ℕ
second = 1000000

-- `while hits and hits[0] <= cutoff: hits.popleft()` with `cutoff = now - window`.
unfoldable pub expire : ℕ → ℕ → List ℕ → List ℕ
expire now window [] = []
expire now window (t ∷ hits) =
    let rest = expire now window hits in if leb (t + window) now then rest else t ∷ hits

unfoldable pub retry_after : ℕ → ℕ → List ℕ → ℕ
retry_after now window [] = 0
retry_after now window (oldest ∷ hits) = max 1 ((window - (now - oldest)) / second + 1)

-- The deque of one client, and the verdict.
unfoldable pub admit : ℕ → ℕ → ℕ → List ℕ → Verdict × List ℕ
admit limit window now hits =
    let kept = expire now window hits in
    if leb limit (length kept)
    then (limited (retry_after now window kept), kept)
    else (admitted, kept ++ (now ∷ []))

update : Hits → String → List ℕ → Hits
update hits client times other = if str_eq client other then times else hits other

unfoldable pub enforce_rate_limit : ℕ → ℕ → ℕ → String → Hits → Verdict × Hits
unfolding update
enforce_rate_limit limit window now client hits =
    let (verdict, times) = admit limit (window * second) now (hits client) in
    (verdict, update hits client times)
