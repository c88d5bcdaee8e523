-- ===== src/Python/Int.antt =====
-- Python's `int`, with the comparisons that the source makes. `negsuc n` is -(n + 1).
use npp_ai.Prelude.{ℕ, Bool, true, false, leb, ◌==◌}

pub data ℤ : Type 0 where
  pos : ℕ → ℤ
  negsuc : ℕ → ℤ

infix 50 ◌≤ℤᵇ◌ ◌==ℤ◌
-- `a <= b`
abbrev pub ◌≤ℤᵇ◌ : ℤ → ℤ → Bool
pos a ≤ℤᵇ pos b = leb a b
pos a ≤ℤᵇ negsuc b = false
negsuc a ≤ℤᵇ pos b = true
negsuc a ≤ℤᵇ negsuc b = leb b a

-- `a == b`
abbrev pub ◌==ℤ◌ : ℤ → ℤ → Bool
pos a ==ℤ pos b = a == b
pos a ==ℤ negsuc b = false
negsuc a ==ℤ pos b = false
negsuc a ==ℤ negsuc b = a == b

-- The number behind a test `a >= 0`.
abbrev pub pos_part : ℤ → ℕ
pos_part (pos n) = n
pos_part (negsuc n) = 0
