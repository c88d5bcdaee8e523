-- ===== src/Checkpoint/Tensors.antt =====
-- Tensors as words and bytes: shapes, transposes, `from_buffer` and `take`.
use npp_ai.Prelude.{
  ℕ, zero, suc, ◌*◌, ◌<◌, ◌≡◌, refl, ◌∙◌, ap, some, [], ◌∷◌, ◌++◌, length, take-append, drop-append,
  length-append, arith, ltb, false,
}
use npp_ai.Python.Exceptions.{ok}
use npp_ai.Python.Struct.{le_bytes}
use npp_ai.Python.Struct.Laws.{le_value-le_bytes_four}
use npp_ai.Checkpoint.{Vector, Matrix, flatten, heads, tails, transpose, to_bytes}
use npp_ai.Checkpoint.Load.{from_buffer, reshape, take_vector, take_matrix}

abbrev pub RowsHave : ℕ → Matrix → Type 0
RowsHave columns [] = Unit
RowsHave columns (r ∷ rs) = (length r ≡ columns) × RowsHave columns rs

-- A matrix of so many rows and columns.
abbrev pub HasShape : ℕ → ℕ → Matrix → Type 0
HasShape rows columns m = (length m ≡ rows) × RowsHave columns m

abbrev pub AreWords : Vector → Type 0
AreWords [] = Unit
AreWords (w ∷ ws) = (w < 0x100000000) × AreWords ws

pub AreWords-append : (v w : Vector) → AreWords v → AreWords w → AreWords (v ++ w)
AreWords-append [] w hv hw = hw
AreWords-append (x ∷ v) w (hx, hv) hw = (hx, AreWords-append v w hv hw)

pub from_buffer-to_bytes : (ws : Vector) → AreWords ws → from_buffer (to_bytes ws) ≡ some ws
unfolding from_buffer to_bytes le_bytes
from_buffer-to_bytes [] h = refl
from_buffer-to_bytes (w ∷ ws) (hw, h) =
    rw (from_buffer-to_bytes ws h) (ap (λ x. some (x ∷ ws)) (le_value-le_bytes_four w hw))

pub length-to_bytes : (ws : Vector) → length (to_bytes ws) ≡ 4 * length ws
unfolding to_bytes le_bytes
length-to_bytes [] = omega arith
length-to_bytes (w ∷ ws) = omega (arith, length-to_bytes ws)

pub length-flatten :
    (columns : ℕ) (m : Matrix) → RowsHave columns m → length (flatten m) ≡ length m * columns
unfolding flatten
length-flatten columns [] h = omega arith
length-flatten columns (r ∷ rs) (hr, h) =
    rw (length-append r (flatten rs)) (grind (arith, length-flatten columns rs h))

pub reshape-flatten :
    (columns : ℕ) (m : Matrix) → RowsHave columns m → reshape (length m) columns (flatten m) ≡ m
unfolding reshape flatten
reshape-flatten columns [] h = refl
reshape-flatten columns (r ∷ rs) (hr, h) = rw (← hr) (
    rw (take-append r (flatten rs), drop-append r (flatten rs), hr)
      (ap (λ m. r ∷ m) (reshape-flatten columns rs h)))

length-heads : (columns : ℕ) (m : Matrix) → RowsHave (suc columns) m → length (heads m) ≡ length m
unfolding heads
length-heads columns [] h = refl
length-heads columns ([] ∷ rs) (hr, h) = absurd (omega arith)
length-heads columns ((x ∷ r) ∷ rs) (hr, h) = ap suc (length-heads columns rs h)

length-tails : (m : Matrix) → length (tails m) ≡ length m
unfolding tails
length-tails [] = refl
length-tails ([] ∷ rs) = ap suc (length-tails rs)
length-tails ((x ∷ r) ∷ rs) = ap suc (length-tails rs)

RowsHave-tails : (columns : ℕ) (m : Matrix) → RowsHave (suc columns) m → RowsHave columns (tails m)
unfolding tails
RowsHave-tails columns [] h = h
RowsHave-tails columns ([] ∷ rs) (hr, h) = absurd (omega arith)
RowsHave-tails columns ((x ∷ r) ∷ rs) (hr, h) = (omega arith, RowsHave-tails columns rs h)

pub transpose-HasShape :
    (rows columns : ℕ) (m : Matrix)
    → HasShape rows columns m
    → HasShape columns rows (transpose columns m)
unfolding transpose
transpose-HasShape rows zero m (hl, hr) = (refl, tt)
transpose-HasShape rows (suc columns) m (hl, hr) =
    let (inner, others) =
      transpose-HasShape rows columns (tails m)
        (length-tails m ∙ hl, RowsHave-tails columns m hr) in
    (ap suc inner, (length-heads columns m hr ∙ hl, others))

-- Taking what stands in front leaves what stands behind.
pub take_vector-append :
    (n : ℕ) (v rest : Vector) → length v ≡ n → take_vector n (v ++ rest) ≡ ok (v, rest)
unfolding take_vector
take_vector-append n v rest h =
    let enough : ltb (length (v ++ rest)) n ≡ false = ground (arith, length-append v rest) in
    rw enough (rw (← h) (rw (take-append v rest, drop-append v rest)))

pub take_matrix-append :
    (rows columns : ℕ) (m : Matrix) (rest : Vector)
    → HasShape rows columns m
    → take_matrix rows columns (flatten m ++ rest) ≡ ok (m, rest)
unfolding take_matrix
take_matrix-append rows columns m rest (hl, hr) =
    let whole : length (flatten m) ≡ rows * columns = rw (← hl) (length-flatten columns m hr) in
    rw (take_vector-append (rows * columns) (flatten m) rest whole, ← hl)
      (rw (reshape-flatten columns m hr))
