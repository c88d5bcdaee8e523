-- ===== src/Checkpoint/Load.antt =====
-- `load_weights` of scripts/check_dense_runtime_parity.py.
use npp_ai.Prelude.{
  ℕ, zero, suc, ◌-◌, ◌*◌, not, ◌||◌, Option, none, some, List, [], ◌∷◌, length, take, drop, ltb,
  ◌==◌, if◌then◌else◌,
}
use npp_ai.Text.{Bytes, text_eq}
use npp_ai.Python.Int.{ℤ, pos, ◌≤ℤᵇ◌, ◌==ℤ◌, pos_part}
use npp_ai.Python.Exceptions.{Result, ok, err, value_error, require, ◌>>=◌, ◌>>◌}
use npp_ai.Python.Struct.{le_value, unpack_i32}
use npp_ai.ModelFormat.{magic}
use npp_ai.Checkpoint.{Vector, Matrix}

pub record Layer : Type 0 where
  pub norm1 : Vector
  pub q : Matrix
  pub k : Matrix
  pub v : Matrix
  pub o : Matrix
  pub norm2 : Vector
  pub gate : Matrix
  pub up : Matrix
  pub down : Matrix

pub record Weights : Type 0 where
  pub embedding : Matrix
  pub position : Matrix
  pub layers : List Layer
  pub norm : Vector
  pub output : Matrix
  pub context : ℕ
  pub dim : ℕ
  pub hidden : ℕ

abbrev pub slice : ℕ → ℕ → Bytes → Bytes
slice offset width bs = take width (drop offset bs)

-- `np.frombuffer(raw, dtype='<f4')`: a ValueError where the size is no multiple of four.
unfoldable pub from_buffer : Bytes → Option Vector
from_buffer [] = some []
from_buffer (a ∷ b ∷ c ∷ d ∷ bs) = elim (from_buffer bs) [
  | none ↦ none
  | some ws ↦ some (le_value (a ∷ b ∷ c ∷ d ∷ []) ∷ ws)
]
from_buffer _ = none

-- `reshape((rows, columns))`
unfoldable pub reshape : ℕ → ℕ → Vector → Matrix
reshape zero columns ws = []
reshape (suc rows) columns ws = take columns ws ∷ reshape rows columns (drop columns ws)

-- `take(n)` and `take(rows, columns)`: the words behind the offset go in and come back, less those
-- that were taken. With too few of them `reshape` raises ValueError.
unfoldable pub take_vector : ℕ → Vector → Result (Vector × Vector)
take_vector count ws =
    if ltb (length ws) count
    then err (value_error "cannot reshape array")
    else ok (take count ws, drop count ws)

unfoldable pub take_matrix : ℕ → ℕ → Vector → Result (Matrix × Vector)
take_matrix rows columns ws = do
  (values, rest) ← take_vector (rows * columns) ws
  ok (reshape rows columns values, rest)

unfoldable pub take_layer : ℕ → ℕ → Vector → Result (Layer × Vector)
take_layer dim hidden w0 = do
  (norm1, w1) ← take_vector dim w0
  (q, w2) ← take_matrix dim dim w1
  (k, w3) ← take_matrix dim dim w2
  (v, w4) ← take_matrix dim dim w3
  (o, w5) ← take_matrix dim dim w4
  (norm2, w6) ← take_vector dim w5
  (gate, w7) ← take_matrix dim hidden w6
  (up, w8) ← take_matrix dim hidden w7
  (down, w9) ← take_matrix hidden dim w8
  ok (
    record {
      norm1 = norm1;
      q = q;
      k = k;
      v = v;
      o = o;
      norm2 = norm2;
      gate = gate;
      up = up;
      down = down;
    },
    w9,
  )

unfoldable pub take_layers : ℕ → ℕ → ℕ → Vector → Result (List Layer × Vector)
take_layers zero dim hidden ws = ok ([], ws)
take_layers (suc layers) dim hidden ws = do
  (layer, rest) ← take_layer dim hidden ws
  (others, end) ← take_layers layers dim hidden rest
  ok (layer ∷ others, end)

-- The tensors behind the header, and the test that none is left over.
unfoldable pub read_tensors : ℕ → ℕ → ℕ → ℕ → ℕ → Vector → Result Weights
read_tensors dim hidden layers context vocab w0 = do
  (embedding, w1) ← take_matrix vocab dim w0
  (position, w2) ← take_matrix context dim w1
  (stack, w3) ← take_layers layers dim hidden w2
  (norm, w4) ← take_vector dim w3
  (output, w5) ← take_matrix dim vocab w4
  require (length w5 == 0) (value_error "unexpected tensor payload")
  ok (record {
    embedding = embedding;
    position = position;
    layers = stack;
    norm = norm;
    output = output;
    context = context;
    dim = dim;
    hidden = hidden;
  })

-- The test of the sizes that the header names, and the payload.
unfoldable pub load_payload : ℤ → ℤ → ℤ → ℤ → ℤ → Bytes → Result Weights
load_payload dim hidden layers context vocab payload = do
  require
      (not (
        not (vocab ==ℤ pos 256)
        || dim ≤ℤᵇ pos 0
        || hidden ≤ℤᵇ pos 0
        || layers ≤ℤᵇ pos 0
        || context ≤ℤᵇ pos 0))
      (value_error "requires byte-token dense model")
  elim (from_buffer payload) [
    | none ↦ err (value_error "buffer size must be a multiple of element size")
    | some words ↦
        read_tensors (pos_part dim) (pos_part hidden) (pos_part layers) (pos_part context)
          (pos_part vocab) words
  ]

module _ (sha256 : Bytes → Bytes) where
  unfoldable pub check_header : Bytes → Result (Unit {0})
  check_header raw = do
    require
        (not (
          ltb (length raw) 72
          || not (text_eq (take 8 raw) magic)
          || not (le_value (slice 8 4 raw) == 2)))
        (value_error "only dense v2 checkpoints are supported")
    require
        (not (
          not (le_value (slice 32 8 raw) == length raw - 72)
          || not (text_eq (sha256 (drop 72 raw)) (slice 40 32 raw))))
        (value_error "invalid payload size or hash")

  unfoldable pub load_weights : Bytes → Result Weights
  load_weights raw = do
    check_header raw
    load_payload (unpack_i32 (slice 12 4 raw)) (unpack_i32 (slice 16 4 raw))
        (unpack_i32 (slice 20 4 raw)) (unpack_i32 (slice 24 4 raw)) (unpack_i32 (slice 28 4 raw))
        (drop 72 raw)
