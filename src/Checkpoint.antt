-- ===== src/Checkpoint.antt =====
-- The dense checkpoint of version 2: `export_to_bin` of train_nppai.py writes it, and
-- `load_weights` of scripts/check_dense_runtime_parity.py reads it. A float32 is its bit pattern,
-- a number below 2^32; a matrix is the list of its rows.
pub mod Tensors
pub mod Load
pub mod Reading
pub mod RoundTrip
use npp_ai.Prelude.{ℕ, zero, suc, List, [], ◌∷◌, ◌++◌, map, length}
use npp_ai.Text.{Bytes}
use npp_ai.Python.Int.{ℤ, pos}
use npp_ai.Python.Exceptions.{Result, ok, ◌>>=◌}
use npp_ai.Python.Struct.{le_bytes, pack_u32, pack_u64}
use npp_ai.ModelFormat.{Shape, magic, pack_shape}

abbrev pub Vector : Type 0
Vector = List ℕ

abbrev pub Matrix : Type 0
Matrix = List Vector

-- The parameters of `NppAILayer`; the weight of a linear map has a row for each output.
pub record LayerParameters : Type 0 where
  pub rms_attn : Vector
  pub wq : Matrix
  pub wk : Matrix
  pub wv : Matrix
  pub wo : Matrix
  pub rms_ffn : Vector
  pub w1 : Matrix
  pub w2 : Matrix
  pub w3 : Matrix

-- The parameters of `NppAIModel`, with the sizes that it keeps.
pub record Parameters : Type 0 where
  pub dim : ℕ
  pub hidden_dim : ℕ
  pub max_seq_len : ℕ
  pub vocab_size : ℕ
  pub tok_embeddings : Matrix
  pub pos_embeddings : Matrix
  pub layers : List LayerParameters
  pub norm : Vector
  pub output : Matrix

-- Rows one behind the other, `flatten()`.
unfoldable pub flatten : Matrix → Vector
flatten [] = []
flatten (r ∷ rs) = r ++ flatten rs

unfoldable pub heads : Matrix → Vector
heads [] = []
heads ([] ∷ rs) = heads rs
heads ((x ∷ r) ∷ rs) = x ∷ heads rs

unfoldable pub tails : Matrix → Matrix
tails [] = []
tails ([] ∷ rs) = [] ∷ tails rs
tails ((x ∷ r) ∷ rs) = r ∷ tails rs

-- `transpose(0, 1)` of a matrix with so many columns.
unfoldable pub transpose : ℕ → Matrix → Matrix
unfolding heads tails
transpose zero m = []
transpose (suc columns) m = heads m ∷ transpose columns (tails m)

-- `data.tobytes()`
unfoldable pub to_bytes : Vector → Bytes
unfolding le_bytes
to_bytes [] = []
to_bytes (w ∷ ws) = le_bytes 4 w ++ to_bytes ws

-- `write_tensor(tensor, is_linear=True)` of a map from so many inputs.
unfoldable pub linear : ℕ → Matrix → Vector
linear inputs m = flatten (transpose inputs m)

unfoldable pub layer_words : ℕ → ℕ → LayerParameters → Vector
layer_words dim hidden l =
    l.rms_attn
    ++ (linear dim l.wq
        ++ (linear dim l.wk
            ++ (linear dim l.wv
                ++ (linear dim l.wo
                    ++ (l.rms_ffn
                        ++ (linear dim l.w1 ++ (linear dim l.w2 ++ linear hidden l.w3)))))))

unfoldable pub layers_words : ℕ → ℕ → List LayerParameters → Vector
layers_words dim hidden [] = []
layers_words dim hidden (l ∷ ls) = layer_words dim hidden l ++ layers_words dim hidden ls

-- The tensors, in the order in which they are written.
unfoldable pub payload_words : Parameters → Vector
payload_words m =
    flatten m.tok_embeddings
    ++ (flatten m.pos_embeddings
        ++ (layers_words m.dim m.hidden_dim m.layers ++ (m.norm ++ linear m.dim m.output)))

abbrev pub shape_of : Parameters → Shape
shape_of m = record {
  dim = pos m.dim;
  hidden_dim = pos m.hidden_dim;
  n_layers = pos (length m.layers);
  max_seq_len = pos m.max_seq_len;
  vocab_size = pos m.vocab_size;
}

-- The bytes of the file.
unfoldable pub export_to_bin : (Bytes → Bytes) → Parameters → Result Bytes
export_to_bin sha256 m =
    let payload = to_bytes (payload_words m) in
    do
      version ← pack_u32 (pos 2)
      shape ← pack_shape (shape_of m)
      size ← pack_u64 (length payload)
      ok (magic ++ (version ++ (shape ++ (size ++ (sha256 payload ++ payload)))))
