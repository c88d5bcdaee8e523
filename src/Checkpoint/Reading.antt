-- ===== src/Checkpoint/Reading.antt =====
-- The tensors of a model, as the loader reads them back from the words that are written.
use npp_ai.Prelude.{ℕ, ◌≤◌, ◌≡◌, refl, List, [], ◌∷◌, ◌++◌, map, append_assoc, append-nil, length}
use npp_ai.Python.Exceptions.{ok}
use npp_ai.Checkpoint.{
  Vector, Matrix, LayerParameters, Parameters, transpose, linear, layer_words, layers_words,
  payload_words,
}
use npp_ai.Checkpoint.Load.{Layer, Weights, take_matrix, take_layer, take_layers, read_tensors}
use npp_ai.Checkpoint.Tensors.{
  HasShape, AreWords, transpose-HasShape, take_vector-append, take_matrix-append,
}

-- The tensors of a layer have the sizes that `NppAILayer` gives them.
pub record LayerFits (dim hidden : ℕ) (l : LayerParameters) : Type 0 where
  pub rms_attn : length l.rms_attn ≡ dim
  pub wq : HasShape dim dim l.wq
  pub wk : HasShape dim dim l.wk
  pub wv : HasShape dim dim l.wv
  pub wo : HasShape dim dim l.wo
  pub rms_ffn : length l.rms_ffn ≡ dim
  pub w1 : HasShape hidden dim l.w1
  pub w2 : HasShape hidden dim l.w2
  pub w3 : HasShape dim hidden l.w3

abbrev pub LayersFit : ℕ → ℕ → List LayerParameters → Type 0
LayersFit dim hidden [] = Unit
LayersFit dim hidden (l ∷ ls) = LayerFits dim hidden l × LayersFit dim hidden ls

-- What the loader hands to inference for a layer of the model.
abbrev pub layer_of : ℕ → ℕ → LayerParameters → Layer
layer_of dim hidden l = record {
  norm1 = l.rms_attn;
  q = transpose dim l.wq;
  k = transpose dim l.wk;
  v = transpose dim l.wv;
  o = transpose dim l.wo;
  norm2 = l.rms_ffn;
  gate = transpose dim l.w1;
  up = transpose dim l.w2;
  down = transpose hidden l.w3;
}

abbrev pub weights_of : Parameters → Weights
weights_of m = record {
  embedding = m.tok_embeddings;
  position = m.pos_embeddings;
  layers = map (layer_of m.dim m.hidden_dim) m.layers;
  norm = m.norm;
  output = transpose m.dim m.output;
  context = m.max_seq_len;
  dim = m.dim;
  hidden = m.hidden_dim;
}

-- The sizes agree, every parameter is a float32, and the byte tokenizer is used.
pub record IsByteModel (m : Parameters) : Type 0 where
  pub vocabulary : m.vocab_size ≡ 256
  pub dim_pos : 1 ≤ m.dim
  pub hidden_pos : 1 ≤ m.hidden_dim
  pub layers_pos : 1 ≤ length m.layers
  pub context_pos : 1 ≤ m.max_seq_len
  pub tok_embeddings : HasShape m.vocab_size m.dim m.tok_embeddings
  pub pos_embeddings : HasShape m.max_seq_len m.dim m.pos_embeddings
  pub layers : LayersFit m.dim m.hidden_dim m.layers
  pub norm : length m.norm ≡ m.dim
  pub output : HasShape m.vocab_size m.dim m.output
  pub words : AreWords (payload_words m)

module _ (dim hidden : ℕ) where
  take_linear :
      (outputs inputs : ℕ) (w : Matrix) (rest : Vector)
      → HasShape outputs inputs w
      → take_matrix inputs outputs (linear inputs w ++ rest) ≡ ok (transpose inputs w, rest)
  unfolding linear
  take_linear outputs inputs w rest h =
      take_matrix-append inputs outputs (transpose inputs w) rest
        (transpose-HasShape outputs inputs w h)

  take_layer-words :
      (l : LayerParameters) (rest : Vector)
      → LayerFits dim hidden l
      → take_layer dim hidden (layer_words dim hidden l ++ rest) ≡ ok (layer_of dim hidden l, rest)
  unfolding take_layer layer_words
  take_layer-words l rest f = simp (
    append_assoc,
    take_vector-append dim l.rms_attn _ f.rms_attn,
    take_linear dim dim l.wq _ f.wq,
    take_linear dim dim l.wk _ f.wk,
    take_linear dim dim l.wv _ f.wv,
    take_linear dim dim l.wo _ f.wo,
    take_vector-append dim l.rms_ffn _ f.rms_ffn,
    take_linear hidden dim l.w1 _ f.w1,
    take_linear hidden dim l.w2 _ f.w2,
    take_linear dim hidden l.w3 _ f.w3,
  )

  take_layers-words :
      (ls : List LayerParameters) (rest : Vector)
      → LayersFit dim hidden ls
      → take_layers (length ls) dim hidden (layers_words dim hidden ls ++ rest)
        ≡ ok (map (layer_of dim hidden) ls, rest)
  unfolding take_layers layers_words
  take_layers-words [] rest f = refl
  take_layers-words (l ∷ ls) rest (f, fs) =
      simp (append_assoc, take_layer-words l _ f, take_layers-words ls rest fs)

pub read_tensors-words :
    (m : Parameters)
    → IsByteModel m
    → read_tensors m.dim m.hidden_dim (length m.layers) m.max_seq_len m.vocab_size (payload_words m)
      ≡ ok (weights_of m)
unfolding read_tensors payload_words
read_tensors-words m b =
    let last : take_matrix m.dim m.vocab_size (linear m.dim m.output)
        ≡ ok (transpose m.dim m.output, []) =
      rw (← append-nil (linear m.dim m.output))
        (take_linear m.dim m.hidden_dim m.vocab_size m.dim m.output [] b.output) in
    simp (
      take_matrix-append m.vocab_size m.dim m.tok_embeddings _ b.tok_embeddings,
      take_matrix-append m.max_seq_len m.dim m.pos_embeddings _ b.pos_embeddings,
      take_layers-words m.dim m.hidden_dim m.layers _ b.layers,
      take_vector-append m.dim m.norm _ b.norm,
      last,
    )
