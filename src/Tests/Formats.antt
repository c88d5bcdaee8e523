-- ===== src/Tests/Formats.antt =====
-- Files of the model formats, written and read.
use npp_ai.Prelude.{
  Bool, false, ℕ, ◌≡◌, refl, ◌↔◌, true, all, ltb, ◌==◌, [], ◌∷◌, length, replicate, arith,
}
use npp_ai.Text.{Bytes}
use npp_ai.Python.Int.{pos}
use npp_ai.Python.Exceptions.{Result, ok, err}
use npp_ai.Python.Struct.{le_bytes, pack_u32, pack_u64, pack_i32}
use npp_ai.ModelFormat.{
  Shape, validate_model_format_metadata, export_v3_metadata_model, build_v3_header, pack_shape,
  pack_experts,
}
use npp_ai.ModelFormat.Laws.{IsMetadata, validate_iff, HoldsFields, export-HoldsFields}
use npp_ai.Checkpoint.{Matrix, Vector, LayerParameters, Parameters, payload_words, export_to_bin}
use npp_ai.Checkpoint.Load.{load_weights}
use npp_ai.Checkpoint.Tensors.{RowsHave, AreWords}
use npp_ai.Backends.Dense.Loading.{DenseBackend, weight_words, make_dense}
use npp_ai.Backends.Dense.Loading.Laws.{Loads, make_dense-Loads, make_dense-export}
use npp_ai.Checkpoint.Reading.{IsByteModel, weights_of}
use npp_ai.Checkpoint.RoundTrip.{load-export}

abbrev sha256 : Bytes → Bytes
sha256 bs = replicate 32 (length bs)

abbrev file_of : Result Bytes → Bytes
file_of (ok bs) = bs
file_of (err e) = []

validate_iff_example :
    (validate_model_format_metadata (pos 1) (pos 8) (pos 2) ≡ ok tt)
    ↔ IsMetadata (pos 1) (pos 8) (pos 2)
validate_iff_example = validate_iff (pos 1) (pos 8) (pos 2)

abbrev shape : Shape
shape = record {
  dim = pos 2;
  hidden_dim = pos 3;
  n_layers = pos 1;
  max_seq_len = pos 4;
  vocab_size = pos 256;
}

abbrev v3_file : Bytes
v3_file = file_of (export_v3_metadata_model sha256 shape (7 ∷ []) (pos 0) (pos 0) (pos 0))

v3_written : export_v3_metadata_model sha256 shape (7 ∷ []) (pos 0) (pos 0) (pos 0) ≡ ok v3_file
unfolding export_v3_metadata_model build_v3_header validate_model_format_metadata pack_shape
    pack_experts pack_u32 pack_u64 pack_i32 le_bytes
v3_written = refl

export-HoldsFields_example :
    HoldsFields shape (7 ∷ []) (sha256 (7 ∷ [])) (pos 0) (pos 0) (pos 0) v3_file
export-HoldsFields_example =
    export-HoldsFields sha256 shape (7 ∷ []) (pos 0) (pos 0) (pos 0) v3_file v3_written

abbrev layer : LayerParameters
layer = record {
  rms_attn = 1 ∷ [];
  wq = (2 ∷ []) ∷ [];
  wk = (3 ∷ []) ∷ [];
  wv = (4 ∷ []) ∷ [];
  wo = (5 ∷ []) ∷ [];
  rms_ffn = 6 ∷ [];
  w1 = (7 ∷ []) ∷ (8 ∷ []) ∷ [];
  w2 = (9 ∷ []) ∷ (10 ∷ []) ∷ [];
  w3 = (11 ∷ 12 ∷ []) ∷ [];
}

abbrev model : Parameters
model = record {
  dim = 1;
  hidden_dim = 2;
  max_seq_len = 1;
  vocab_size = 256;
  tok_embeddings = replicate 256 (13 ∷ []);
  pos_embeddings = (14 ∷ []) ∷ [];
  layers = layer ∷ [];
  norm = 15 ∷ [];
  output = replicate 256 (16 ∷ []);
}

rows_have :
    (columns : ℕ) (m : Matrix) → all (λ r. length r == columns) m ≡ true → RowsHave columns m
rows_have columns [] h = tt
rows_have columns (r ∷ m) h = (ground arith, rows_have columns m (ground arith))

are_words : (ws : Vector) → all (λ w. ltb w 0x100000000) ws ≡ true → AreWords ws
are_words [] h = tt
are_words (w ∷ ws) h = (ground arith, are_words ws (ground arith))

words_small : all (λ w. ltb w 0x100000000) (payload_words model) ≡ true
unfolding payload_words npp_ai.Checkpoint.flatten npp_ai.Checkpoint.layers_words
    npp_ai.Checkpoint.layer_words npp_ai.Checkpoint.linear npp_ai.Checkpoint.transpose
    npp_ai.Checkpoint.heads npp_ai.Checkpoint.tails
words_small = refl

IsByteModel-model : IsByteModel model
IsByteModel-model = record {
  vocabulary = refl;
  dim_pos = omega arith;
  hidden_pos = omega arith;
  layers_pos = omega arith;
  context_pos = omega arith;
  tok_embeddings = (refl, rows_have 1 (replicate 256 (13 ∷ [])) refl);
  pos_embeddings = (refl, (refl, tt));
  layers = (
    record {
      rms_attn = refl;
      wq = (refl, (refl, tt));
      wk = (refl, (refl, tt));
      wv = (refl, (refl, tt));
      wo = (refl, (refl, tt));
      rms_ffn = refl;
      w1 = (refl, (refl, (refl, tt)));
      w2 = (refl, (refl, (refl, tt)));
      w3 = (refl, (refl, tt));
    },
    tt,
  );
  norm = refl;
  output = (refl, rows_have 1 (replicate 256 (16 ∷ [])) refl);
  words = are_words (payload_words model) words_small;
}

abbrev exported : Bytes
exported = file_of (export_to_bin sha256 model)

model_written : export_to_bin sha256 model ≡ ok exported
unfolding export_to_bin pack_u32 pack_u64 pack_shape pack_i32 le_bytes payload_words
    npp_ai.Checkpoint.to_bytes npp_ai.Checkpoint.flatten npp_ai.Checkpoint.layers_words
    npp_ai.Checkpoint.layer_words npp_ai.Checkpoint.linear npp_ai.Checkpoint.transpose
    npp_ai.Checkpoint.heads npp_ai.Checkpoint.tails
model_written = refl

load-export_example : load_weights sha256 exported ≡ ok (weights_of model)
load-export_example = load-export sha256 (λ bs. refl) model exported IsByteModel-model model_written

abbrev always : ℕ → Bool
always w = true

weights_finite : all always (weight_words (weights_of model)) ≡ true
unfolding weight_words npp_ai.Checkpoint.flatten npp_ai.Checkpoint.transpose npp_ai.Checkpoint.heads
    npp_ai.Checkpoint.tails
weights_finite = refl

make_dense-export_example :
    (b : DenseBackend) × (make_dense sha256 always (ok exported) (pos 0) false ≡ ok b)
    × (b.weights ≡ weights_of model)
make_dense-export_example =
    make_dense-export sha256 always model exported 0 false (λ bs. refl) IsByteModel-model
      model_written (omega arith) weights_finite

abbrev zeros : Bytes → Bytes
zeros bs = replicate 32 0

abbrev exported_zeros : Bytes
exported_zeros = file_of (export_to_bin zeros model)

zeros_written : export_to_bin zeros model ≡ ok exported_zeros
unfolding export_to_bin pack_u32 pack_u64 pack_shape pack_i32 le_bytes payload_words
    npp_ai.Checkpoint.to_bytes npp_ai.Checkpoint.flatten npp_ai.Checkpoint.layers_words
    npp_ai.Checkpoint.layer_words npp_ai.Checkpoint.linear npp_ai.Checkpoint.transpose
    npp_ai.Checkpoint.heads npp_ai.Checkpoint.tails
zeros_written = refl

zeros_loaded :
    (b : DenseBackend) × (make_dense zeros always (ok exported_zeros) (pos 0) false ≡ ok b)
    × (b.weights ≡ weights_of model)
zeros_loaded =
    make_dense-export zeros always model exported_zeros 0 false (λ bs. refl) IsByteModel-model
      zeros_written (omega arith) weights_finite

make_dense-Loads_example : Loads zeros always exported_zeros (pos 0) zeros_loaded.0
make_dense-Loads_example =
    make_dense-Loads zeros always exported_zeros (pos 0) false zeros_loaded.0 refl refl
      zeros_loaded.1
