-- ===== src/Backends/Dense/Loading.antt =====
-- `DenseLocalBackend.__init__`. Reading the file may fail: what `read_bytes` gives is an argument.
-- SHA-256 and numpy's test of a float32 are parameters.
pub mod Laws
use npp_ai.Prelude.{
  ℕ, ◌+◌, ◌*◌, ◌≤◌, ◌<◌, ◌≡◌, refl, ◌∙◌, ap, Bool, true, false, not, ◌&&◌, ◌||◌, List, [], ◌∷◌,
  ◌++◌, all, length, ltb, leb, if◌then◌else◌, arith,
}
use npp_ai.Text.{Text, Bytes, IsBytes, codes}
use npp_ai.Text.Hex.{hex_digit, hexdigest}
use npp_ai.Text.Utf8.{is_text, is_scalar}
use npp_ai.Python.Int.{ℤ, pos, negsuc}
use npp_ai.Python.Exceptions.{
  Exception, Result, ok, err, value_error, backend_unavailable, os_error, is_value_error,
  is_backend_unavailable,
}
use npp_ai.Checkpoint.{Vector, Parameters, flatten, export_to_bin}
use npp_ai.Checkpoint.Load.{Layer, Weights, load_weights}

pub record DenseBackend : Type 0 where
  pub weights : Weights
  pub model_id : Text
  pub prompt_bytes : ℕ
  pub python_functions : Bool

layer_words_of : Layer → Vector
layer_words_of l =
    l.norm1
    ++ (flatten l.q
        ++ (flatten l.k
            ++ (flatten l.v
                ++ (flatten l.o
                    ++ (l.norm2 ++ (flatten l.gate ++ (flatten l.up ++ flatten l.down)))))))

layers_words_of : List Layer → Vector
unfolding layer_words_of
layers_words_of [] = []
layers_words_of (l ∷ ls) = layer_words_of l ++ layers_words_of ls

-- `arrays`, one behind the other.
unfoldable pub weight_words : Weights → Vector
unfolding layers_words_of
weight_words w =
    flatten w.embedding
    ++ (flatten w.position ++ (w.norm ++ (flatten w.output ++ layers_words_of w.layers)))

-- `except (OSError, ValueError)`
pub is_load_failure : Exception → Bool
is_load_failure (os_error m) = true
is_load_failure e = is_value_error e

module _ (sha256 : Bytes → Bytes) (is_finite : ℕ → Bool) where
  pub identity : Bytes → Text
  unfolding hexdigest
  identity raw = codes "sha256:" ++ hexdigest (sha256 raw)

  -- The checks behind the load.
  pub accept_weights : ℕ → Bool → Text → Weights → Result DenseBackend
  accept_weights prompt_bytes python_functions model_id w =
      if not (ltb prompt_bytes w.context)
      then err (value_error "Invalid prompt byte boundary")
      else if not (all is_finite (weight_words w))
      then err (backend_unavailable "Checkpoint contains non-finite weights")
      else ok (record {
        weights = w;
        model_id = model_id;
        prompt_bytes = prompt_bytes;
        python_functions = python_functions;
      })

  pub checked : ℤ → Bool → Text → Weights → Result DenseBackend
  unfolding accept_weights
  checked (pos n) python_functions model_id w = accept_weights n python_functions model_id w
  checked (negsuc n) python_functions model_id w = err (value_error "Invalid prompt byte boundary")

  pub unavailable : Exception → Result DenseBackend
  unfolding is_load_failure
  unavailable e =
      if is_load_failure e
      then err (backend_unavailable "Cannot load dense v2 checkpoint")
      else err e

  unfoldable pub make_dense : Result Bytes → ℤ → Bool → Result DenseBackend
  unfolding identity checked unavailable
  make_dense (err e) prompt_bytes python_functions = unavailable e
  make_dense (ok raw) prompt_bytes python_functions = elim (load_weights sha256 raw) [
    | err e ↦ unavailable e
    | ok w ↦ checked prompt_bytes python_functions (identity raw) w
  ]
