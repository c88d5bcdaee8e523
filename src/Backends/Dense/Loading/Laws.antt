-- ===== src/Backends/Dense/Loading/Laws.antt =====
-- What a constructed local backend holds, and its construction from an exported model.
use npp_ai.Prelude.{ℕ, ◌*◌, ◌<◌, ◌≡◌, refl, subst, Bool, true, [], ◌∷◌, all, length, ltb, arith}
use npp_ai.Text.{Bytes, IsBytes}
use npp_ai.Text.Hex.{hex_digit, hexdigest}
use npp_ai.Text.Utf8.{is_text, is_scalar}
use npp_ai.Python.Int.{ℤ, pos, negsuc}
use npp_ai.Python.Exceptions.{Result, ok, err}
use npp_ai.Checkpoint.{Parameters, export_to_bin}
use npp_ai.Checkpoint.Load.{Weights, load_weights}
use npp_ai.Checkpoint.Reading.{IsByteModel, weights_of}
use npp_ai.Checkpoint.RoundTrip.{load-export}
use npp_ai.Backends.Dense.Loading.{
  DenseBackend, weight_words, identity, accept_weights, checked, unavailable, make_dense,
}

hexdigest-is_text : (bs : Bytes) → IsBytes bs → is_text (hexdigest bs) ≡ true
unfolding hexdigest hex_digit is_text is_scalar
hexdigest-is_text [] h = refl
hexdigest-is_text (b ∷ bs) h = ground (arith, hexdigest-is_text bs)

length-hexdigest : (bs : Bytes) → length (hexdigest bs) ≡ length bs * 2
unfolding hexdigest
length-hexdigest [] = omega arith
length-hexdigest (b ∷ bs) = omega (arith, length-hexdigest bs)

module _ (sha256 : Bytes → Bytes) (is_finite : ℕ → Bool) where
  -- What the constructor guarantees of a backend for the file with these bytes.
  pub record Loads (raw : Bytes) (prompt_bytes : ℤ) (b : DenseBackend) : Type 0 where
    pub weights : load_weights sha256 raw ≡ ok b.weights
    pub id_text : is_text b.model_id ≡ true
    pub id_width : length b.model_id ≡ 71
    pub boundary : prompt_bytes ≡ pos b.prompt_bytes
    pub room : b.prompt_bytes < b.weights.context
    pub finite : all is_finite (weight_words b.weights) ≡ true

  Loads-accept :
      (raw : Bytes) (n : ℕ) (functions : Bool) (w : Weights) (b : DenseBackend)
      → IsBytes (sha256 raw)
      → length (sha256 raw) ≡ 32
      → load_weights sha256 raw ≡ ok w
      → accept_weights sha256 is_finite n functions (identity sha256 is_finite raw) w ≡ ok b
      → Loads raw (pos n) b
  unfolding accept_weights identity is_text is_scalar
  Loads-accept raw n functions w b digits width e h =
      let inside : ltb n w.context ≡ true = ground arith in
      let finite : all is_finite (weight_words w) ≡ true = ground arith in
      let made : record {
        weights = w;
        model_id = identity sha256 is_finite raw;
        prompt_bytes = n;
        python_functions = functions;
      }
          ≡ b =
        ground arith in
      subst (Loads raw (pos n)) made (record {
        weights = e;
        id_text = hexdigest-is_text (sha256 raw) digits;
        id_width = omega (arith, length-hexdigest (sha256 raw), width);
        boundary = refl;
        room = ground arith;
        finite = finite;
      })

  -- With a digest of 32 bytes, a backend that is constructed holds the weights of its file, all finite, an identity of 71
  -- characters, and the boundary that was asked for, which is less than the context.
  pub make_dense-Loads :
      (raw : Bytes) (prompt_bytes : ℤ) (functions : Bool) (b : DenseBackend)
      → IsBytes (sha256 raw)
      → length (sha256 raw) ≡ 32
      → make_dense sha256 is_finite (ok raw) prompt_bytes functions ≡ ok b
      → Loads raw prompt_bytes b
  unfolding checked unavailable make_dense
  make_dense-Loads raw prompt_bytes functions b digits width h =
      at prompt_bytes (load_weights sha256 raw) refl h
    where
      at :
          (z : ℤ) (loaded : Result Weights)
          → load_weights sha256 raw ≡ loaded
          → make_dense sha256 is_finite (ok raw) z functions ≡ ok b
          → Loads raw z b
      at z (err e) same r = absurd (ground (arith, rw (same, make_dense) at r))
      at (pos n) (ok w) same r =
          Loads-accept raw n functions w b digits width same (rw (same, make_dense) at r)
      at (negsuc n) (ok w) same r = absurd (cc (rw (same, make_dense) at r))

  -- A byte model that the trainer exports, with finite weights and a boundary within its context,
  -- is loaded: the constructor returns a backend with the weights of the model. The digest is
  -- assumed to have 32 bytes.
  pub make_dense-export :
      (m : Parameters) (raw : Bytes) (n : ℕ) (functions : Bool)
      → ((bs : Bytes) → length (sha256 bs) ≡ 32)
      → IsByteModel m
      → export_to_bin sha256 m ≡ ok raw
      → n < m.max_seq_len
      → all is_finite (weight_words (weights_of m)) ≡ true
      → (b : DenseBackend) × (make_dense sha256 is_finite (ok raw) (pos n) functions ≡ ok b)
        × (b.weights ≡ weights_of m)
  unfolding checked accept_weights make_dense
  make_dense-export m raw n functions width model written room finite =
      let inside : ltb n m.max_seq_len ≡ true = ground arith in
      (
        record {
          weights = weights_of m;
          model_id = identity sha256 is_finite raw;
          prompt_bytes = n;
          python_functions = functions;
        },
        rw (load-export sha256 width m raw model written, make_dense) (rw (inside, finite)),
        refl,
      )
