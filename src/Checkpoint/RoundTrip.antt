-- ===== src/Checkpoint/RoundTrip.antt =====
-- `load_weights` on the files of `export_to_bin`.
use npp_ai.Prelude.{
  ℕ, ◌+◌, ◌-◌, ◌≤◌, ◌<◌, ◌≡◌, refl, ◌∙◌, ap, subst, true, false, some, ◌++◌, length, take, drop,
  take-append, drop-append, length-append, arith, ltb, ◌==◌, not, ◌||◌,
}
use npp_ai.Text.{Bytes, text_eq}
use npp_ai.Text.Laws.{text_eq_refl}
use npp_ai.Python.Int.{pos, ◌≤ℤᵇ◌, ◌==ℤ◌}
use npp_ai.Python.Exceptions.{ok, >>=-eq-ok}
use npp_ai.Python.Struct.{le_bytes, le_value, pack_u32, pack_u64, unpack_i32}
use npp_ai.Python.Struct.Laws.{pack_u64-shape, le_value-le_bytes_eight}
use npp_ai.ModelFormat.{magic, pack_shape}
use npp_ai.ModelFormat.Laws.{pack_shape-parts}
use npp_ai.Checkpoint.{Vector, Parameters, to_bytes, payload_words, shape_of, export_to_bin}
use npp_ai.Checkpoint.Load.{
  Weights, from_buffer, read_tensors, slice, check_header, load_payload, load_weights,
}
use npp_ai.Checkpoint.Tensors.{from_buffer-to_bytes}
use npp_ai.Checkpoint.Reading.{weights_of, IsByteModel, read_tensors-words}

-- The file as it is laid out, over the bytes of its numbers.
abbrev laid_out : (d h l c v : Bytes) (digest payload : Bytes) → Bytes
laid_out d h l c v digest payload =
    magic
    ++ (le_bytes 4 2
        ++ ((d ++ (h ++ (l ++ (c ++ v)))) ++ (le_bytes 8 (length payload) ++ (digest ++ payload))))

load_payload-words :
    (dim hidden layers context vocab : ℕ) (payload : Bytes) (words : Vector) (w : Weights)
    → vocab ≡ 256
    → 1 ≤ dim
    → 1 ≤ hidden
    → 1 ≤ layers
    → 1 ≤ context
    → from_buffer payload ≡ some words
    → read_tensors dim hidden layers context vocab words ≡ ok w
    → load_payload (pos dim) (pos hidden) (pos layers) (pos context) (pos vocab) payload ≡ ok w
unfolding load_payload
load_payload-words dim hidden layers context vocab payload words w pv pd ph pl pc parsed tensors =
    let passes : (not (
          not (pos vocab ==ℤ pos 256)
          || pos dim ≤ℤᵇ pos 0
          || pos hidden ≤ℤᵇ pos 0
          || pos layers ≤ℤᵇ pos 0
          || pos context ≤ℤᵇ pos 0))
        ≡ true =
      ground arith in
    rw (passes, parsed) tensors

module _ (digest payload : Bytes) (width : length digest ≡ 32) where
  drop-digest : drop 32 (digest ++ payload) ≡ payload
  drop-digest = subst (λ n. drop n (digest ++ payload) ≡ payload) width (drop-append digest payload)

  take-digest : take 32 (digest ++ payload) ≡ digest
  take-digest = subst (λ n. take n (digest ++ payload) ≡ digest) width (take-append digest payload)

  length-digest : length (digest ++ payload) ≡ 32 + length payload
  length-digest = length-append digest payload ∙ ap (λ n. n + length payload) width

module _ (sha256 : Bytes → Bytes) (width : (bs : Bytes) → length (sha256 bs) ≡ 32) where
  module _ (d h l c v : ℕ) (payload : Bytes) where
    abbrev file : Bytes
    file =
        laid_out (le_bytes 4 d) (le_bytes 4 h) (le_bytes 4 l) (le_bytes 4 c) (le_bytes 4 v)
          (sha256 payload) payload

    drop-file : drop 72 file ≡ payload
    unfolding le_bytes
    drop-file = drop-digest (sha256 payload) payload (width payload)

    take-file : slice 40 32 file ≡ sha256 payload
    unfolding le_bytes
    take-file = take-digest (sha256 payload) payload (width payload)

    length-file : length file ≡ 72 + length payload
    unfolding le_bytes
    length-file = omega (arith, length-digest (sha256 payload) payload (width payload))

    starts-file : text_eq (take 8 file) magic ≡ true
    unfolding le_bytes text_eq
    starts-file = refl

    version-file : (le_value (slice 8 4 file) == 2) ≡ true
    unfolding le_bytes le_value
    version-file = refl

    size-file : length payload < 0x10000000000000000 → le_value (slice 32 8 file) ≡ length payload
    unfolding le_bytes
    size-file fits = le_value-le_bytes_eight (length payload) fits

    check_header-file : length payload < 0x10000000000000000 → check_header sha256 file ≡ ok tt
    unfolding check_header
    check_header-file fits =
        let long : ltb (length file) 72 ≡ false = rw length-file (ground arith) in
        let sized : (le_value (slice 32 8 file) == length file - 72) ≡ true =
          rw (size-file fits, length-file) (ground arith) in
        let hashed : text_eq (sha256 (drop 72 file)) (slice 40 32 file) ≡ true =
          rw (drop-file, take-file) (text_eq_refl (sha256 payload)) in
        rw (long, starts-file, version-file, sized, hashed)

    load-file :
        (dim hidden layers context vocab : ℕ) (words : Vector) (w : Weights)
        → length payload < 0x10000000000000000
        → unpack_i32 (le_bytes 4 d) ≡ pos dim
        → unpack_i32 (le_bytes 4 h) ≡ pos hidden
        → unpack_i32 (le_bytes 4 l) ≡ pos layers
        → unpack_i32 (le_bytes 4 c) ≡ pos context
        → unpack_i32 (le_bytes 4 v) ≡ pos vocab
        → vocab ≡ 256
        → 1 ≤ dim
        → 1 ≤ hidden
        → 1 ≤ layers
        → 1 ≤ context
        → from_buffer payload ≡ some words
        → read_tensors dim hidden layers context vocab words ≡ ok w
        → load_weights sha256 file ≡ ok w
    load-file dim hidden layers context vocab words w fits ed eh el ec ev pv pd ph pl pc parsed
          tensors =
        let field-dim : unpack_i32 (slice 12 4 file) ≡ pos dim = unfold le_bytes in ed in
        let field-hidden : unpack_i32 (slice 16 4 file) ≡ pos hidden = unfold le_bytes in eh in
        let field-layers : unpack_i32 (slice 20 4 file) ≡ pos layers = unfold le_bytes in el in
        let field-context : unpack_i32 (slice 24 4 file) ≡ pos context = unfold le_bytes in ec in
        let field-vocab : unpack_i32 (slice 28 4 file) ≡ pos vocab = unfold le_bytes in ev in
        unfold load_weights in
        rw
          (
            check_header-file fits,
            field-dim,
            field-hidden,
            field-layers,
            field-context,
            field-vocab,
            drop-file,
          )
          (load_payload-words dim hidden layers context vocab payload words w pv pd ph pl pc parsed
            tensors)

  -- A model with the byte vocabulary, whose tensors have their declared sizes, is read back from
  -- the file that the trainer exports: every tensor comes back, the weight of each linear map
  -- transposed, with the sizes of the model. The digest is assumed to have 32 bytes.
  pub load-export :
      (m : Parameters) (raw : Bytes)
      → IsByteModel m
      → export_to_bin sha256 m ≡ ok raw
      → load_weights sha256 raw ≡ ok (weights_of m)
  unfolding export_to_bin
  load-export m raw b r0 =
      let payload = to_bytes (payload_words m) in
      let (version, rv, r1) = >>=-eq-ok (pack_u32 (pos 2)) _ r0 in
      let (shape, rs, r2) = >>=-eq-ok (pack_shape (shape_of m)) _ r1 in
      let (size, rz, r3) = >>=-eq-ok (pack_u64 (length payload)) _ r2 in
      let (
        d,
        h,
        l,
        c,
        v,
        ps,
        (nd, pd, ud),
        (nh, ph, uh),
        (nl, pl, ul),
        (nc, pc, uc),
        (nv, pv, uv),
      ) =
        pack_shape-parts (shape_of m) shape rs in
      let two : version ≡ le_bytes 4 2 = unfold pack_u32 in cc in
      let fits : length payload < 0x10000000000000000 = unfold pack_u64 in ground arith in
      let sized : size ≡ le_bytes 8 (length payload) =
        (pack_u64-shape (length payload) size rz).0 in
      let whole : raw ≡ file nd nh nl nc nv payload = cc in
      rw whole (
        load-file nd nh nl nc nv payload m.dim m.hidden_dim (length m.layers) m.max_seq_len
          m.vocab_size (payload_words m) (weights_of m) fits ud uh ul uc uv b.vocabulary b.dim_pos
          b.hidden_pos b.layers_pos b.context_pos (from_buffer-to_bytes (payload_words m) b.words)
          (read_tensors-words m b))
