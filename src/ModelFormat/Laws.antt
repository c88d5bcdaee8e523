-- ===== src/ModelFormat/Laws.antt =====
-- What the version 3 header holds, and which metadata is accepted.
use npp_ai.Prelude.{
  ℕ, ◌≤◌, ◌≡◌, refl, ◌↔◌, ◌⊎◌, inl, inr, ◌∙◌, Bool-cases, ◌==◌, take, drop, take-append,
  drop-append, ap, sym, if◌then◌else◌, subst, ◌++◌, length, arith,
}
use npp_ai.Text.{Bytes}
use npp_ai.Python.Int.{ℤ, pos, negsuc, ◌==ℤ◌}
use npp_ai.Python.Exceptions.{ok, err, >>=-eq-ok}
use npp_ai.Python.Struct.{le_bytes, le_value, pack_u32, pack_u64, pack_i32, unpack_i32}
use npp_ai.Python.Struct.Laws.{Packed, pack_i32-Packed, pack_u32-shape, pack_u64-shape}
use npp_ai.ModelFormat.{
  model_arch_moe, Shape, validate_model_format_metadata, magic, pack_shape, pack_experts,
  build_v3_header, export_v3_metadata_model,
}

-- Metadata that a loader can read: dense with no experts, or some experts and no more used for a
-- token than there are.
abbrev pub IsMetadata : ℤ → ℤ → ℤ → Type 0
IsMetadata architecture num_experts experts_per_token =
    (architecture ≡ pos 0) × (num_experts ≡ pos 0) × (experts_per_token ≡ pos 0)
    ⊎ (architecture ≡ pos 1)
      × ((n : ℕ) × (e : ℕ) × (num_experts ≡ pos n)
          × (experts_per_token ≡ pos e)
          × (1 ≤ e)
          × (e ≤ n))

to_IsMetadata : (a n e : ℤ) → validate_model_format_metadata a n e ≡ ok tt → IsMetadata a n e
unfolding validate_model_format_metadata
to_IsMetadata (pos a) (pos n) (pos e) h = elim (Bool-cases (a == 0)) [
  | inl dense ↦ inl (ground arith, ground arith, ground arith)
  | inr moe ↦ inr (ground arith, (n, e, refl, refl, ground arith, ground arith))
]
to_IsMetadata (pos a) (negsuc n) e h = absurd (ground arith)
to_IsMetadata (pos a) (pos n) (negsuc e) h = absurd (ground arith)
to_IsMetadata (negsuc a) n e h = absurd (ground arith)

of_IsMetadata : (a n e : ℤ) → IsMetadata a n e → validate_model_format_metadata a n e ≡ ok tt
unfolding validate_model_format_metadata
of_IsMetadata a n e (inl (d, x, y)) = rw (d, x, y)
of_IsMetadata a n e (inr (moe, (k, t, hn, he, low, high))) = rw (moe, hn, he) (ground arith)

-- The metadata check passes exactly on dense metadata with no experts, and on a mixture of
-- experts with 1 <= experts_per_token <= num_experts.
pub validate_iff : (a n e : ℤ) → (validate_model_format_metadata a n e ≡ ok tt) ↔ IsMetadata a n e
validate_iff a n e = (to_IsMetadata a n e, of_IsMetadata a n e)

-- `width` bytes of a file from `offset` on.
abbrev pub slice : ℕ → ℕ → Bytes → Bytes
slice offset width bs = take width (drop offset bs)

-- What a reader finds in the file at the documented offsets.
pub record HoldsFields (m : Shape) (payload digest : Bytes) (a n e : ℤ) (file : Bytes)
    : Type 0 where
  pub starts : take 8 file ≡ magic
  pub version : le_value (slice 8 4 file) ≡ 3
  pub dim : unpack_i32 (slice 12 4 file) ≡ m.dim
  pub hidden_dim : unpack_i32 (slice 16 4 file) ≡ m.hidden_dim
  pub n_layers : unpack_i32 (slice 20 4 file) ≡ m.n_layers
  pub max_seq_len : unpack_i32 (slice 24 4 file) ≡ m.max_seq_len
  pub vocab_size : unpack_i32 (slice 28 4 file) ≡ m.vocab_size
  pub architecture : pos (le_value (slice 32 4 file)) ≡ a
  pub num_experts : pos (le_value (slice 36 4 file)) ≡ n
  pub experts_per_token : pos (le_value (slice 40 4 file)) ≡ e
  pub size : le_value (slice 44 8 file) ≡ length payload
  pub hash : slice 52 (length digest) file ≡ digest
  pub body : drop (length digest) (drop 52 file) ≡ payload

-- What the packed shape of a model is made of.
pub pack_shape-parts :
    (m : Shape) (bs : Bytes)
    → pack_shape m ≡ ok bs
    → (d h l c v : Bytes) × (bs ≡ d ++ (h ++ (l ++ (c ++ v))))
      × Packed m.dim d
      × Packed m.hidden_dim h
      × Packed m.n_layers l
      × Packed m.max_seq_len c
      × Packed m.vocab_size v
unfolding pack_shape
pack_shape-parts m bs r0 =
    let (d, hd, r1) = >>=-eq-ok (pack_i32 m.dim) _ r0 in
    let (h, hh, r2) = >>=-eq-ok (pack_i32 m.hidden_dim) _ r1 in
    let (l, hl, r3) = >>=-eq-ok (pack_i32 m.n_layers) _ r2 in
    let (c, hc, r4) = >>=-eq-ok (pack_i32 m.max_seq_len) _ r3 in
    let (v, hv, r5) = >>=-eq-ok (pack_i32 m.vocab_size) _ r4 in
    (
      d,
      h,
      l,
      c,
      v,
      cc,
      pack_i32-Packed _ d hd,
      pack_i32-Packed _ h hh,
      pack_i32-Packed _ l hl,
      pack_i32-Packed _ c hc,
      pack_i32-Packed _ v hv,
    )

-- A number in the file and the integer that it was packed from.
abbrev Unsigned : ℤ → Bytes → Type 0
Unsigned z bs = (n : ℕ) × (z ≡ pos n) × (bs ≡ le_bytes 4 n) × (le_value (le_bytes 4 n) ≡ n)

-- The file, field by field.
laid_out :
    (m : Shape) (payload digest : Bytes) (d h l c v x y z size : Bytes) (a n e : ℤ)
    → Packed m.dim d
    → Packed m.hidden_dim h
    → Packed m.n_layers l
    → Packed m.max_seq_len c
    → Packed m.vocab_size v
    → Unsigned a x
    → Unsigned n y
    → Unsigned e z
    → (size ≡ le_bytes 8 (length payload))
      × (le_value (le_bytes 8 (length payload)) ≡ length payload)
    → HoldsFields m payload digest a n e (
        (magic
          ++ (le_bytes 4 3
              ++ ((d ++ (h ++ (l ++ (c ++ v)))) ++ ((x ++ (y ++ z)) ++ (size ++ digest)))))
        ++ payload)
unfolding le_bytes le_value
laid_out m payload digest d h l c v x y z size a n e (_, pd, ud) (_, ph, uh) (_, pl, ul) (_, pc, uc)
      (_, pv, uv) (_, ea, px, ux) (_, en, py, uy) (_, ee, pz, uz) (ps, us) =
    rw (pd, ph, pl, pc, pv, px, py, pz, ps)
      (record {
        starts = refl;
        version = refl;
        dim = ud;
        hidden_dim = uh;
        n_layers = ul;
        max_seq_len = uc;
        vocab_size = uv;
        architecture = ap pos ux ∙ sym ea;
        num_experts = ap pos uy ∙ sym en;
        experts_per_token = ap pos uz ∙ sym ee;
        size = us;
        hash = take-append digest payload;
        body = drop-append digest payload;
      })

module _ (sha256 : Bytes → Bytes) (m : Shape) (payload : Bytes) (a n e : ℤ) where
  export-header :
      (file : Bytes)
      → export_v3_metadata_model sha256 m payload a n e ≡ ok file
      → (header : Bytes) × (build_v3_header sha256 m payload a n e ≡ ok header)
        × (header ++ payload ≡ file)
  unfolding export_v3_metadata_model
  export-header file r0 =
      let (_, valid, r1) = >>=-eq-ok (validate_model_format_metadata a n e) _ r0 in
      let (header, built, r2) =
        >>=-eq-ok (if a ==ℤ model_arch_moe then err _ else build_v3_header sha256 m payload a n e)
          (λ h. ok (h ++ payload)) r1 in
      (header, ground arith, ground arith)

  header-HoldsFields :
      (header : Bytes)
      → build_v3_header sha256 m payload a n e ≡ ok header
      → HoldsFields m payload (sha256 payload) a n e (header ++ payload)
  unfolding build_v3_header pack_experts
  header-HoldsFields header r0 =
      let (_, _, r1) = >>=-eq-ok (validate_model_format_metadata a n e) _ r0 in
      let (version, rv, r2) = >>=-eq-ok (pack_u32 (pos 3)) _ r1 in
      let (shape, rs, r3) = >>=-eq-ok (pack_shape m) _ r2 in
      let (experts, re, r4) = >>=-eq-ok (pack_experts a n e) _ r3 in
      let (size, rz, r5) = >>=-eq-ok (pack_u64 (length payload)) _ r4 in
      let (x, rx, e1) = >>=-eq-ok (pack_u32 a) _ re in
      let (y, ry, e2) = >>=-eq-ok (pack_u32 n) _ e1 in
      let (z, rw', e3) = >>=-eq-ok (pack_u32 e) _ e2 in
      let (d, h, l, c, v, ps, pd, ph, pl, pc, pv) = pack_shape-parts m shape rs in
      let three : version ≡ le_bytes 4 3 = unfold pack_u32 in cc in
      let whole : magic
            ++ (le_bytes 4 3
                ++ ((d ++ (h ++ (l ++ (c ++ v)))) ++ ((x ++ (y ++ z)) ++ (size ++ sha256 payload))))
          ≡ header =
        cc in
      subst (λ hd. HoldsFields m payload (sha256 payload) a n e (hd ++ payload)) whole
        (laid_out m payload (sha256 payload) d h l c v x y z size a n e pd ph pl pc pv
          (pack_u32-shape a x rx) (pack_u32-shape n y ry) (pack_u32-shape e z rw')
          (pack_u64-shape (length payload) size rz))

  -- A written version 3 file holds the model's fields, the metadata, the payload's length and
  -- hash, and the payload, each at its offset.
  pub export-HoldsFields :
      (file : Bytes)
      → export_v3_metadata_model sha256 m payload a n e ≡ ok file
      → HoldsFields m payload (sha256 payload) a n e file
  export-HoldsFields file r =
      let (header, built, whole) = export-header file r in
      subst (HoldsFields m payload (sha256 payload) a n e) whole (header-HoldsFields header built)
