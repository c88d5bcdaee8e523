-- ===== src/ModelFormat.antt =====
-- model_format.py: the metadata check and the header of version 3 of the model format, and the
-- export that refuses mixture-of-experts models. The SHA-256 of hashlib is a parameter.
pub mod Laws
use npp_ai.Prelude.{
  ℕ, ◌≡◌, Bool, true, false, not, ◌&&◌, ◌||◌, List, [], ◌∷◌, ◌++◌, length, ltb, leb, if◌then◌else◌,
}
use npp_ai.Text.{Bytes}
use npp_ai.Python.Int.{ℤ, pos, ◌≤ℤᵇ◌, ◌==ℤ◌}
use npp_ai.Python.Exceptions.{Result, ok, err, value_error, not_implemented_error, ◌>>=◌, ◌>>◌}
use npp_ai.Python.Struct.{pack_u32, pack_u64, pack_i32}

abbrev pub model_arch_dense : ℤ
model_arch_dense = pos 0

abbrev pub model_arch_moe : ℤ
model_arch_moe = pos 1

-- The fields of a model that the header names.
pub record Shape : Type 0 where
  pub dim : ℤ
  pub hidden_dim : ℤ
  pub n_layers : ℤ
  pub max_seq_len : ℤ
  pub vocab_size : ℤ

-- Each early return and each raise, in order.
unfoldable pub validate_model_format_metadata : ℤ → ℤ → ℤ → Result (Unit {0})
validate_model_format_metadata architecture num_experts experts_per_token =
    if architecture ==ℤ model_arch_dense
    then if not (num_experts ==ℤ pos 0) || not (experts_per_token ==ℤ pos 0)
      then err (value_error "Dense v3 metadata requires zero expert fields")
      else ok tt
    else if architecture ==ℤ model_arch_moe
    then if not (pos 1 ≤ℤᵇ num_experts)
      then err (value_error "MoE metadata requires num_experts >= 1")
      else if not (pos 1 ≤ℤᵇ experts_per_token) || not (experts_per_token ≤ℤᵇ num_experts)
      then err (value_error "MoE metadata requires 1 <= experts_per_token <= num_experts")
      else ok tt
    else err (value_error "Unknown model architecture")

-- b"NPPAI\0\0\0"
abbrev pub magic : Bytes
magic = 78 ∷ 80 ∷ 80 ∷ 65 ∷ 73 ∷ 0 ∷ 0 ∷ 0 ∷ []

-- `struct.pack("<5i", …)`, which the exports of both versions call.
unfoldable pub pack_shape : Shape → Result Bytes
pack_shape m = do
  dim ← pack_i32 m.dim
  hidden ← pack_i32 m.hidden_dim
  layers ← pack_i32 m.n_layers
  context ← pack_i32 m.max_seq_len
  vocab ← pack_i32 m.vocab_size
  ok (dim ++ (hidden ++ (layers ++ (context ++ vocab))))

-- `struct.pack("<3I", …)`.
unfoldable pub pack_experts : ℤ → ℤ → ℤ → Result Bytes
pack_experts architecture num_experts experts_per_token = do
  a ← pack_u32 architecture
  n ← pack_u32 num_experts
  e ← pack_u32 experts_per_token
  ok (a ++ (n ++ e))

module _ (sha256 : Bytes → Bytes) where
  unfoldable pub build_v3_header : Shape → Bytes → ℤ → ℤ → ℤ → Result Bytes
  build_v3_header model payload_bytes architecture num_experts experts_per_token = do
    validate_model_format_metadata architecture num_experts experts_per_token
    version ← pack_u32 (pos 3)
    shape ← pack_shape model
    experts ← pack_experts architecture num_experts experts_per_token
    size ← pack_u64 (length payload_bytes)
    ok (magic ++ (version ++ (shape ++ (experts ++ (size ++ sha256 payload_bytes)))))

  -- The bytes of the file that is written; a raise comes before the file is opened.
  unfoldable pub export_v3_metadata_model : Shape → Bytes → ℤ → ℤ → ℤ → Result Bytes
  export_v3_metadata_model model payload_bytes architecture num_experts experts_per_token = do
    validate_model_format_metadata architecture num_experts experts_per_token
    header ←
        (if architecture ==ℤ model_arch_moe
          then err (
              not_implemented_error
                "MoE v3 tensor serialization is not defined yet; refusing unsafe export")
          else build_v3_header model payload_bytes architecture num_experts experts_per_token)
    ok (header ++ payload_bytes)
