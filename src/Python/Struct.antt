-- ===== src/Python/Struct.antt =====
-- `struct.pack` and `struct.unpack_from` for the little-endian formats `<I`, `<i` and `<Q`.
pub mod Laws
use npp_ai.Prelude.{ℕ, zero, suc, ◌+◌, ◌-◌, ◌*◌, ◌/◌, ◌%◌, ◌^◌, List, [], ◌∷◌, ltb, if◌then◌else◌}
use npp_ai.Text.{Bytes}
use npp_ai.Python.Int.{ℤ, pos, negsuc}
use npp_ai.Python.Exceptions.{Result, ok, err, struct_error}

-- The `width` bytes of a number, the lowest first.
unfoldable pub le_bytes : ℕ → ℕ → Bytes
le_bytes zero n = []
le_bytes (suc width) n = (n % 256) ∷ le_bytes width (n / 256)

unfoldable pub le_value : Bytes → ℕ
le_value [] = 0
le_value (b ∷ bs) = b + 256 * le_value bs

-- `struct.pack('<I', v)`, `struct.pack('<Q', v)`: `struct.error` outside the range.
unfoldable pub pack_u32 : ℤ → Result Bytes
pack_u32 (pos n) = if ltb n 0x100000000 then ok (le_bytes 4 n) else err struct_error
pack_u32 (negsuc n) = err struct_error

unfoldable pub pack_u64 : ℕ → Result Bytes
pack_u64 n = if ltb n 0x10000000000000000 then ok (le_bytes 8 n) else err struct_error

-- `struct.pack('<i', v)`: two's complement.
unfoldable pub pack_i32 : ℤ → Result Bytes
pack_i32 (pos n) = if ltb n 0x80000000 then ok (le_bytes 4 n) else err struct_error
pack_i32 (negsuc n) =
    if ltb n 0x80000000 then ok (le_bytes 4 (0xFFFFFFFF - n)) else err struct_error

-- `struct.unpack_from('<i', …)` on four bytes.
unfoldable pub unpack_i32 : Bytes → ℤ
unpack_i32 bs = let v = le_value bs in if ltb v 0x80000000 then pos v else negsuc (0xFFFFFFFF - v)
