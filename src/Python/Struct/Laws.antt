-- ===== src/Python/Struct/Laws.antt =====
-- Packing and unpacking, and the widths of packed numbers.
use npp_ai.Prelude.{ℕ, zero, suc, ◌-◌, ◌/◌, ◌<◌, ◌≡◌, refl, arith, length, ap}
use npp_ai.Text.{Bytes, IsBytes}
use npp_ai.Python.Int.{ℤ, pos, negsuc}
use npp_ai.Python.Exceptions.{ok}
use npp_ai.Python.Struct.{le_bytes, le_value, pack_u32, pack_u64, pack_i32, unpack_i32}

pub length-le_bytes : (width n : ℕ) → length (le_bytes width n) ≡ width
unfolding le_bytes
length-le_bytes zero n = refl
length-le_bytes (suc width) n = ap suc (length-le_bytes width (n / 256))

pub le_bytes-IsBytes : (width n : ℕ) → IsBytes (le_bytes width n)
unfolding le_bytes
le_bytes-IsBytes zero n = refl
le_bytes-IsBytes (suc width) n = ground (arith, le_bytes-IsBytes width (n / 256))

-- Four and eight bytes hold every number of that many bits.
pub le_value-le_bytes_four : (n : ℕ) → n < 0x100000000 → le_value (le_bytes 4 n) ≡ n
unfolding le_bytes le_value
le_value-le_bytes_four n h = omega arith

pub le_value-le_bytes_eight : (n : ℕ) → n < 0x10000000000000000 → le_value (le_bytes 8 n) ≡ n
unfolding le_bytes le_value
le_value-le_bytes_eight n h = omega arith

-- A signed word that could be packed is what its bytes are read as.
pub unpack-pack_i32 : (z : ℤ) (bs : Bytes) → pack_i32 z ≡ ok bs → unpack_i32 bs ≡ z
unfolding pack_i32 unpack_i32
unpack-pack_i32 (pos n) bs h = ground (arith, le_value-le_bytes_four n)
unpack-pack_i32 (negsuc n) bs h = ground (arith, le_value-le_bytes_four (0xFFFFFFFF - n))

-- A packed word is the four bytes of a number that is read as the integer.
abbrev pub Packed : ℤ → Bytes → Type 0
Packed z bs = (n : ℕ) × (bs ≡ le_bytes 4 n) × (unpack_i32 (le_bytes 4 n) ≡ z)

pub pack_i32-Packed : (z : ℤ) (bs : Bytes) → pack_i32 z ≡ ok bs → Packed z bs
unfolding pack_i32
pack_i32-Packed (pos n) bs h = (n, ground arith, rw (← shape) (unpack-pack_i32 (pos n) bs h))
  where
    shape : bs ≡ le_bytes 4 n
    shape = ground arith
pack_i32-Packed (negsuc n) bs h =
    (0xFFFFFFFF - n, ground arith, rw (← shape) (unpack-pack_i32 (negsuc n) bs h))
  where
    shape : bs ≡ le_bytes 4 (0xFFFFFFFF - n)
    shape = ground arith

pub pack_u32-shape :
    (z : ℤ) (bs : Bytes)
    → pack_u32 z ≡ ok bs
    → (n : ℕ) × (z ≡ pos n) × (bs ≡ le_bytes 4 n) × (le_value (le_bytes 4 n) ≡ n)
unfolding pack_u32
pack_u32-shape (pos n) bs h = (n, refl, ground arith, le_value-le_bytes_four n (ground arith))
pack_u32-shape (negsuc n) bs h = cc

pub pack_u64-shape :
    (n : ℕ) (bs : Bytes) → pack_u64 n ≡ ok bs → (bs ≡ le_bytes 8 n) × (le_value (le_bytes 8 n) ≡ n)
unfolding pack_u64
pack_u64-shape n bs h = (ground arith, le_value-le_bytes_eight n (ground arith))
