-- ===== src/Text/Hex.antt =====
-- Hexadecimal digits: `hexdigest` and the escapes of json.
use npp_ai.Prelude.{ℕ, ◌+◌, ◌/◌, ◌%◌, [], ◌∷◌, ltb, if◌then◌else◌}
use npp_ai.Text.{Text, Bytes}

unfoldable pub hex_digit : ℕ → ℕ
hex_digit n = if ltb n 10 then 48 + n else 87 + n

-- `digest.hexdigest()`
unfoldable pub hexdigest : Bytes → Text
unfolding hex_digit
hexdigest [] = []
hexdigest (b ∷ bs) = hex_digit (b / 16) ∷ hex_digit (b % 16) ∷ hexdigest bs
