-- ===== src/Text/Utf8.antt =====
-- `str.encode('utf-8')` and `bytes.decode('utf-8', errors='replace')`.
pub mod RoundTrip
pub mod Bounds
use npp_ai.Prelude.{
  ℕ, zero, suc, ◌+◌, ◌-◌, ◌*◌, ◌/◌, ◌%◌, Bool, ◌&&◌, ◌||◌, List, [], ◌∷◌, ◌++◌, ltb, leb, all, ◌==◌,
  if◌then◌else◌,
}
use npp_ai.Text.{Text, Bytes}

-- A code point that UTF-8 has a form for. A surrogate has none: Python raises on it, and no
-- request or response holds one, since their validation refuses it.
unfoldable pub is_scalar : ℕ → Bool
is_scalar c = ltb c 0xD800 || (leb 0xE000 c && ltb c 0x110000)

unfoldable pub is_text : Text → Bool
is_text = all is_scalar

unfoldable pub encode_char : ℕ → Bytes
encode_char c =
    if ltb c 0x80
    then c ∷ []
    else if ltb c 0x800
    then (0xC0 + c / 64) ∷ (0x80 + c % 64) ∷ []
    else if ltb c 0x10000
    then (0xE0 + c / 4096) ∷ (0x80 + c / 64 % 64) ∷ (0x80 + c % 64) ∷ []
    else (0xF0 + c / 262144) ∷ (0x80 + c / 4096 % 64) ∷ (0x80 + c / 64 % 64) ∷ (0x80 + c % 64) ∷ []

unfoldable pub encode : Text → Bytes
unfolding encode_char
encode [] = []
encode (c ∷ s) = encode_char c ++ encode s

-- The decoder between two bytes: at a boundary, or with bytes of a sequence still to come, the
-- next of them in a range, and the bits read so far.
pub data Pending : Type 0 where
  boundary : Pending
  awaiting : ℕ → ℕ → ℕ → ℕ → Pending

-- U+FFFD, which stands for each maximal part of a malformed sequence.
abbrev pub replacement : ℕ
replacement = 0xFFFD

abbrev pub Fed : Type 0
Fed = Text × Pending

feed_start : ℕ → Fed
feed_start b =
    if ltb b 0x80
    then (b ∷ [], boundary)
    else if ltb b 0xC2
    then (replacement ∷ [], boundary)
    else if ltb b 0xE0
    then ([], awaiting 0 0x80 0xBF (b - 0xC0))
    else if ltb b 0xF0
    then (
      [],
      awaiting 1 (if b == 0xE0 then 0xA0 else 0x80) (if b == 0xED then 0x9F else 0xBF) (b - 0xE0),
    )
    else if ltb b 0xF5
    then (
      [],
      awaiting 2 (if b == 0xF0 then 0x90 else 0x80) (if b == 0xF4 then 0x8F else 0xBF) (b - 0xF0),
    )
    else (replacement ∷ [], boundary)

-- One continuation byte, with `more` to come behind it.
feed_next : ℕ → ℕ → Fed
feed_next zero acc = (acc ∷ [], boundary)
feed_next (suc more) acc = ([], awaiting more 0x80 0xBF acc)

feed : Pending → ℕ → Fed
unfolding feed_start feed_next
feed boundary b = feed_start b
feed (awaiting more lo hi acc) b =
    if leb lo b && leb b hi
    then feed_next more (acc * 64 + (b - 0x80))
    else (let (out, next) = feed_start b in (replacement ∷ out, next))

pub decode_from : Pending → Bytes → Text
unfolding feed
decode_from boundary [] = []
decode_from (awaiting more lo hi acc) [] = replacement ∷ []
decode_from st (b ∷ bs) = let (out, next) = feed st b in out ++ decode_from next bs

unfoldable pub decode : Bytes → Text
unfolding decode_from
decode bs = decode_from boundary bs
