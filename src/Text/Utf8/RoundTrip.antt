-- ===== src/Text/Utf8/RoundTrip.antt =====
-- `decode` on what `encode` writes.
use npp_ai.Prelude.{
  ℕ, ◌≡◌, refl, ◌∙◌, ap, ◌+◌, ◌*◌, ◌/◌, ◌%◌, ◌≤◌, ◌<◌, suc, true, [], ◌∷◌, ◌++◌, arith, ltb,
  Bool-cases, inl, inr, ◌==◌, if◌then◌else◌, all-append, append_assoc,
}
use npp_ai.Text.{Text, Bytes, IsBytes}
use npp_ai.Text.Utf8.{
  is_scalar, is_text, encode_char, encode, boundary, awaiting, decode_from, decode,
}

-- One lemma for each kind of byte in a well-formed sequence.
module _ (bs : Bytes) where
  start_one : (c : ℕ) → c < 0x80 → decode_from boundary (c ∷ bs) ≡ c ∷ decode_from boundary bs
  unfolding decode_from
  start_one c h = ground arith

  start_two :
      (q : ℕ)
      → 2 ≤ q
      → q < 32
      → decode_from boundary ((0xC0 + q) ∷ bs) ≡ decode_from (awaiting 0 0x80 0xBF q) bs
  unfolding decode_from
  start_two q h k = ground arith

  start_three :
      (q : ℕ)
      → q < 16
      → decode_from boundary ((0xE0 + q) ∷ bs)
        ≡ decode_from
            (awaiting 1 (if q == 0 then 0xA0 else 0x80) (if q == 13 then 0x9F else 0xBF) q)
            bs
  unfolding decode_from
  start_three q k = ground arith

  start_four :
      (q : ℕ)
      → q < 5
      → decode_from boundary ((0xF0 + q) ∷ bs)
        ≡ decode_from
            (awaiting 2 (if q == 0 then 0x90 else 0x80) (if q == 4 then 0x8F else 0xBF) q)
            bs
  unfolding decode_from
  start_four q k = ground arith

  middle :
      (more lo hi acc y : ℕ)
      → lo ≤ 0x80 + y
      → 0x80 + y ≤ hi
      → decode_from (awaiting (suc more) lo hi acc) ((0x80 + y) ∷ bs)
        ≡ decode_from (awaiting more 0x80 0xBF (acc * 64 + y)) bs
  unfolding decode_from
  middle more lo hi acc y h k = ground arith

  last :
      (lo hi acc y : ℕ)
      → lo ≤ 0x80 + y
      → 0x80 + y ≤ hi
      → decode_from (awaiting 0 lo hi acc) ((0x80 + y) ∷ bs)
        ≡ (acc * 64 + y) ∷ decode_from boundary bs
  unfolding decode_from
  last lo hi acc y h k = ground arith

  module _ (c : ℕ) where
    last_byte :
        (lo hi acc y : ℕ)
        → lo ≤ 0x80 + y
        → 0x80 + y ≤ hi
        → acc * 64 + y ≡ c
        → decode_from (awaiting 0 lo hi acc) ((0x80 + y) ∷ bs) ≡ c ∷ decode_from boundary bs
    last_byte lo hi acc y h k e = last lo hi acc y h k ∙ ap (λ t. t ∷ decode_from boundary bs) e

module _ (c : ℕ) (bs : Bytes) where
  decode_two :
      0x80 ≤ c
      → c < 0x800
      → decode_from boundary ((0xC0 + c / 64) ∷ (0x80 + c % 64) ∷ bs) ≡ c ∷ decode_from boundary bs
  decode_two h k =
      start_two _ (c / 64) (omega arith) (omega arith)
      ∙ last_byte bs c 0x80 0xBF (c / 64) (c % 64) (omega arith) (omega arith) (omega arith)

  decode_three :
      0x800 ≤ c
      → c < 0x10000
      → is_scalar c ≡ true
      → decode_from boundary ((0xE0 + c / 4096) ∷ (0x80 + c / 64 % 64) ∷ (0x80 + c % 64) ∷ bs)
        ≡ c ∷ decode_from boundary bs
  unfolding is_scalar
  decode_three h k s =
      start_three _ (c / 4096) (omega arith)
      ∙ middle _ 0 _ _ (c / 4096) (c / 64 % 64) (ground arith) (ground arith)
      ∙ last_byte bs c 0x80 0xBF (c / 4096 * 64 + c / 64 % 64) (c % 64) (omega arith) (omega arith)
          (omega arith)

  decode_four :
      0x10000 ≤ c
      → c < 0x110000
      → decode_from boundary (
          (0xF0 + c / 262144)
          ∷ (0x80 + c / 4096 % 64)
          ∷ (0x80 + c / 64 % 64)
          ∷ (0x80 + c % 64)
          ∷ bs)
        ≡ c ∷ decode_from boundary bs
  decode_four h k =
      start_four _ (c / 262144) (omega arith)
      ∙ middle _ 1 _ _ (c / 262144) (c / 4096 % 64) (ground arith) (ground arith)
      ∙ middle _ 0 0x80 0xBF (c / 262144 * 64 + c / 4096 % 64) (c / 64 % 64) (omega arith)
          (omega arith)
      ∙ last_byte bs c 0x80 0xBF ((c / 262144 * 64 + c / 4096 % 64) * 64 + c / 64 % 64) (c % 64)
          (omega arith) (omega arith) (omega arith)

  pub decode_char :
      is_scalar c ≡ true → decode_from boundary (encode_char c ++ bs) ≡ c ∷ decode_from boundary bs
  unfolding encode_char is_scalar
  decode_char s = elim (Bool-cases (ltb c 0x80)) [
    | inl one ↦ rw one (start_one bs c (ground arith))
    | inr n1 ↦ elim (Bool-cases (ltb c 0x800)) [
      | inl two ↦ rw (n1, two) (decode_two (ground arith) (ground arith))
      | inr n2 ↦ elim (Bool-cases (ltb c 0x10000)) [
        | inl three ↦ rw (n1, n2, three) (decode_three (ground arith) (ground arith) s)
        | inr n3 ↦ rw (n1, n2, n3) (decode_four (ground arith) (ground arith))
      ]
    ]
  ]

pub decode-encode : (s : Text) → is_text s ≡ true → decode (encode s) ≡ s
unfolding decode decode_from is_text encode
decode-encode [] h = refl
decode-encode (c ∷ s) h =
    decode_char c (encode s) (ground arith) ∙ ap (λ t. c ∷ t) (decode-encode s (ground arith))

encode_char-IsBytes : (c : ℕ) → is_scalar c ≡ true → IsBytes (encode_char c)
unfolding encode_char is_scalar
encode_char-IsBytes c h = ground arith

pub encode-IsBytes : (s : Text) → is_text s ≡ true → IsBytes (encode s)
unfolding encode is_text
encode-IsBytes [] h = refl
encode-IsBytes (c ∷ s) h =
    rw (all-append _ (encode_char c) (encode s))
      (ground (arith, encode_char-IsBytes c, encode-IsBytes s))

-- A well-formed beginning is decoded to its text, whatever stands behind it.
pub decode-encode_append :
    (s : Text) (bs : Bytes) → is_text s ≡ true → decode (encode s ++ bs) ≡ s ++ decode bs
unfolding decode is_text encode
decode-encode_append [] bs h = refl
decode-encode_append (c ∷ s) bs h = rw (append_assoc) (
    decode_char c (encode s ++ bs) (ground arith)
    ∙ ap (λ t. c ∷ t) (decode-encode_append s bs (ground arith)))

pub encode-append : (s t : Text) → encode (s ++ t) ≡ encode s ++ encode t
unfolding encode
encode-append [] t = refl
encode-append (c ∷ s) t = rw (encode-append s t, append_assoc)
