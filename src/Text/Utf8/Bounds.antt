-- ===== src/Text/Utf8/Bounds.antt =====
-- What `decode` returns on any bytes: its code points and their number.
use npp_ai.Prelude.{
  ℕ, zero, suc, ◌+◌, ◌*◌, ◌-◌, ◌≤◌, ◌<◌, ◌≡◌, refl, ◌⊎◌, inl, ltb, leb, if_intro, true, ◌&&◌, [],
  ◌∷◌, length, length-append, all-append, arith,
}
use npp_ai.Text.{Bytes}
use npp_ai.Text.Utf8.{
  is_scalar, is_text, Pending, boundary, awaiting, Fed, feed_start, feed_next, feed, decode_from,
  decode,
}

-- What the bits read so far may be, so that what is read is no surrogate and not too large.
abbrev Bits : ℕ → ℕ → ℕ → ℕ → Type 0
Bits zero lo hi acc = (acc < 0x360) ⊎ (0x380 ≤ acc) × (acc < 0x4400)
Bits (suc zero) lo hi acc = (acc < 13) ⊎ ((acc ≡ 13) × (hi ≤ 0x9F)) ⊎ ((14 ≤ acc) × (acc < 0x110))
Bits (suc (suc zero)) lo hi acc =
    ((acc ≡ 0) × (0x90 ≤ lo)) ⊎ ((1 ≤ acc) × (acc < 4)) ⊎ ((acc ≡ 4) × (hi ≤ 0x8F))
Bits _ lo hi acc = ⊥

abbrev IsPending : Pending → Type 0
IsPending boundary = Unit
IsPending (awaiting more lo hi acc) = (0x80 ≤ lo) × (hi ≤ 0xBF) × Bits more lo hi acc

abbrev Fine : Fed → Type 0
Fine f = IsPending f.1 × (is_text f.0 ≡ true)

feed_start-Fine : (b : ℕ) → Fine (feed_start b)
unfolding feed_start is_text is_scalar
feed_start-Fine b =
    if_intro Fine (ltb b 0x80) (λ h. (tt, ground arith))
      λ h0.
        if_intro Fine (ltb b 0xC2) (λ h. (tt, refl))
          λ h1.
            if_intro Fine (ltb b 0xE0) (λ h. ((omega arith, omega arith, inl (ground arith)), refl))
              λ h2.
                if_intro Fine (ltb b 0xF0) (λ h. ((ground arith, ground arith, ground arith), refl))
                  λ h3.
                    if_intro Fine (ltb b 0xF5)
                      (λ h. ((ground arith, ground arith, ground arith), refl)) λ h4. (tt, refl)

feed_next-IsPending :
    (more lo hi acc b : ℕ)
    → IsPending (awaiting more lo hi acc)
    → lo ≤ b
    → b ≤ hi
    → IsPending (feed_next more (acc * 64 + (b - 0x80))).1
      × (is_text (feed_next more (acc * 64 + (b - 0x80))).0 ≡ true)
unfolding feed_next is_text is_scalar
feed_next-IsPending zero lo hi acc b (hl, hh, hb) p q = (tt, ground arith)
feed_next-IsPending (suc zero) lo hi acc b (hl, hh, hb) p q =
    ((omega arith, omega arith, ground arith), refl)
feed_next-IsPending (suc (suc zero)) lo hi acc b (hl, hh, hb) p q =
    ((omega arith, omega arith, ground arith), refl)
feed_next-IsPending (suc (suc (suc more))) lo hi acc b (hl, hh, hb) p q = absurd hb

feed-Fine : (st : Pending) (b : ℕ) → IsPending st → Fine (feed st b)
unfolding feed
feed-Fine boundary b h = feed_start-Fine b
feed-Fine (awaiting more lo hi acc) b h =
    if_intro Fine (leb lo b && leb b hi)
      (λ e. feed_next-IsPending more lo hi acc b h (ground arith) (ground arith))
      (λ e. let (p, t) = feed_start-Fine b in (p, unfold is_text is_scalar in t))

is_text-decode_from :
    (st : Pending) (bs : Bytes) → IsPending st → is_text (decode_from st bs) ≡ true
unfolding decode_from is_text
is_text-decode_from boundary [] h = refl
is_text-decode_from (awaiting more lo hi acc) [] h = unfold is_scalar in refl
is_text-decode_from st (b ∷ bs) h =
    let (p, t) = feed-Fine st b h in
    rw (all-append _ (feed st b).0 (decode_from (feed st b).1 bs))
      (ground (arith, t, is_text-decode_from (feed st b).1 bs p))

pub is_text-decode : (bs : Bytes) → is_text (decode bs) ≡ true
unfolding decode
is_text-decode bs = is_text-decode_from boundary bs tt

abbrev held : Pending → ℕ
held boundary = 0
held (awaiting more lo hi acc) = 1

abbrev Short : ℕ → Fed → Type 0
Short n f = length f.0 + held f.1 ≤ n + 1

feed_start-Short : (b : ℕ) → Short 0 (feed_start b)
unfolding feed_start
feed_start-Short b =
    if_intro (Short 0) (ltb b 0x80) (λ h. omega arith)
      λ h0.
        if_intro (Short 0) (ltb b 0xC2) (λ h. omega arith)
          λ h1.
            if_intro (Short 0) (ltb b 0xE0) (λ h. omega arith)
              λ h2.
                if_intro (Short 0) (ltb b 0xF0) (λ h. omega arith)
                  λ h3. if_intro (Short 0) (ltb b 0xF5) (λ h. omega arith) λ h4. omega arith

feed_next-Short : (more acc : ℕ) → Short 0 (feed_next more acc)
unfolding feed_next
feed_next-Short zero acc = omega arith
feed_next-Short (suc more) acc = omega arith

feed-Short : (st : Pending) (b : ℕ) → Short (held st) (feed st b)
unfolding feed
feed-Short boundary b = feed_start-Short b
feed-Short (awaiting more lo hi acc) b =
    if_intro (Short 1) (leb lo b && leb b hi)
      (λ e. omega (arith, feed_next-Short more (acc * 64 + (b - 0x80))))
      (λ e. omega (arith, feed_start-Short b))

length-decode_from : (st : Pending) (bs : Bytes) → length (decode_from st bs) ≤ length bs + held st
unfolding decode_from
length-decode_from boundary [] = omega arith
length-decode_from (awaiting more lo hi acc) [] = omega arith
length-decode_from st (b ∷ bs) = omega (
  arith,
  feed-Short st b,
  length-append (feed st b).0 (decode_from (feed st b).1 bs),
  length-decode_from (feed st b).1 bs,
)

pub length-decode : (bs : Bytes) → length (decode bs) ≤ length bs
unfolding decode
length-decode bs = omega (arith, length-decode_from boundary bs)
