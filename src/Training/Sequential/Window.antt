-- ===== src/Training/Sequential/Window.antt =====
-- The byte under the cursor: read in the window of the decoder, and in the frame of the auditor.
use npp_ai.Prelude.{
  ℕ, zero, suc, ◌+◌, ◌-◌, ◌<◌, ◌≤◌, ◌≡◌, refl, sym, ap, ◌∙◌, Bool, true, false, ◌&&◌, Bool-cases,
  inl, inr, Option, none, some, List, [], ◌∷◌, ◌++◌, all, length, length-append, drop, ltb, leb,
  leb→le, ltb→lt, both, arith,
}
use mathlib.Core.Option.{some-injective}
use npp_ai.Text.{Bytes}
use npp_ai.Training.Copy.{mask_from}
use npp_ai.Training.Transition.{at}
use npp_ai.Training.Sequential.{Probability, nonzero, marked, source_byte}
use npp_ai.Training.Sequential.Audit.{valid_byte}

module _ {A : Type 0} where
  pub at-out : (xs : List A) (i : ℕ) → length xs ≤ i → at xs i ≡ none
  unfolding at
  at-out [] i h = refl
  at-out (x ∷ xs) zero h = absurd (omega arith)
  at-out (x ∷ xs) (suc i) h = at-out xs i (omega arith)

  pub at-append_left : (xs ys : List A) (i : ℕ) → i < length xs → at (xs ++ ys) i ≡ at xs i
  unfolding at
  at-append_left [] ys i h = absurd (omega arith)
  at-append_left (x ∷ xs) ys zero h = refl
  at-append_left (x ∷ xs) ys (suc i) h = at-append_left xs ys i (omega arith)

  pub at-drop : (n i : ℕ) (xs : List A) → at (drop n xs) i ≡ at xs (n + i)
  unfolding at
  at-drop zero i xs = ap (at xs) (omega arith)
  at-drop (suc n) i [] = refl
  at-drop (suc n) i (x ∷ xs) =
      let next : suc n + i ≡ suc (n + i) = omega arith in rw next (at-drop n i xs)

  pub length-drop : (n : ℕ) (xs : List A) → length (drop n xs) ≡ length xs - n
  length-drop zero xs = omega arith
  length-drop (suc n) [] = omega arith
  length-drop (suc n) (x ∷ xs) = omega (arith, length-drop n xs)

-- The place behind the last, and a place of what is appended.
pub at-length_append : (xs ys : List ℕ) → at (xs ++ ys) (length xs) ≡ at ys 0
unfolding at
at-length_append [] ys = refl
at-length_append (x ∷ xs) ys = at-length_append xs ys

pub at-all :
    (p : ℕ → Bool) (xs : List ℕ) (i b : ℕ) → all p xs ≡ true → at xs i ≡ some b → p b ≡ true
unfolding at
at-all p [] i b h e = absurd (cc e)
at-all p (x ∷ xs) zero b h e =
    let (here, _) = both (p x) (all p xs) h in ap p (sym (some-injective x b e)) ∙ here
at-all p (x ∷ xs) (suc i) b h e =
    let (_, later) = both (p x) (all p xs) h in at-all p xs i b later e

pub at-mask_from :
    (left right i n d : ℕ)
    → d < n
    → at (mask_from left right i n) d ≡ some (leb left (i + d) && ltb (i + d) right)
unfolding at mask_from
at-mask_from left right i zero d h = absurd (omega arith)
at-mask_from left right i (suc n) zero h = let here : i + 0 ≡ i = omega arith in rw here
at-mask_from left right i (suc n) (suc d) h =
    let next : i + suc d ≡ i + 1 + d = omega arith in
    rw next (at-mask_from left right (i + 1) n d (omega arith))

pub length-mask_from : (left right i n : ℕ) → length (mask_from left right i n) ≡ n
unfolding mask_from
length-mask_from left right i zero = refl
length-mask_from left right i (suc n) = ap suc (length-mask_from left right (i + 1) n)

module _ (P : Probability) (frame output : Bytes) (left right offset cursor : ℕ)
    (inside : right ≤ length frame) where
  abbrev x : List ℕ
  x = drop offset (frame ++ output)

  abbrev mask : List Bool
  mask = mask_from left right offset (length x)

  -- Outside the prompt neither finds a byte.
  outside :
      (leb left cursor && ltb cursor right && leb offset cursor) ≡ false
      → valid_byte P frame left right offset cursor ≡ none
  unfolding valid_byte
  outside h = rw (valid_byte, h)

  -- What the decoder finds, by the mark and the byte at the cursor.
  found :
      (m : Option Bool) (o : Option ℕ)
      → leb offset cursor ≡ true
      → at mask (cursor - offset) ≡ m
      → at x (cursor - offset) ≡ o
      → source_byte P x mask offset cursor ≡ marked m o
  unfolding source_byte
  found m o seen em eo = rw seen (λ i. marked (em i) (eo i))

  inside_prompt :
      (leb left cursor && ltb cursor right && leb offset cursor) ≡ true
      → valid_byte P frame left right offset cursor ≡ nonzero (at frame cursor)
  unfolding valid_byte
  inside_prompt h = rw h

  module _ (seen : leb offset cursor ≡ true) where
    at-mask :
        cursor < length (frame ++ output)
        → at mask (cursor - offset) ≡ some (leb left cursor && ltb cursor right)
    at-mask h =
        let near : cursor - offset < length x =
          omega (arith, length-drop offset (frame ++ output), leb→le offset cursor seen) in
        let same : offset + (cursor - offset) ≡ cursor = omega (arith, leb→le offset cursor seen) in
        at-mask_from left right offset (length x) (cursor - offset) near
        ∙ ap (λ c. some (leb left c && ltb c right)) same

    byte_at :
        leb left cursor ≡ true → ltb cursor right ≡ true → at x (cursor - offset) ≡ at frame cursor
    byte_at low high =
        let same : offset + (cursor - offset) ≡ cursor = omega (arith, leb→le offset cursor seen) in
        at-drop offset (cursor - offset) (frame ++ output)
        ∙ ap (at (frame ++ output)) same
        ∙ at-append_left frame output cursor (omega (arith, inside, ltb→lt cursor right high))

    beyond : length (frame ++ output) ≤ cursor → at mask (cursor - offset) ≡ none
    beyond h = at-out mask (cursor - offset) (
        omega (
          arith,
          length-mask_from left right offset (length x),
          length-drop offset (frame ++ output),
          leb→le offset cursor seen,
        ))

    seen_byte : source_byte P x mask offset cursor ≡ valid_byte P frame left right offset cursor
    unfolding marked
    seen_byte = elim (Bool-cases (ltb cursor (length (frame ++ output)))) [
      | inl within ↦ elim (Bool-cases (leb left cursor && ltb cursor right)) [
        | inl prompt ↦
            let (low, high) = both (leb left cursor) (ltb cursor right) prompt in
            let mark = at-mask (ltb→lt cursor _ within) in
            let byte = byte_at low high in
            found (some true) _ seen (mark ∙ ap some prompt) byte
            ∙ sym (inside_prompt (ground arith))
        | inr apart ↦
            let mark = at-mask (ltb→lt cursor _ within) in
            found (some false) _ seen (mark ∙ ap some apart) refl ∙ sym (outside (ground arith))
      ]
      | inr far ↦
          let past : length (frame ++ output) ≤ cursor = ground arith in
          let whole = length-append frame output in
          let high : ltb cursor right ≡ false = ground (arith, inside) in
          found none _ seen (beyond past) refl ∙ sym (outside (ground arith))
    ]

  unseen : leb offset cursor ≡ false → source_byte P x mask offset cursor ≡ none
  unfolding source_byte
  unseen early = rw early

  -- The decoder reads the byte that the auditor reads.
  pub source_byte-valid_byte :
      source_byte P x mask offset cursor ≡ valid_byte P frame left right offset cursor
  source_byte-valid_byte = elim (Bool-cases (leb offset cursor)) [
    | inl seen ↦ seen_byte seen
    | inr early ↦ unseen early ∙ sym (outside (ground arith))
  ]
