-- ===== src/Text/Words/Laws.antt =====
-- Words that are joined by blanks and newlines, read again; the digits of a number, read again.
use npp_ai.Prelude.{
  ℕ, zero, suc, ◌+◌, ◌-◌, ◌*◌, ◌/◌, ◌%◌, ◌<◌, ◌≡◌, refl, ◌∙◌, ap, subst, Bool, true, false, not,
  Bool-cases, inl, inr, some, [], ◌∷◌, ◌++◌, all, all-append, both, ltb, ◌==◌, arith,
}
use npp_ai.Python.Int.{pos}
use npp_ai.Text.{Text, is_space, nonempty}
use npp_ai.Text.Decimal.{decimal_from, decimal}
use npp_ai.Text.Words.{onto_first, file_lines, at_gap, split, is_digit, scan, signed, int}

-- A line is read up to its newline.
pub file_lines-line :
    (w s : Text)
    → all (λ c. not (c == 10)) w ≡ true
    → file_lines (w ++ (10 ∷ s)) ≡ (w ++ (10 ∷ [])) ∷ file_lines s
unfolding file_lines
file_lines-line [] s h = refl
file_lines-line (c ∷ w) s h =
    let (other, others) = both (not (c == 10)) (all (λ c. not (c == 10)) w) h in
    let go_on : (c == 10) ≡ false = ground arith in
    rw (go_on, file_lines-line w s others) (unfold onto_first in refl)

split-onto :
    (c : ℕ) (s : Text)
    → is_space c ≡ false
    → at_gap s ≡ false
    → split (c ∷ s) ≡ onto_first c (split s)
unfolding split
split-onto c s solid on = rw (solid, on)

-- A word in front of white space or the end.
pub split-word :
    (c : ℕ) (w s : Text)
    → all (λ c. not (is_space c)) (c ∷ w) ≡ true
    → at_gap s ≡ true
    → split ((c ∷ w) ++ s) ≡ (c ∷ w) ∷ split s
unfolding onto_first split
split-word c [] s h gap = let solid : is_space c ≡ false = ground arith in rw (solid, gap)
split-word c (d ∷ w) s h gap =
    let (h0, h1) = both (not (is_space c)) (all (λ c. not (is_space c)) (d ∷ w)) h in
    let (h2, _) = both (not (is_space d)) (all (λ c. not (is_space c)) w) h1 in
    let solid : is_space c ≡ false = ground arith in
    let on : at_gap (d ∷ (w ++ s)) ≡ false = unfold at_gap in ground arith in
    split-onto c (d ∷ (w ++ s)) solid on ∙ ap (onto_first c) (split-word d w s h1 gap)

pub split-gap : (c : ℕ) (s : Text) → is_space c ≡ true → split (c ∷ s) ≡ split s
unfolding split
split-gap c s h = rw h

-- The number that a row of digits stands for.
value : ℕ → Text → ℕ
value n [] = n
value n (c ∷ s) = value (n * 10 + (c - 48)) s

value-append : (n c : ℕ) (s : Text) → value n (s ++ (c ∷ [])) ≡ value n s * 10 + (c - 48)
unfolding value
value-append n c [] = refl
value-append n c (d ∷ s) = value-append (n * 10 + (d - 48)) c s

scan-digit :
    (n : ℕ) (b : Bool) (c : ℕ) (s : Text)
    → is_digit c ≡ true
    → scan n b (c ∷ s) ≡ scan (n * 10 + (c - 48)) true s
unfolding scan
scan-digit n b c s digit = rw (scan, digit)

scan-value : (n : ℕ) (s : Text) → all is_digit s ≡ true → scan n true s ≡ some (value n s)
unfolding value
scan-value n [] h = unfold scan in refl
scan-value n (c ∷ s) h =
    let (digit, digits) = both (is_digit c) (all is_digit s) h in
    scan-digit n true c s digit ∙ scan-value (n * 10 + (c - 48)) s digits

decimal_from-digits : (fuel n : ℕ) → all is_digit (decimal_from fuel n) ≡ true
unfolding decimal_from
decimal_from-digits zero n = refl
decimal_from-digits (suc fuel) n = elim (Bool-cases (ltb n 10)) [
  | inl one ↦ rw one (unfold is_digit in ground arith)
  | inr more ↦
      let last : is_digit (48 + n % 10) ≡ true = unfold is_digit in ground arith in
      rw (more, all-append is_digit, decimal_from-digits fuel (n / 10), last)
]

value-decimal_from : (fuel n : ℕ) → n < fuel → value 0 (decimal_from fuel n) ≡ n
unfolding decimal_from
value-decimal_from zero n h = absurd (omega arith)
value-decimal_from (suc fuel) n h = elim (Bool-cases (ltb n 10)) [
  | inl one ↦ rw one (unfold value in omega arith)
  | inr more ↦
      rw
        (
          more,
          value-append 0 (48 + n % 10) (decimal_from fuel (n / 10)),
          value-decimal_from fuel (n / 10) (ground arith),
        )
        (ground arith)
]

-- The digits of a number are a word, which `int` reads as the number.
pub decimal-digits : (n : ℕ) → all is_digit (decimal n) ≡ true
unfolding decimal
decimal-digits n = decimal_from-digits (n + 1) n

int-digits :
    (c : ℕ) (s : Text) → all is_digit (c ∷ s) ≡ true → int (c ∷ s) ≡ some (pos (value 0 (c ∷ s)))
unfolding value scan int
int-digits c s h =
    let (digit, digits) = both (is_digit c) (all is_digit s) h in
    let plus : (c == 43) ≡ false = unfold is_digit in ground arith in
    let minus : (c == 45) ≡ false = unfold is_digit in ground arith in
    let read : scan 0 false (c ∷ s) ≡ some (value 0 (c ∷ s)) =
      scan-digit 0 false c s digit ∙ scan-value (0 * 10 + (c - 48)) s digits in
    rw (int, plus, minus, read) (unfold signed in refl)

decimal_from-nonempty : (fuel n : ℕ) → nonempty (decimal_from (suc fuel) n) ≡ true
unfolding decimal_from
decimal_from-nonempty fuel n = elim (Bool-cases (ltb n 10)) [
  | inl one ↦ rw one
  | inr more ↦ rw more (append-nonempty (decimal_from fuel (n / 10)) (48 + n % 10))
]
  where
    append-nonempty : (s : Text) (c : ℕ) → nonempty (s ++ (c ∷ [])) ≡ true
    append-nonempty [] c = refl
    append-nonempty (d ∷ s) c = refl

pub decimal-cons : (n : ℕ) → (c : ℕ) × (s : Text) × (decimal n ≡ c ∷ s)
decimal-cons n = at (decimal n) refl
  where
    at : (s : Text) → decimal n ≡ s → (c : ℕ) × (r : Text) × (decimal n ≡ c ∷ r)
    at [] e =
        let shown : nonempty (decimal n) ≡ true =
          let fuel : suc n ≡ n + 1 = omega arith in
          unfold decimal in
          subst (λ k. nonempty (decimal_from k n) ≡ true) fuel (decimal_from-nonempty n n) in
        absurd (cc (rw e at shown))
    at (c ∷ s) e = (c, s, e)

pub int-decimal : (n : ℕ) → int (decimal n) ≡ some (pos n)
int-decimal n =
    let (c, s, e) = decimal-cons n in
    let same : value 0 (decimal n) ≡ n =
      unfold decimal in value-decimal_from (n + 1) n (omega arith) in
    let digits = decimal-digits n in
    rw e (int-digits c s (rw e at digits) ∙ ap (λ k. some (pos k)) (rw e at same))
