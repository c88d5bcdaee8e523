-- ===== src/Tokenizer/Saving/Laws.antt =====
-- `load` behind `save`.
use npp_ai.Prelude.{
  ℕ, ◌≡◌, refl, sym, ap, ◌∙◌, true, not, none, List, [], ◌∷◌, ◌++◌, append_assoc, all, all-append,
  ◌==◌, arith,
}
use npp_ai.Python.Exceptions.{Result, ok, ◌>>=◌, >>=-congr, >>=_assoc, >>=-ok}
use npp_ai.Text.{Text, is_space}
use npp_ai.Text.Decimal.{decimal}
use npp_ai.Text.Words.{file_lines, split, is_digit, at_gap}
use npp_ai.Text.Words.Laws.{file_lines-line, split-word, decimal-digits, decimal-cons, int-decimal}
use npp_ai.Tokenizer.{Pair, find, put, Tokenizer}
use npp_ai.Tokenizer.Saving.{entry_line, entry_lines, token, parse_entry, relearn, load_lines}

digit-solid : (s : Text) → all is_digit s ≡ true → all (λ c. not (is_space c)) s ≡ true
unfolding is_digit is_space
digit-solid [] h = refl
digit-solid (c ∷ s) h = ground (arith, digit-solid s)

digit-line : (s : Text) → all is_digit s ≡ true → all (λ c. not (c == 10)) s ≡ true
unfolding is_digit
digit-line [] h = refl
digit-line (c ∷ s) h = ground (arith, digit-line s)

-- A number in front of white space is the first word.
split-decimal : (n : ℕ) (s : Text) → at_gap s ≡ true → split (decimal n ++ s) ≡ decimal n ∷ split s
split-decimal n s gap =
    let (c, w, e) = decimal-cons n in
    let solid = digit-solid (decimal n) (decimal-digits n) in
    rw e (split-word c w s (rw e at solid) gap)

-- An entry without its newline.
numbers : Pair × ℕ → Text
numbers (p, idx) = decimal p.0 ++ (32 ∷ (decimal p.1 ++ (32 ∷ decimal idx)))

split-numbers :
    (p : Pair) (idx : ℕ)
    → split (numbers (p, idx) ++ (10 ∷ [])) ≡ decimal p.0 ∷ (decimal p.1 ∷ (decimal idx ∷ []))
unfolding numbers at_gap is_space split
split-numbers p idx =
    rw (append_assoc, append_assoc)
      (split-decimal p.0 (32 ∷ (decimal p.1 ++ (32 ∷ (decimal idx ++ (10 ∷ []))))) refl
        ∙ ap (λ l. decimal p.0 ∷ l)
            (split-decimal p.1 (32 ∷ (decimal idx ++ (10 ∷ []))) refl
              ∙ ap (λ l. decimal p.1 ∷ l) (split-decimal idx (10 ∷ []) refl)))

parse_entry-numbers :
    (p : Pair) (idx : ℕ) → parse_entry (split (numbers (p, idx) ++ (10 ∷ []))) ≡ ok (p, idx)
unfolding token parse_entry
parse_entry-numbers p idx =
    rw (split-numbers p idx, int-decimal p.0, int-decimal p.1, int-decimal idx)

numbers-line : (entry : Pair × ℕ) → all (λ c. not (c == 10)) (numbers entry) ≡ true
unfolding numbers
numbers-line (p, idx) =
    let line0 = digit-line (decimal p.0) (decimal-digits p.0) in
    let line1 = digit-line (decimal p.1) (decimal-digits p.1) in
    let line2 = digit-line (decimal idx) (decimal-digits idx) in
    rw (all-append (λ c. not (c == 10)), line0, all-append (λ c. not (c == 10)), line1, line2)

file_lines-entry :
    (entry : Pair × ℕ) (s : Text)
    → file_lines (entry_line entry ++ s) ≡ (numbers entry ++ (10 ∷ [])) ∷ file_lines s
file_lines-entry entry s =
    let flat : entry_line entry ++ s ≡ numbers entry ++ (10 ∷ s) =
      unfold entry_line numbers in simp append_assoc in
    rw flat (file_lines-line (numbers entry) s (numbers-line entry))

-- Learning the entries again, one by one.
unfoldable pub relearn_all : Tokenizer → List (Pair × ℕ) → Result Tokenizer
unfolding relearn
relearn_all tok [] = ok tok
relearn_all tok (entry ∷ merges) = relearn tok entry >>= λ tok'. relearn_all tok' merges

pub load_lines-entry_lines :
    (merges : List (Pair × ℕ)) (tok : Tokenizer)
    → load_lines tok (file_lines (entry_lines merges)) ≡ relearn_all tok merges
unfolding entry_lines load_lines relearn_all file_lines
load_lines-entry_lines [] tok = refl
load_lines-entry_lines ((p, idx) ∷ merges) tok =
    rw (file_lines-entry (p, idx), parse_entry-numbers p idx)
      (>>=-congr (relearn tok (p, idx)) _ _ (λ tok'. load_lines-entry_lines merges tok'))

pub relearn_all-append :
    (tok : Tokenizer) (merges : List (Pair × ℕ)) (entry : Pair × ℕ)
    → relearn_all tok (merges ++ (entry ∷ []))
      ≡ (relearn_all tok merges >>= λ tok'. relearn tok' entry)
unfolding relearn_all
relearn_all-append tok [] entry = >>=-ok (relearn tok entry)
relearn_all-append tok (e ∷ merges) entry =
    >>=-congr (relearn tok e) _ _ (λ tok'. relearn_all-append tok' merges entry)
    ∙ sym (>>=_assoc (relearn tok e) _ _)

pub put_absent :
    (p : Pair) (n : ℕ) (d : List (Pair × ℕ)) → find p d ≡ none → put p n d ≡ d ++ ((p, n) ∷ [])
unfolding find put
put_absent p n [] h = refl
put_absent p n ((q, m) ∷ d) h = ground (arith, put_absent p n d)
