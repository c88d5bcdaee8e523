-- ===== src/Tests/Diagnosis.antt =====
-- A network that writes "f(" after "def ", and its scaffolded name, audited.
use npp_ai.Prelude.{
  ℕ, zero, suc, ◌+◌, ◌-◌, ◌*◌, ◌<◌, ◌≡◌, refl, ap, Bool, true, false, ◌||◌, Bool-cases, inl, inr,
  some, List, [], ◌∷◌, ◌++◌, length, replicate, length-replicate, all, leb, ◌==◌, if◌then◌else◌,
  arith,
}
use npp_ai.Text.{codes}
use npp_ai.Text.Utf8.{encode, decode, is_text}
use npp_ai.Python.Exceptions.{ok}
use npp_ai.Training.Records.{Record}
use npp_ai.Training.Transition.{at, Plan, plan, Readout, Parts, entry}
use npp_ai.Training.Replay.{Scaffold, scaffolded, Full, full_generate}
use npp_ai.Training.Diagnosis.{Measures, audit_scaffolded, audit_full}
use npp_ai.Training.Diagnosis.Laws.{IsSound}
use npp_ai.Training.Diagnosis.Returns.{full_generate-audited}
use npp_ai.Training.Diagnosis.Names.{scaffolded-audited}
use npp_ai.Tests.Replay.{nth, word_char, row_n}

-- The first index of a value above 0, if there is one.
abbrev first_positive : List ℕ → ℕ
first_positive [] = 0
first_positive (x ∷ xs) =
    let rest = first_positive xs in if leb 1 x || all (λ y. y == 0) xs then 0 else suc rest

first_positive-below : (xs : List ℕ) → 0 < length xs → first_positive xs < length xs
first_positive-below [] h = absurd (omega arith)
first_positive-below (x ∷ []) h = ground arith
first_positive-below (x ∷ y ∷ xs) h =
    let rest = first_positive-below (y ∷ xs) (omega arith) in
    elim (Bool-cases (leb 1 x || all (λ y. y == 0) (y ∷ xs))) [
      | inl here ↦ rw here (omega arith)
      | inr later ↦ rw later (omega (arith, rest))
    ]

abbrev unit_readout : Readout
unit_readout = record { Float = ℕ; zero_float = 0; floored_log = λ x. x; argmax = first_positive }

abbrev unit_measures : Measures unit_readout
unit_measures = record {
  is_probability = λ v. leb v 1;
  is_positive = λ v. leb 1 v;
  mixture = λ g v p. (1 - g) * v + g * p;
  is_close = λ a b. a == b;
}

abbrev one_hot : ℕ → ℕ → ℕ → List ℕ
one_hot i zero t = []
one_hot i (suc n) t = (if i == t then 1 else 0) ∷ one_hot (i + 1) n t

length-one_hot : (i n t : ℕ) → length (one_hot i n t) ≡ n
length-one_hot i zero t = refl
length-one_hot i (suc n) t = ap suc (length-one_hot (i + 1) n t)

entry-one_hot : (i n t k : ℕ) → leb (entry unit_readout (one_hot i n t) k) 1 ≡ true
unfolding entry
entry-one_hot i zero t k = refl
entry-one_hot i (suc n) t zero = ground arith
entry-one_hot i (suc n) t (suc k) = entry-one_hot (i + 1) n t k

entry-zeros : (n k : ℕ) → entry unit_readout (replicate n 0) k ≡ 0
unfolding entry
entry-zeros zero k = refl
entry-zeros (suc n) zero = refl
entry-zeros (suc n) (suc k) = entry-zeros n k

-- All attention that the marks allow.
abbrev on_all : List ℕ → List Bool → List ℕ
on_all [] marks = []
on_all (x ∷ xs) [] = 0 ∷ on_all xs []
on_all (x ∷ xs) (true ∷ marks) = 1 ∷ on_all xs marks
on_all (x ∷ xs) (false ∷ marks) = 0 ∷ on_all xs marks

length-on_all : (xs : List ℕ) (marks : List Bool) → length (on_all xs marks) ≡ length xs
length-on_all [] marks = refl
length-on_all (x ∷ xs) [] = ap suc (length-on_all xs [])
length-on_all (x ∷ xs) (true ∷ marks) = ap suc (length-on_all xs marks)
length-on_all (x ∷ xs) (false ∷ marks) = ap suc (length-on_all xs marks)

entry-on_all :
    (xs : List ℕ) (marks : List Bool) (i : ℕ)
    → leb (entry unit_readout (on_all xs marks) i) 1 ≡ true
unfolding entry
entry-on_all [] marks i = refl
entry-on_all (x ∷ xs) [] zero = refl
entry-on_all (x ∷ xs) [] (suc i) = entry-on_all xs [] i
entry-on_all (x ∷ xs) (true ∷ marks) zero = refl
entry-on_all (x ∷ xs) (true ∷ marks) (suc i) = entry-on_all xs marks i
entry-on_all (x ∷ xs) (false ∷ marks) zero = refl
entry-on_all (x ∷ xs) (false ∷ marks) (suc i) = entry-on_all xs marks i

on_all-marked :
    (xs : List ℕ) (marks : List Bool) (i : ℕ)
    → leb 1 (entry unit_readout (on_all xs marks) i) ≡ true
    → at marks i ≡ some true
unfolding entry at
on_all-marked [] marks i h = absurd (cc h)
on_all-marked (x ∷ xs) [] zero h = absurd (cc h)
on_all-marked (x ∷ xs) [] (suc i) h = on_all-marked xs [] i h
on_all-marked (x ∷ xs) (true ∷ marks) zero h = refl
on_all-marked (x ∷ xs) (true ∷ marks) (suc i) h = on_all-marked xs marks i h
on_all-marked (x ∷ xs) (false ∷ marks) zero h = absurd (cc h)
on_all-marked (x ∷ xs) (false ∷ marks) (suc i) h = on_all-marked xs marks i h

abbrev writes_name : List ℕ → List Bool → Parts unit_readout
writes_name tokens marks =
    let token = nth (codes "f(") (length tokens - 22) in
    record {
      vocab = one_hot 0 256 token;
      copy = replicate 256 0;
      gate = 0;
      attention = on_all tokens marks;
      mixed = one_hot 0 256 token;
    }

writes_name-IsSound : IsSound unit_readout unit_measures writes_name
writes_name-IsSound = record {
  largest = first_positive-below;
  zero_unit = refl;
  vocab_size = λ x marks. length-one_hot 0 256 (nth (codes "f(") (length x - 22));
  copy_size = λ x marks. length-replicate {A = ℕ} 256 0;
  mixed_size = λ x marks. length-one_hot 0 256 (nth (codes "f(") (length x - 22));
  attention_size = length-on_all;
  gate_unit = λ x marks. refl;
  vocab_unit = λ x marks i. entry-one_hot 0 256 _ i;
  copy_unit = λ x marks i. ap (λ v. leb v 1) (entry-zeros 256 i);
  mixed_unit = λ x marks i. entry-one_hot 0 256 _ i;
  attention_unit = entry-on_all;
  mixes = λ x marks i. ground arith;
  on_marks = on_all-marked;
}

abbrev plan_f : Plan
plan_f = record {
  prefix = codes "[USER]: f()" ++ (10 ∷ codes "[AI]:" ++ (10 ∷ []));
  target = codes "f(";
  sources = 8 ∷ 9 ∷ [];
  start = 8;
}

planned_f : plan word_char row_n ≡ ok plan_f
unfolding plan npp_ai.Training.Transition.skip_blanks npp_ai.Training.Transition.is_blank_byte
    npp_ai.Training.Transition.first_source npp_ai.Training.Transition.sources_of
    npp_ai.Training.Copy.alignment npp_ai.Training.Copy.matches_from npp_ai.Training.Copy.opens
    npp_ai.Training.Copy.only_match npp_ai.Training.Copy.pairs_from npp_ai.Training.Copy.check_pairs
    npp_ai.Training.Copy.item npp_ai.Training.Records.frame npp_ai.Training.Records.framed encode
    npp_ai.Text.Utf8.encode_char npp_ai.Text.starts_with
planned_f = refl

scaffolded-audited_example :
    (free : Scaffold unit_readout) × (scaffolded unit_readout word_char 256 writes_name row_n
      ≡ ok free)
    × (audit_scaffolded unit_readout unit_measures plan_f row_n free ≡ ok tt)
scaffolded-audited_example =
    scaffolded-audited unit_readout unit_measures word_char 256 writes_name row_n plan_f
      writes_name-IsSound (omega arith) planned_f
      (unfold is_text npp_ai.Text.Utf8.is_scalar in refl) refl

line_f : npp_ai.Training.Transition.index_from 0 (encode row_n.answer) ≡ ok 8
unfolding npp_ai.Training.Transition.index_from encode npp_ai.Text.Utf8.encode_char
line_f = refl

full_generate-audited_example :
    (full : Full unit_readout) × (full_generate unit_readout word_char 256 writes_name row_n
      ≡ ok full)
    × (audit_full unit_readout unit_measures plan_f row_n full.bytes full.finish
          (decode full.bytes)
          full.difference
          (decode full.bytes)
          true
          true
        ≡ ok tt)
full_generate-audited_example =
    full_generate-audited unit_readout unit_measures word_char 256 writes_name row_n plan_f 8
      writes_name-IsSound (omega arith) planned_f line_f
      (unfold is_text npp_ai.Text.Utf8.is_scalar in refl) refl
