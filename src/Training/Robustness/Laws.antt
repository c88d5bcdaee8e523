-- ===== src/Training/Robustness/Laws.antt =====
-- How many records an augmentation of Training/Robustness gives, and what paired outcomes count.
use npp_ai.Prelude.{
  both, ℕ, suc, ◌+◌, ◌*◌, ◌≡◌, refl, sym, ap, inl, inr, Bool, true, false, not, ◌&&◌, Bool-cases,
  Option-cases, List, [], ◌∷◌, ◌++◌, map, length, length-append, ==_iff, if◌then◌else◌, arith,
}
use npp_ai.Text.{Text, text_eq}
use npp_ai.Python.Exceptions.{ok_inj, ok, require, value_error, >>=-eq-ok, require-eq-ok}
use npp_ai.Training.Records.{Record}
use npp_ai.Training.Robustness.{
  four_forms, prompt_variants, more_variants, training_variants, Augmented, augmented, distinct,
  some_records, augment_each, augment_training_records, Outcome, outcome_of, outcomes, Paired,
  count_pairs, same_ids, paired_outcomes,
}

-- The cases that are exact.
abbrev pub exact_cases : List Outcome → ℕ
exact_cases [] = 0
exact_cases ((id, exact) ∷ rest) = if exact then exact_cases rest + 1 else exact_cases rest

-- One case goes to one of the four.
four-sums :
    (exact exact' : Bool) (a' b' c' d' n m a b c d : ℕ)
    → (if exact && exact' then a' + 1 else a') ≡ a
    → (if exact && not exact' then b' + 1 else b') ≡ b
    → (if not exact && exact' then c' + 1 else c') ≡ c
    → (if not exact && not exact' then d' + 1 else d') ≡ d
    → a' + b' ≡ n
    → a' + b' + c' + d' ≡ m
    → (a + b ≡ (if exact then n + 1 else n)) × (a + b + c + d ≡ suc m)
four-sums true true a' b' c' d' n m a b c d p q r s x y = (omega arith, omega arith)
four-sums true false a' b' c' d' n m a b c d p q r s x y = (omega arith, omega arith)
four-sums false true a' b' c' d' n m a b c d p q r s x y = (omega arith, omega arith)
four-sums false false a' b' c' d' n m a b c d p q r s x y = (omega arith, omega arith)

count_pairs-four :
    (before after : List Outcome) (a b c d : ℕ)
    → count_pairs (λ a b. a && b) before after ≡ ok a
    → count_pairs (λ a b. a && not b) before after ≡ ok b
    → count_pairs (λ a b. not a && b) before after ≡ ok c
    → count_pairs (λ a b. not a && not b) before after ≡ ok d
    → (a + b ≡ exact_cases before) × (a + b + c + d ≡ length before)
unfolding count_pairs
count_pairs-four [] after a b c d p q r s =
    let a0 : 0 ≡ a = cc in
    let b0 : 0 ≡ b = cc in let c0 : 0 ≡ c = cc in let d0 : 0 ≡ d = cc in (omega arith, omega arith)
count_pairs-four ((id, exact) ∷ rest) after a b c d p q r s =
    elim (Option-cases (outcome_of id after)) [
      | inl missing ↦ absurd (cc (rw (count_pairs, missing) at p))
      | inr (exact', found) ↦
          let (a', p', pa) =
            >>=-eq-ok (count_pairs _ rest after) _ (rw (count_pairs, found) at p) in
          let (b', q', pb) =
            >>=-eq-ok (count_pairs _ rest after) _ (rw (count_pairs, found) at q) in
          let (c', r', pc) =
            >>=-eq-ok (count_pairs _ rest after) _ (rw (count_pairs, found) at r) in
          let (d', s', pd) =
            >>=-eq-ok (count_pairs _ rest after) _ (rw (count_pairs, found) at s) in
          let (x, y) = count_pairs-four rest after a' b' c' d' p' q' r' s' in
          four-sums exact exact' a' b' c' d' (exact_cases rest) (length rest) a b c d
            (ok_inj _ _ pa) (ok_inj _ _ pb) (ok_inj _ _ pc) (ok_inj _ _ pd) x y
    ]

outcomes-same : (cases same : List Outcome) → outcomes cases ≡ ok same → cases ≡ same
unfolding outcomes
outcomes-same cases same h = elim (Bool-cases (distinct (map (λ (c : Outcome). c.0) cases))) [
  | inl unique ↦ cc (rw (outcomes, unique) at h)
  | inr repeated ↦ absurd (cc (rw (outcomes, repeated) at h))
]

abbrev Total : List Outcome → List Outcome → Paired → Type 0
Total original changed p =
    (p.retained_exact + p.lost_exact ≡ exact_cases original)
    × (p.retained_exact + p.lost_exact + p.gained_exact + p.neither_exact ≡ length original)
    × (length original ≡ length changed)

totals :
    (original changed before after : List Outcome) (p q : Paired)
    → original ≡ before
    → changed ≡ after
    → p ≡ q
    → Total before after q
    → Total original changed p
totals original changed before after p q e f g t = rw (e, f, g) t

-- Paired outcomes that are made count every case of the first list once: those retained and lost
-- are the exact ones of it, and the four counts together are all of it, which is as long as the
-- other list.
pub paired_outcomes-total :
    (original changed : List Outcome) (p : Paired)
    → paired_outcomes original changed ≡ ok p
    → (p.retained_exact + p.lost_exact ≡ exact_cases original)
      × (p.retained_exact + p.lost_exact + p.gained_exact + p.neither_exact ≡ length original)
      × (length original ≡ length changed)
unfolding paired_outcomes same_ids
paired_outcomes-total original changed p h =
    let (before, o, h1) = >>=-eq-ok (outcomes original) _ h in
    let (after, o', h2) = >>=-eq-ok (outcomes changed) _ h1 in
    let (u, same, h3) = >>=-eq-ok (require (same_ids before after) _) _ h2 in
    let (a, pa, h4) = >>=-eq-ok (count_pairs _ before after) _ h3 in
    let (b, pb, h5) = >>=-eq-ok (count_pairs _ before after) _ h4 in
    let (c, pc, h6) = >>=-eq-ok (count_pairs _ before after) _ h5 in
    let (d, pd, made) = >>=-eq-ok (count_pairs _ before after) _ h6 in
    let (x, y) = count_pairs-four before after a b c d pa pb pc pd in
    let is_before = outcomes-same original before o in
    let is_after = outcomes-same changed after o' in
    let lengths = (both _ _ (require-eq-ok _ _ same)).0 in
    let counted : p
        ≡ record { retained_exact = a; lost_exact = b; gained_exact = c; neither_exact = d } =
      sym (ok_inj _ _ made) in
    totals original changed before after p _ is_before is_after counted
      (x, y, (==_iff (length before) (length after)).0 lengths)

length-map : {A B : Type 0} (f : A → B) (xs : List A) → length (map f xs) ≡ length xs
length-map f [] = refl
length-map f (x ∷ xs) = ap suc (length-map f xs)

augment_each-length :
    (policy : Text) (rows : List Record) (made : List Augmented) (k : ℕ)
    → ((row : Record) (variants : List (Text × Record))
        → training_variants row policy ≡ ok variants
        → length variants ≡ k)
    → augment_each policy rows ≡ ok made
    → length made ≡ length rows * k
unfolding augment_each
augment_each-length policy [] made k f h =
    let e : [] ≡ made = ok_inj _ _ h in rw (sym e) omega arith
augment_each-length policy (row ∷ rows) made k f h =
    let (variants, p, h1) = >>=-eq-ok (training_variants row policy) _ h in
    let (rest, q, h2) = >>=-eq-ok (augment_each policy rows) _ h1 in
    let n = augment_each-length policy rows rest k f q in
    let e : map (augmented row) variants ++ rest ≡ made = ok_inj _ _ h2 in
    let sum = length-append (map (augmented row) variants) rest in
    let each = length-map (augmented row) variants in
    let size = f row variants p in rw (sym e) grind arith

training_variants-length :
    (policy : Text) (row : Record) (variants : List (Text × Record))
    → training_variants row policy ≡ ok variants
    → length variants ≡ (if text_eq policy four_forms then 4 else 8)
unfolding training_variants prompt_variants more_variants
training_variants-length policy row variants h = ground arith

-- An augmentation that is made has four records for each source record under the policy of four
-- forms, and eight under the other.
pub augment_training_records-length :
    (rows : List Record) (policy : Text) (made : List Augmented)
    → augment_training_records rows policy ≡ ok made
    → length made ≡ length rows * (if text_eq policy four_forms then 4 else 8)
unfolding augment_training_records
augment_training_records-length rows policy made h =
    let (u, p, h1) =
      >>=-eq-ok
        (require (some_records rows && distinct (map (λ (row : Record). row.id) rows))
          (value_error "augmentation requires nonempty records with unique source IDs"))
        (λ _. augment_each policy rows) h in
    augment_each-length policy rows made _ (training_variants-length policy) h1
