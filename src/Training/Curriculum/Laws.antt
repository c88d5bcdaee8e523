-- ===== src/Training/Curriculum/Laws.antt =====
-- The supervision of Training/Curriculum against the alignment that it reads.
use npp_ai.Prelude.{
  ℕ, zero, suc, ◌+◌, ◌-◌, ◌≤◌, ◌<◌, ◌≡◌, refl, sym, ap, subst, ◌∙◌, Bool, true, false, ◌&&◌, none,
  some, List, [], ◌∷◌, ◌++◌, map, length, take, replicate, length-append, ltb, ltb→lt, lt→ltb, ◌==◌,
  ==_iff, Each, Each-map, arith,
}
use npp_ai.Text.{Bytes, codes, starts_with}
use npp_ai.Text.Utf8.{encode}
use npp_ai.Python.Exceptions.{ok_inj, ok, value_error, require, >>=-eq-ok, require-eq-ok}
use npp_ai.Training.Records.{Record, frame}
use npp_ai.Training.Copy.{item, only_match, matches_from, pairs_from, check_pairs, alignment}
use npp_ai.Training.Transition.{at}
use npp_ai.Training.Curriculum.{
  without_last, without_first, masked, Sample, sample, longest, padded, samples, inputs, same_entry,
  CopyPoint, supervise_pairs, supervision,
}
use npp_ai.Training.Curriculum.Entries.{
  item-at, at-length, at-extend, at-without_last, at-without_first, at-map, at-masked,
  length-without_last,
}

-- A pair that the alignment has compared in a frame.
abbrev IsCopy : Bytes → ℕ → ℕ × ℕ → Type 0
IsCopy raw low (query, source) =
    (source < query)
    × (low ≤ query)
    × ((a : ℕ) × (at raw source ≡ some a) × (at raw (suc query) ≡ some a))

check_pairs-IsCopy :
    (raw : Bytes) (low query source n : ℕ) (u : Unit {0})
    → low ≤ query
    → check_pairs raw (pairs_from query source n) ≡ ok u
    → Each (IsCopy raw low) (pairs_from query source n)
unfolding check_pairs pairs_from
check_pairs-IsCopy raw low query source zero u h c = tt
check_pairs-IsCopy raw low query source (suc n) u h c =
    let (u1, p1, c1) =
      >>=-eq-ok (require (ltb source query) (value_error "source/target byte alignment differs")) _
        c in
    let (a, p2, c2) = >>=-eq-ok (item raw source) _ c1 in
    let (b, p3, c3) = >>=-eq-ok (item raw (query + 1)) _ c2 in
    let (u2, p4, c4) =
      >>=-eq-ok (require (a == b) (value_error "source/target byte alignment differs")) _ c3 in
    let less = ltb→lt source query (require-eq-ok _ _ p1) in
    let next : query + 1 ≡ suc query = omega arith in
    let same : b ≡ a = sym ((==_iff a b).0 (require-eq-ok _ _ p4)) in
    let there : at raw (suc query) ≡ some a =
      ap (at raw) (sym next) ∙ (item-at raw (query + 1) b p3 ∙ ap some same) in
    (
      (less, h, (a, item-at raw source a p2, there)),
      check_pairs-IsCopy raw low (query + 1) (source + 1) n u (omega arith) c4,
    )

moved :
    (p p' : Bytes × Bytes) (pairs pairs' : List (ℕ × ℕ))
    → p ≡ p'
    → pairs ≡ pairs'
    → Each (IsCopy p.1 (length p.0 - 1)) pairs
    → Each (IsCopy p'.1 (length p'.0 - 1)) pairs'
moved p p' pairs pairs' e f h = rw (sym e, sym f) h

alignment-IsCopy :
    (is_word : ℕ → Bool) (row : Record) (pairs : List (ℕ × ℕ)) (prefix raw : Bytes)
    → frame row ≡ ok (prefix, raw)
    → alignment is_word row ≡ ok pairs
    → Each (IsCopy raw (length prefix - 1)) pairs
unfolding alignment
alignment-IsCopy is_word row pairs prefix raw f h =
    let ((prefix', raw'), f', h1) = >>=-eq-ok (frame row) _ h in
    let name = row.function in
    let (start, m, h2) =
      >>=-eq-ok (only_match (matches_from is_word 0 false 0 name row.prompt)) _ h1 in
    let (u, p, h3) =
      >>=-eq-ok
        (require (starts_with row.answer (codes "def " ++ (name ++ codes "(")))
          (value_error "requires one explicit matching function signature"))
        _ h2 in
    let query = (length prefix' - 1) + 4 in
    let source = 8 + length (encode (take start row.prompt)) in
    let (u', checked, made) =
      >>=-eq-ok (check_pairs raw' (pairs_from query source (length (encode name)))) _ h3 in
    moved (prefix', raw') (prefix, raw) _ pairs (ok_inj _ _ (sym f' ∙ f)) (ok_inj _ _ made)
      (check_pairs-IsCopy raw' (length prefix' - 1) query source (length (encode name)) u'
        (omega arith) checked)

-- The check of one pair.
abbrev Good : Sample → ℕ × ℕ → Type 0
Good s (query, source) =
    (ltb source query && ltb query (length s.0) && same_entry (at s.0 source) (at s.1 query)) ≡ true

abbrev pub tagged : ℕ → List (ℕ × ℕ) → List CopyPoint
tagged batch [] = []
tagged batch ((query, source) ∷ pairs) = (batch, query, source) ∷ tagged batch pairs

supervise_pairs-Good :
    (batch : ℕ) (s : Sample) (pairs : List (ℕ × ℕ))
    → Each (Good s) pairs
    → supervise_pairs batch s pairs ≡ ok (tagged batch pairs)
unfolding supervise_pairs
supervise_pairs-Good batch s [] good = refl
supervise_pairs-Good batch s ((query, source) ∷ pairs) (g, good) =
    rw (g, supervise_pairs-Good batch s pairs good) refl

IsCopy-Good :
    (raw : Bytes) (low n : ℕ) (pair : ℕ × ℕ)
    → IsCopy raw low pair
    → Good (padded n (without_last raw, masked low (map some (without_first raw)))) pair
unfolding padded same_entry
IsCopy-Good raw low n (query, source) (less, over, (a, here, there)) =
    let x = without_last raw in
    let y = masked low (map some (without_first raw)) in
    let room = at-length raw (suc query) a there in
    let width = length-without_last raw in
    let long = length-append x (replicate (n - length x) 0) in
    let seen : at (x ++ replicate (n - length x) 0) source ≡ some a =
      at-extend x (replicate (n - length x) 0) source a
        (at-without_last raw source a here (omega arith)) in
    let label : at y query ≡ some (some a) =
      at-masked low (map some (without_first raw)) query over
      ∙ at-map (without_first raw) query a (at-without_first raw query a there) in
    let labelled : at (y ++ replicate (n - length y) none) query ≡ some (some a) =
      at-extend y (replicate (n - length y) none) query (some a) label in
    let before = lt→ltb source query less in
    let inside : ltb query (length (x ++ replicate (n - length x) 0)) ≡ true =
      lt→ltb query _ (omega arith) in
    let same : (a == a) ≡ true = ground arith in rw (before, inside, seen, labelled, same) refl

sample-Good :
    (is_word : ℕ → Bool) (row : Record) (pairs : List (ℕ × ℕ)) (s : Sample) (n : ℕ)
    → sample row ≡ ok s
    → alignment is_word row ≡ ok pairs
    → Each (Good (padded n s)) pairs
unfolding sample
sample-Good is_word row pairs s n h a =
    let ((prefix, raw), f, made) = >>=-eq-ok (frame row) _ h in
    let low = length prefix - 1 in
    subst (λ (s : Sample). Each (Good (padded n s)) pairs) (ok_inj _ s made)
      (Each-map (IsCopy raw low)
        (Good (padded n (without_last raw, masked low (map some (without_first raw)))))
        (IsCopy-Good raw low n) pairs (alignment-IsCopy is_word row pairs prefix raw f a))

-- The alignments of the records.
abbrev pub Aligned : (ℕ → Bool) → List Record → List (List (ℕ × ℕ)) → Type 0
Aligned is_word [] [] = Unit {0}
Aligned is_word [] (pairs ∷ aligned) = ⊥
Aligned is_word (row ∷ records) [] = ⊥
Aligned is_word (row ∷ records) (pairs ∷ aligned) =
    (alignment is_word row ≡ ok pairs) × Aligned is_word records aligned

abbrev pub points_of : ℕ → List (List (ℕ × ℕ)) → List CopyPoint
points_of batch [] = []
points_of batch (pairs ∷ aligned) = tagged batch pairs ++ points_of (batch + 1) aligned

supervision-padded :
    (is_word : ℕ → Bool) (batch n : ℕ) (records : List Record) (aligned : List (List (ℕ × ℕ)))
    (rows : List Sample)
    → samples records ≡ ok rows
    → Aligned is_word records aligned
    → supervision is_word batch records (map (padded n) rows) ≡ ok (points_of batch aligned)
unfolding samples supervision
supervision-padded is_word batch n [] [] rows h a = refl
supervision-padded is_word batch n [] (pairs ∷ aligned) rows h a = absurd a
supervision-padded is_word batch n (row ∷ records) [] rows h a = absurd a
supervision-padded is_word batch n (row ∷ records) (pairs ∷ aligned) rows h (p, a) =
    let (s, sampled, h1) = >>=-eq-ok (sample row) _ h in
    let (rest, others, made) = >>=-eq-ok (samples records) _ h1 in
    let here =
      supervise_pairs-Good batch (padded n s) pairs (sample-Good is_word row pairs s n sampled p) in
    let later = supervision-padded is_word (batch + 1) n records aligned rest others a in
    subst
      (λ rows.
        supervision is_word batch (row ∷ records) (map (padded n) rows)
        ≡ ok (points_of batch (pairs ∷ aligned)))
      (ok_inj _ rows made) (rw (p, here, later) refl)

-- For records that have frames and alignments, the supervision of their padded inputs refuses
-- nothing: each pair is causal, inside the inputs, and its two bytes agree. Its points are the pairs
-- of the alignments, with the place of each record.
pub supervision-accepts :
    (is_word : ℕ → Bool) (records : List Record) (aligned : List (List (ℕ × ℕ)))
    (rows : List Sample)
    → inputs records ≡ ok rows
    → Aligned is_word records aligned
    → supervision is_word 0 records rows ≡ ok (points_of 0 aligned)
unfolding inputs
supervision-accepts is_word records aligned rows h a =
    let (all_samples, made, same) = >>=-eq-ok (samples records) _ h in
    subst (λ rows. supervision is_word 0 records rows ≡ ok (points_of 0 aligned))
      (ok_inj _ rows same)
      (supervision-padded is_word 0 (longest all_samples) records aligned all_samples made a)
