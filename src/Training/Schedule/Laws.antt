-- ===== src/Training/Schedule/Laws.antt =====
-- What the batches of Training/Schedule draw.
use npp_ai.Prelude.{
  ℕ, zero, suc, ◌+◌, ◌*◌, ◌≤◌, ◌≡◌, refl, ap, subst, ◌∙◌, true, not, ◌&&◌, ◌||◌, if_intro, List, [],
  ◌∷◌, ◌++◌, map, length, length-append, any, ◌==◌, ==_iff, Each, arith,
}
use npp_ai.Text.{Text, Bytes, text_eq}
use npp_ai.Text.Laws.{text_eq_refl}
use npp_ai.Python.Exceptions.{ok, require, >>=-eq-ok, require-eq-ok}
use npp_ai.Training.Records.{Record, Lexer, rename}
use npp_ai.Training.Schedule.{
  Pool, original, renamed, Batch, Random, Encoder, fixed_policy, resampled_policy, rename_all,
  batch, batches, schedule, Tally, no_tally, add_name, add_draw, add_draws, add_batch, tally,
  Evidence, schedule_evidence,
}

abbrev pub one_if : Pool → Pool → ℕ
one_if original original = 1
one_if original renamed = 0
one_if renamed original = 0
one_if renamed renamed = 1

abbrev pub number : Pool → Batch → ℕ
number pool [] = 0
number pool ((pool', row) ∷ rest) = one_if pool pool' + number pool rest

number-append : (pool : Pool) (a b : Batch) → number pool (a ++ b) ≡ number pool a + number pool b
number-append pool [] b = omega arith
number-append pool ((pool', row) ∷ a) b = omega (arith, number-append pool a b)

number-originals :
    (rows : List Record)
    → (number original (map (λ row. (original, row)) rows) ≡ length rows)
      × (number renamed (map (λ row. (original, row)) rows) ≡ 0)
number-originals [] = (refl, refl)
number-originals (row ∷ rows) = let h = number-originals rows in (omega arith, omega arith)

-- What `sample` and `shuffle` are documented to give: as many as were asked for, and the same draws
-- in an order.
pub record IsRandom (random : Random) : Type 0 where
  pub sampled :
      (rows : List Record) (k : ℕ) (state state' : random.State) (xs : List Record)
      → random.sample rows k state ≡ ok (xs, state')
      → length xs ≡ k
  pub shuffled :
      (pool : Pool) (draws : Batch) (state : random.State)
      → number pool (random.shuffle draws state).0 ≡ number pool draws

module _ (sha256 : Bytes → Bytes) (lexer : Lexer) (policy : Text) where
  rename_all-number :
      (step slot : ℕ) (rows : List Record) (changed : Batch)
      → rename_all sha256 lexer policy step slot rows ≡ ok changed
      → (number original changed ≡ 0) × (number renamed changed ≡ length rows)
  unfolding rename_all
  rename_all-number step slot [] changed h =
      subst (λ c. (number original c ≡ 0) × (number renamed c ≡ 0)) {x = []} {y = changed} (cc)
        (refl, refl)
  rename_all-number step slot (row ∷ rows) changed h =
      let (r, p, h1) = >>=-eq-ok (rename lexer row _) _ h in
      let (rest, q, h2) = >>=-eq-ok (rename_all sha256 lexer policy step (slot + 1) rows) _ h1 in
      let (a, b) = rename_all-number step (slot + 1) rows rest q in
      subst (λ c. (number original c ≡ 0) × (number renamed c ≡ suc (length rows)))
        {x = (renamed, r) ∷ rest} {y = changed} (cc) (omega arith, omega arith)

  module _ (random : Random) (fair : IsRandom random) (rows : List Record) where
    -- Two draws of each pool.
    abbrev pub TwoEach : Batch → Type 0
    TwoEach draws = (number original draws ≡ 2) × (number renamed draws ≡ 2)

    batch-TwoEach :
        (step : ℕ) (state state' : random.State) (draws : Batch)
        → batch sha256 lexer policy random rows step state ≡ ok (draws, state')
        → TwoEach draws
    unfolding batch
    batch-TwoEach step state state' draws h =
        let ((first, s1), p, h1) = >>=-eq-ok (random.sample rows 2 state) _ h in
        let ((second, s2), q, h2) = >>=-eq-ok (random.sample rows 2 s1) _ h1 in
        let (changed, r, h3) = >>=-eq-ok (rename_all sha256 lexer policy step 0 second) _ h2 in
        let two = fair.sampled rows 2 state s1 first p in
        let two' = fair.sampled rows 2 s1 s2 second q in
        let (a, b) = rename_all-number step 0 second changed r in
        let (c, d) = number-originals first in
        let drawn = map (λ row. (original, row)) first ++ changed in
        let shuffled : random.shuffle drawn s2 ≡ (draws, state') = cc in
        let sum = number-append original (map (λ row. (original, row)) first) changed in
        let sum' = number-append renamed (map (λ row. (original, row)) first) changed in
        let count = fair.shuffled original drawn s2 in
        let count' = fair.shuffled renamed drawn s2 in
        subst (λ (o : Batch × random.State). TwoEach o.0) shuffled (omega arith, omega arith)

    pub batches-TwoEach :
        (rounds step : ℕ) (state : random.State) (all_draws : List Batch)
        → batches sha256 lexer policy random rows rounds step state ≡ ok all_draws
        → (length all_draws ≡ rounds) × Each TwoEach all_draws
    unfolding batches
    batches-TwoEach zero step state all_draws h =
        subst (λ l. (length l ≡ 0) × Each TwoEach l) {x = []} {y = all_draws} (cc) (refl, tt)
    batches-TwoEach (suc rounds) step state all_draws h =
        let ((draws, state'), p, h1) =
          >>=-eq-ok (batch sha256 lexer policy random rows step state) _ h in
        let (rest, q, h2) =
          >>=-eq-ok (batches sha256 lexer policy random rows rounds (step + 1) state') _ h1 in
        let (n, each) = batches-TwoEach rounds (step + 1) state' rest q in
        subst (λ l. (length l ≡ suc rounds) × Each TwoEach l) {x = draws ∷ rest} {y = all_draws}
          (cc) (omega arith, (batch-TwoEach step state state' draws p, each))

-- What a tally counts over draws.
add_name-length :
    (name : Text) (names : List Text) → length (add_name name names) ≤ length names + 1
unfolding add_name
add_name-length name names =
    if_intro (λ (l : List Text). length l ≤ length names + 1) (any (text_eq name) names)
      (λ _. omega arith) (λ _. omega (arith, length-append names (name ∷ [])))

-- The draws of a tally grow by those of some draws; the names by no more than the renamed ones.
abbrev Grown : Tally → Tally → ℕ → ℕ → Type 0
Grown t t' a b =
    (t'.originals ≡ t.originals + a)
    × (t'.renameds ≡ t.renameds + b)
    × (length t'.names ≤ length t.names + b)

add_draws-Grown :
    (t : Tally) (draws : Batch)
    → Grown t (add_draws t draws) (number original draws) (number renamed draws)
unfolding add_draws add_draw
add_draws-Grown t [] = (omega arith, omega arith, omega arith)
add_draws-Grown t ((original, row) ∷ rest) =
    let (a, b, c) = add_draws-Grown (add_draw t (original, row)) rest in
    (omega arith, omega arith, omega arith)
add_draws-Grown t ((renamed, row) ∷ rest) =
    let (a, b, c) = add_draws-Grown (add_draw t (renamed, row)) rest in
    let few = add_name-length row.function t.names in (omega arith, omega arith, omega arith)

tally-Grown :
    (encoder : Encoder) (t : Tally) (all_draws : List Batch)
    → Each (λ draws. (number original draws ≡ 2) × (number renamed draws ≡ 2)) all_draws
    → Grown t (tally encoder t all_draws) (2 * length all_draws) (2 * length all_draws)
unfolding tally add_batch
tally-Grown encoder t [] each = (omega arith, omega arith, omega arith)
tally-Grown encoder t (draws ∷ rest) ((two, two'), each) =
    let (a, b, c) = tally-Grown encoder (add_batch encoder t draws) rest each in
    let (d, e, f) =
      add_draws-Grown
        (record t {
          order =
              t.order ++ encoder.order (map (λ (draw : Pool × Record). (draw.0, draw.1.id)) draws);
          content = t.content ++ encoder.content draws;
        })
        draws in
    (omega arith, omega arith, omega arith)

distinct_names :
    (policy : Text) (n m : ℕ)
    → not (text_eq policy resampled_policy && not (n == m)) ≡ true
    → policy ≡ resampled_policy
    → n ≡ m
distinct_names policy n m h same =
    let hit : text_eq policy resampled_policy ≡ true =
      ap (λ p. text_eq p resampled_policy) same ∙ text_eq_refl resampled_policy in
    let tested : (n == m) ≡ true = ground arith in (==_iff n m).0 tested

-- With a generator that samples and shuffles as documented, the evidence of a schedule counts two
-- original and two renamed draws for each step, no more aliases than renamed draws, and for the
-- resampled policy as many.
pub schedule_evidence-draws :
    (sha256 : Bytes → Bytes) (lexer : Lexer) (policy : Text) (random : Random) (encoder : Encoder)
    → (rows : List Record) (steps : ℕ) (e : Evidence) → IsRandom random
    → schedule_evidence sha256 lexer policy random encoder rows steps ≡ ok e
    → (e.originals ≡ 2 * steps)
      × (e.renameds ≡ 2 * steps)
      × (e.unique_aliases ≤ 2 * steps)
      × (policy ≡ resampled_policy → e.unique_aliases ≡ 2 * steps)
unfolding schedule_evidence schedule
schedule_evidence-draws sha256 lexer policy random encoder rows steps e fair h =
    let (selected, p, h1) = >>=-eq-ok (schedule sha256 lexer policy random rows steps) _ h in
    let (u, known, drawn) =
      >>=-eq-ok (require (text_eq policy fixed_policy || text_eq policy resampled_policy) _) _ p in
    let t = tally encoder no_tally selected in
    let (u', distinct, made) =
      >>=-eq-ok
        (require (not (text_eq policy resampled_policy && not (length t.names == steps * 2))) _) _
        h1 in
    let (n, each) =
      batches-TwoEach sha256 lexer policy random fair rows steps 0 random.seeded selected drawn in
    let (a, b, c) = tally-Grown encoder no_tally selected each in
    let originals : t.originals ≡ e.originals = cc in
    let renameds : t.renameds ≡ e.renameds = cc in
    let names : length t.names ≡ e.unique_aliases = cc in
    (
      omega arith,
      omega arith,
      omega arith,
      λ is_resampled.
          (let all_names =
              distinct_names policy (length t.names) (steps * 2) (require-eq-ok _ _ distinct)
                is_resampled in
            omega arith),
    )
