-- ===== src/Server/Knowledge/Laws.antt =====
-- What is kept of the samples, and when training is scheduled.
use npp_ai.Prelude.{
  ℕ, ◌+◌, ◌*◌, ◌/◌, ◌%◌, ◌<◌, ◌≤◌, ◌≡◌, refl, sym, ◌∙◌, ap, Bool-cases, ◌⊎◌, inl, inr, List, [],
  ◌∷◌, ◌++◌, append-nil, append_assoc, length, take, ltb, leb, arith,
}
use npp_ai.Text.{Bytes}
use npp_ai.Text.Utf8.{encode}
use npp_ai.Python.Exceptions.{Result, ok, err, http_exception, os_error}
use npp_ai.Server.BodyLimit.Laws.{join}
use npp_ai.Server.Knowledge.{
  training_threshold, max_dataset_entry_bytes, Sample, Store, entry_of, Write, no_directory, broken,
  whole, submit_knowledge,
}

-- A request in a run: the sample, and what the file system does with it.
abbrev pub Request : Type 0
Request = Sample × Write

abbrev pub Answer : Type 0
Answer = Result (Unit {0})

-- The answers to the requests, in order, and the store behind the last.
unfoldable pub serve : List Request → Store → List Answer × Store
serve [] store = ([], store)
serve ((sample, write) ∷ rest) store =
    let (answer, store') = submit_knowledge write sample store in
    let (answers, final) = serve rest store' in (answer ∷ answers, final)

-- The answers that are a success.
unfoldable pub successes : List Answer → ℕ
successes [] = 0
successes (ok _ ∷ answers) = 1 + successes answers
successes (err _ ∷ answers) = successes answers

-- What a request adds to the dataset, by its answer: a success adds its whole entry, a refusal for
-- its size or for the directory nothing, and a failed write the first bytes of its entry.
pub Adds : Request → Answer → Bytes → Type 0
Adds (sample, write) (ok _) added =
    (length (encode (entry_of sample)) ≤ max_dataset_entry_bytes)
    × (write ≡ whole)
    × (added ≡ encode (entry_of sample))
Adds (sample, write) (err e) added =
    ((e ≡ http_exception 413 "Training sample too large")
      × (max_dataset_entry_bytes < length (encode (entry_of sample)))
      × (added ≡ []))
    ⊎ ((e ≡ os_error "cannot make the directory") × (write ≡ no_directory) × (added ≡ []))
    ⊎ ((e ≡ http_exception 500 "Unable to persist training sample")
        × ((n : ℕ) × (write ≡ broken n) × (added ≡ take n (encode (entry_of sample)))))

abbrev pub AllAdd : List Request → List Answer → List Bytes → Type 0
AllAdd [] [] [] = Unit
AllAdd (r ∷ requests) (a ∷ answers) (p ∷ parts) = Adds r a p × AllAdd requests answers parts
AllAdd _ _ _ = ⊥

-- One request: what it adds, and what it does to the counter.
record Submitted (r : Request) (store : Store) : Type 0 where
  added : Bytes
  adds : Adds r (submit_knowledge r.1 r.0 store).0 added
  dataset : (submit_knowledge r.1 r.0 store).1.dataset ≡ store.dataset ++ added
  low :
      store.new_samples_count < training_threshold
      → (submit_knowledge r.1 r.0 store).1.new_samples_count < training_threshold
  counts :
      store.new_samples_count < training_threshold
      → (submit_knowledge r.1 r.0 store).1.scheduled * 5
          + (submit_knowledge r.1 r.0 store).1.new_samples_count
        ≡ store.scheduled * 5
          + store.new_samples_count
          + successes ((submit_knowledge r.1 r.0 store).0 ∷ [])

submit_knowledge-Submitted : (r : Request) (store : Store) → Submitted r store
unfolding submit_knowledge Adds successes
submit_knowledge-Submitted (sample, no_directory) store = record {
  added = [];
  adds = inr (inl (refl, refl, refl));
  dataset = sym (append-nil store.dataset);
  low = λ h. h;
  counts = λ h. omega arith;
}
submit_knowledge-Submitted (sample, broken n) store =
    elim (Bool-cases (ltb max_dataset_entry_bytes (length (encode (entry_of sample))))) [
      | inl over ↦ record {
        added = [];
        adds = rw over (inl (refl, ground (arith, over), refl));
        dataset = rw over (sym (append-nil store.dataset));
        low = λ h. rw over h;
        counts = λ h. rw over (omega arith);
      }
      | inr fits ↦ record {
        added = take n (encode (entry_of sample));
        adds = rw fits (inr (inr (refl, (n, refl, refl))));
        dataset = rw fits refl;
        low = λ h. rw fits h;
        counts = λ h. rw fits (omega arith);
      }
    ]
submit_knowledge-Submitted (sample, whole) store =
    elim (Bool-cases (ltb max_dataset_entry_bytes (length (encode (entry_of sample))))) [
      | inl over ↦ record {
        added = [];
        adds = rw over (inl (refl, ground (arith, over), refl));
        dataset = rw over (sym (append-nil store.dataset));
        low = λ h. rw over h;
        counts = λ h. rw over (omega arith);
      }
      | inr fits ↦ elim (Bool-cases (leb training_threshold (store.new_samples_count + 1))) [
        | inl full ↦ record {
          added = encode (entry_of sample);
          adds = rw fits (ground (arith, fits), refl, refl);
          dataset = rw (fits, full) refl;
          low = λ h. rw (fits, full) (omega arith);
          counts = λ h. rw (fits, full) (ground (arith, full));
        }
        | inr more ↦ record {
          added = encode (entry_of sample);
          adds = rw fits (ground (arith, fits), refl, refl);
          dataset = rw (fits, more) refl;
          low = λ h. rw (fits, more) (ground (arith, more));
          counts = λ h. rw (fits, more) (omega arith);
        }
      ]
    ]

successes_first :
    (answer : Answer) (answers : List Answer)
    → successes (answer ∷ answers) ≡ successes (answer ∷ []) + successes answers
unfolding successes
successes_first (ok _) answers = omega arith
successes_first (err e) answers = omega arith

serve-counts :
    (requests : List Request) (store : Store)
    → store.new_samples_count < training_threshold
    → let (answers, final) = serve requests store in
      ((parts : List Bytes) × AllAdd requests answers parts
        × (final.dataset ≡ store.dataset ++ join parts))
      × (final.new_samples_count < training_threshold)
      × (final.scheduled * 5 + final.new_samples_count
          ≡ store.scheduled * 5 + store.new_samples_count + successes answers)
unfolding serve join
serve-counts [] store h =
    (([], tt, sym (append-nil store.dataset)), h, unfold successes in omega arith)
serve-counts ((sample, write) ∷ rest) store h =
    let s = submit_knowledge-Submitted (sample, write) store in
    let after = submit_knowledge write sample store in
    let ((parts, all_add, data_), low, sum) = serve-counts rest after.1 (s.low h) in
    (
      (
        s.added ∷ parts,
        (s.adds, all_add),
        data_
            ∙ ap (λ d. d ++ join parts) s.dataset
            ∙ append_assoc store.dataset s.added (join parts),
      ),
      low,
      omega (arith, sum, s.counts h, successes_first after.0 (serve rest after.1).0),
    )

-- After any requests, refused and failed ones among them, the dataset has grown by one part for each
-- of them, in order: the whole entry of a request that was answered with success, which is then
-- within 2 MiB; the first bytes of the entry where the write failed and the answer was 500; and
-- nothing where the entry was too large or there was no directory. From a fresh counter a training
-- was scheduled for every fifth success.
pub serve-accepted :
    (requests : List Request) (store : Store)
    → store.new_samples_count ≡ 0
    → let (answers, final) = serve requests store in
      ((parts : List Bytes) × AllAdd requests answers parts
        × (final.dataset ≡ store.dataset ++ join parts))
      × (final.scheduled ≡ store.scheduled + successes answers / 5)
      × (final.new_samples_count ≡ successes answers % 5)
serve-accepted requests store h =
    let (kept, low, sum) = serve-counts requests store (omega (arith, h)) in
    (kept, omega (arith, low, sum, h), omega (arith, low, sum, h))
