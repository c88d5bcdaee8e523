-- ===== src/Server/ModelFiles/Laws.antt =====
-- The version cache of Server/ModelFiles against versions without a cache, and downloads.
use npp_ai.Prelude.{
  ℕ, zero, suc, ◌≤◌, ◌≡◌, refl, ◌∙◌, ap, sym, ◌⊎◌, inl, inr, Option-cases, Bool-cases, true, Option,
  none, some, List, [], ◌∷◌, ◌++◌, map, length, take, drop, arith,
}
use mathlib.Core.Option.{some-injective}
use npp_ai.Text.{Text, Bytes, codes}
use npp_ai.Python.Exceptions.{ok}
use npp_ai.Server.BodyLimit.Laws.{join}
use npp_ai.Server.ModelFiles.{
  ModelFile, Cache, empty_cache, stat_of, key_matches, cached, version_of, model_version,
  read_chunks, model_chunk_size, download_model,
}

key_matches-eq : (k stat : ℕ × ℕ) → key_matches (some k) stat ≡ true → k ≡ stat
unfolding key_matches
key_matches-eq (m, s) (mtime, size) h = λ i. (first i, other i)
  where
    first : m ≡ mtime
    first = ground arith

    other : s ≡ size
    other = ground arith

module _ (sha256 : Bytes → Bytes) where
  -- The version without a cache.
  abbrev pub fresh_version : Option ModelFile → Text
  fresh_version none = codes "0"
  fresh_version (some f) = version_of sha256 f

  -- The answers to calls that find the file in these states.
  unfoldable pub versions : List (Option ModelFile) → Cache → List Text
  versions [] cache = []
  versions (f ∷ files) cache =
      (model_version sha256 f cache).0 ∷ versions files (model_version sha256 f cache).1

  pub model_version-missing :
      (cache : Cache) (f : ModelFile)
      → cached cache f ≡ none
      → model_version sha256 (some f) cache ≡ (
        version_of sha256 f,
        record { key = some (stat_of f); value = some (version_of sha256 f) },
      )
  unfolding model_version
  model_version-missing cache f missing = rw (missing, model_version)

  pub model_version-cached :
      (cache : Cache) (f : ModelFile) (v : Text)
      → cached cache f ≡ some v
      → model_version sha256 (some f) cache ≡ (v, cache)
  unfolding model_version
  model_version-cached cache f v e = rw (e, model_version)

  module _ (Seen : ModelFile → Type 0) where
    abbrev pub AllSeen : List (Option ModelFile) → Type 0
    AllSeen [] = Unit
    AllSeen (none ∷ files) = AllSeen files
    AllSeen (some f ∷ files) = Seen f × AllSeen files

    -- What the cache holds is the version of a file that was seen, or nothing.
    abbrev Holds : Cache → Type 0
    Holds cache =
        (cache.value ≡ none)
        ⊎ ((g : ModelFile) × Seen g
            × (cache.key ≡ some (stat_of g))
            × (cache.value ≡ some (version_of sha256 g)))

    -- The modification time and the size tell the files apart.
    abbrev pub StatsIdentify : Type 0
    StatsIdentify = (f g : ModelFile) → Seen f → Seen g → stat_of f ≡ stat_of g → f ≡ g

    cached-version :
        (cache : Cache) (f : ModelFile) (v : Text)
        → StatsIdentify
        → Holds cache
        → Seen f
        → cached cache f ≡ some v
        → v ≡ version_of sha256 f
    unfolding cached
    cached-version cache f v same (inl empty) seen h = absurd (ground arith)
    cached-version cache f v same (inr (g, seen_g, key, value)) seen h =
        elim (Bool-cases (key_matches (some (stat_of g)) (stat_of f))) [
          | inl hit ↦
              let held : some (version_of sha256 g) ≡ some v = sym value ∙ (rw (key, hit) at h) in
              let stats : stat_of g ≡ stat_of f = key_matches-eq (stat_of g) (stat_of f) hit in
              sym (some-injective _ _ held) ∙ ap (version_of sha256) (same g f seen_g seen stats)
          | inr missed ↦ absurd (cc (rw (key, missed) at h))
        ]

    versions-eq :
        (files : List (Option ModelFile)) (cache : Cache)
        → StatsIdentify
        → Holds cache
        → AllSeen files
        → versions files cache ≡ map fresh_version files
    unfolding versions model_version
    versions-eq [] cache same held seen = refl
    versions-eq (none ∷ files) cache same held seen =
        ap (λ l. codes "0" ∷ l) (versions-eq files empty_cache same (inl refl) seen)
    versions-eq (some f ∷ files) cache same held (seen, others) =
        elim (Option-cases (cached cache f)) [
          | inl missing ↦ rw (model_version-missing cache f missing) (
              ap (λ l. version_of sha256 f ∷ l)
                (versions-eq files _ same (inr (f, seen, refl, refl)) others))
          | inr (v, e) ↦
              rw (model_version-cached cache f v e, cached-version cache f v same held seen e)
                (ap (λ l. version_of sha256 f ∷ l) (versions-eq files cache same held others))
        ]

  -- Where the modification time and the size tell the files apart that are ever found, each of the
  -- calls of a fresh service that do not overlap answers with the version of the file that it finds,
  -- "0" where there is none.
  pub versions-eq-fresh :
      (Seen : ModelFile → Type 0) (files : List (Option ModelFile))
      → StatsIdentify Seen
      → AllSeen Seen files
      → versions files empty_cache ≡ map fresh_version files
  versions-eq-fresh Seen files same seen = versions-eq Seen files empty_cache same (inl refl) seen

take-drop : {A : Type 0} (n : ℕ) (xs : List A) → take n xs ++ drop n xs ≡ xs
take-drop zero xs = refl
take-drop (suc n) [] = refl
take-drop (suc n) (x ∷ xs) = ap (λ l. x ∷ l) (take-drop n xs)

length-drop_le : {A : Type 0} (n : ℕ) (xs : List A) → length (drop n xs) ≤ length xs
length-drop_le zero xs = omega arith
length-drop_le (suc n) [] = omega arith
length-drop_le (suc n) (x ∷ xs) = omega (arith, length-drop_le n xs)

join-read_chunks :
    (fuel size : ℕ) (bs : Bytes)
    → 1 ≤ size
    → length bs ≤ fuel
    → join (read_chunks fuel size bs) ≡ bs
unfolding read_chunks join
join-read_chunks zero size [] low enough = refl
join-read_chunks zero size (b ∷ bs) low enough = absurd (omega arith)
join-read_chunks (suc fuel) size [] low enough = refl
join-read_chunks (suc fuel) zero (b ∷ bs) low enough = absurd (omega arith)
join-read_chunks (suc fuel) (suc size) (b ∷ bs) low enough =
    rw (join-read_chunks fuel (suc size) (drop size bs) low (omega (arith, length-drop_le size bs)))
      (ap (λ l. b ∷ l) (take-drop size bs))

abbrev pub ChunksWithin : ℕ → List Bytes → Type 0
ChunksWithin size [] = Unit
ChunksWithin size (chunk ∷ chunks) =
    (1 ≤ length chunk) × (length chunk ≤ size) × ChunksWithin size chunks

length-take_le : {A : Type 0} (n : ℕ) (xs : List A) → length (take n xs) ≤ n
length-take_le zero xs = omega arith
length-take_le (suc n) [] = omega arith
length-take_le (suc n) (x ∷ xs) = omega (arith, length-take_le n xs)

read_chunks-ChunksWithin :
    (fuel size : ℕ) (bs : Bytes) → 1 ≤ size → ChunksWithin size (read_chunks fuel size bs)
unfolding read_chunks
read_chunks-ChunksWithin zero size bs low = tt
read_chunks-ChunksWithin (suc fuel) size [] low = tt
read_chunks-ChunksWithin (suc fuel) zero (b ∷ bs) low = absurd (omega arith)
read_chunks-ChunksWithin (suc fuel) (suc size) (b ∷ bs) low = (
  omega arith,
  omega (arith, length-take_le size bs),
  read_chunks-ChunksWithin fuel (suc size) (drop size bs) low,
)

-- A download of the model streams the whole file, in chunks of at most 1 MiB that are not empty.
pub download_model-chunks :
    (f : ModelFile)
    → (chunks : List Bytes) × (download_model (some f) ≡ ok chunks)
      × (join chunks ≡ f.content)
      × ChunksWithin model_chunk_size chunks
unfolding download_model
download_model-chunks f = (
  read_chunks (length f.content) model_chunk_size f.content,
  refl,
  join-read_chunks (length f.content) model_chunk_size f.content (omega arith) (omega arith),
  read_chunks-ChunksWithin (length f.content) model_chunk_size f.content (omega arith),
)
