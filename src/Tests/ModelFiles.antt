-- ===== src/Tests/ModelFiles.antt =====
-- Calls of `model_version` that overlap.
use npp_ai.Prelude.{◌≡◌, refl, inl, ℕ, Option, some, List, ◌≤◌, [], ◌∷◌, replicate, length}
use npp_ai.Text.{Text, Bytes}
use npp_ai.Server.ModelFiles.{ModelFile, Cache, empty_cache, stat_of, version_of}
use npp_ai.Server.ModelFiles.Overlap.{returned, turn, run, all_starting}
use npp_ai.Server.ModelFiles.Overlap.Laws.{turns, overlapping-current}

abbrev older : ModelFile
older = record { mtime = 1; content = 7 ∷ [] }

abbrev newer : ModelFile
newer = record { mtime = 2; content = 8 ∷ [] }

abbrev digest : Bytes → Bytes
digest bs = replicate 32 (length bs)

-- Two calls take turns over the newer file, from a fresh service.
abbrev both_turns : List (ℕ × Option ModelFile)
both_turns =
    (0, some newer)
    ∷ (1, some newer)
    ∷ (0, some newer)
    ∷ (1, some newer)
    ∷ (0, some newer)
    ∷ (0, some newer)
    ∷ (0, some newer)
    ∷ (1, some newer)
    ∷ (0, some newer)
    ∷ (1, some newer)
    ∷ (0, some newer)
    ∷ []

overlapping-current_example :
    let c = (run digest both_turns (all_starting digest empty_cache)).calls 0 in
    (7 ≤ turns 0 both_turns → c ≡ returned (some (version_of digest newer)))
    × ((version : Option Text) → c ≡ returned version → version ≡ some (version_of digest newer))
overlapping-current_example =
    overlapping-current digest newer empty_cache both_turns (inl refl)
      (refl, (refl, (refl, (refl, (refl, (refl, (refl, (refl, (refl, (refl, (refl, tt))))))))))) 0

-- Where the cache still holds the older file, a call that starts when another has written the new
-- key, and not yet the new value, returns the version of the older file.
abbrev between_writes : List (ℕ × Option ModelFile)
between_writes =
    (0, some newer)
    ∷ (0, some newer)
    ∷ (0, some newer)
    ∷ (0, some newer)
    ∷ (0, some newer)
    ∷ (1, some newer)
    ∷ (1, some newer)
    ∷ (1, some newer)
    ∷ (1, some newer)
    ∷ (1, some newer)
    ∷ []

abbrev older_cache : Cache
older_cache = record { key = some (stat_of older); value = some (version_of digest older) }

stale_version :
    (run digest between_writes (all_starting digest older_cache)).calls 1
    ≡ returned (some (version_of digest older))
unfolding run turn npp_ai.Server.ModelFiles.Overlap.advance npp_ai.Server.ModelFiles.key_matches
stale_version = refl
