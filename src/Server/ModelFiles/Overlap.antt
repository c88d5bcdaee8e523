-- ===== src/Server/ModelFiles/Overlap.antt =====
-- `model_version` of server_backend.py as its threads run it: one access to the file or to the two
-- shared variables at a time, and no lock between them.
pub mod Laws
pub mod Alone
use npp_ai.Prelude.{
  ℕ, zero, suc, ◌+◌, Bool, true, false, Option, none, some, List, [], ◌∷◌, ◌==◌, if◌then◌else◌,
}
use npp_ai.Text.{Text, Bytes, codes}
use npp_ai.Server.ModelFiles.{ModelFile, Cache, empty_cache, stat_of, key_matches, version_from}

-- Where a call stands, with the locals that are live there.
pub data VersionCall : Type 0 where
  starting : VersionCall  -- before `is_file`
  found : VersionCall  -- before `stat`
  looked : ℕ × ℕ → VersionCall  -- before the test of the key
  matched : ℕ × ℕ → VersionCall  -- before the test of the value
  chosen : VersionCall  -- before the `return` of the value
  missed : ℕ × ℕ → VersionCall  -- before the file is read
  hashed : ℕ × ℕ → Text → VersionCall  -- before the key is written
  keyed : Text → VersionCall  -- before the value is written
  clearing : VersionCall  -- no file: before the key is cleared
  cleared : VersionCall  -- before the value is cleared
  returned : Option Text → VersionCall
  failed : VersionCall  -- the file is gone behind `is_file`

module _ (sha256 : Bytes → Bytes) where
  -- One step of a call that finds the file in this state, none where there is none.
  unfoldable pub advance : Option ModelFile → VersionCall → Cache → VersionCall × Cache
  unfolding key_matches
  advance none starting cache = (clearing, cache)
  advance (some f) starting cache = (found, cache)
  advance none found cache = (failed, cache)
  advance (some f) found cache = (looked (stat_of f), cache)
  advance disk (looked stat) cache =
      (if key_matches cache.key stat then matched stat else missed stat, cache)
  advance disk (matched stat) cache = elim cache.value [
    | none ↦ (missed stat, cache)
    | some version ↦ (chosen, cache)
  ]
  advance disk chosen cache = (returned cache.value, cache)
  advance none (missed stat) cache = (failed, cache)
  advance (some f) (missed stat) cache = (hashed stat (version_from sha256 stat f.content), cache)
  advance disk (hashed stat version) cache =
      (keyed version, record { key = some stat; value = cache.value })
  advance disk (keyed version) cache =
      (returned (some version), record { key = cache.key; value = some version })
  advance disk clearing cache = (cleared, record { key = none; value = cache.value })
  advance disk cleared cache =
      (returned (some (codes "0")), record { key = cache.key; value = none })
  advance disk (returned version) cache = (returned version, cache)
  advance disk failed cache = (failed, cache)

  -- The shared variables and the calls, by their numbers.
  pub record Shared : Type 0 where
    pub cache : Cache
    pub calls : ℕ → VersionCall

  abbrev pub with_call : (ℕ → VersionCall) → ℕ → VersionCall → ℕ → VersionCall
  with_call calls i c j = if i == j then c else calls j

  -- VersionCall `i` takes a step.
  unfoldable pub turn : ℕ → Option ModelFile → Shared → Shared
  unfolding advance
  turn i disk s =
      let (c, cache) = advance disk (s.calls i) s.cache in
      record { cache = cache; calls = with_call s.calls i c }

  -- The steps in any order, each with the file as it is then.
  unfoldable pub run : List (ℕ × Option ModelFile) → Shared → Shared
  unfolding turn
  run [] s = s
  run ((i, disk) ∷ turns) s = run turns (turn i disk s)

  abbrev pub all_starting : Cache → Shared
  all_starting cache = record { cache = cache; calls = λ i. starting }

  -- Some steps of one call that no other call overlaps.
  unfoldable pub steps : ℕ → Option ModelFile → VersionCall × Cache → VersionCall × Cache
  unfolding advance
  steps zero disk (c, cache) = (c, cache)
  steps (suc n) disk (c, cache) = steps n disk (advance disk c cache)
