-- ===== src/Server/ModelFiles.antt =====
-- `model_version`, `check_model_update` and `download_model` of server_backend.py, each for a call
-- that no other call overlaps and that sees the model file as it is at one moment; Overlap takes
-- `model_version` apart into the steps that threads interleave. SHA-256 is a parameter.
pub mod Laws
pub mod Overlap
use npp_ai.Prelude.{
  ℕ, zero, suc, ◌+◌, ◌/◌, ◌%◌, Bool, true, false, not, ◌&&◌, Option, none, some, List, [], ◌∷◌,
  ◌++◌, length, take, drop, ltb, ◌==◌, if◌then◌else◌,
}
use npp_ai.Text.{Text, Bytes, codes, text_eq}
use npp_ai.Text.Hex.{hex_digit, hexdigest}
use npp_ai.Python.Exceptions.{Result, ok, err, http_exception}

-- `st_mtime_ns` and what the file holds; `st_size` is its length.
pub record ModelFile : Type 0 where
  pub mtime : ℕ
  pub content : Bytes

-- `model_version_cache_key` and `model_version_cache_value`
pub record Cache : Type 0 where
  pub key : Option (ℕ × ℕ)
  pub value : Option Text

abbrev pub empty_cache : Cache
empty_cache = record { key = none; value = none }

-- `f"{n:x}"`; a number has no more digits than itself, or one.
hex_from : ℕ → ℕ → Text
unfolding hex_digit
hex_from zero n = []
hex_from (suc fuel) n =
    let rest = hex_from fuel (n / 16) in
    if ltb n 16 then hex_digit n ∷ [] else rest ++ (hex_digit (n % 16) ∷ [])

hex : ℕ → Text
unfolding hex_from
hex n = hex_from (n + 1) n

abbrev pub stat_of : ModelFile → ℕ × ℕ
stat_of f = (f.mtime, length f.content)

unfoldable pub key_matches : Option (ℕ × ℕ) → ℕ × ℕ → Bool
key_matches none stat = false
key_matches (some (m, s)) (mtime, size) = m == mtime && s == size

-- The value of the cache, where its key is the current one.
unfoldable pub cached : Cache → ModelFile → Option Text
unfolding key_matches
cached cache f = if key_matches cache.key (stat_of f) then cache.value else none

module _ (sha256 : Bytes → Bytes) where
  -- The version of a file with this `stat` and these bytes.
  unfoldable pub version_from : ℕ × ℕ → Bytes → Text
  unfolding hex hexdigest
  version_from (mtime, size) content =
      hex mtime ++ (codes "-" ++ (hex size ++ (codes "-" ++ take 16 (hexdigest (sha256 content)))))

  unfoldable pub version_of : ModelFile → Text
  unfolding version_from
  version_of f = version_from (stat_of f) f.content

  unfoldable pub model_version : Option ModelFile → Cache → Text × Cache
  model_version none cache = (codes "0", empty_cache)
  model_version (some f) cache = elim (cached cache f) [
    | some version ↦ (version, cache)
    | none ↦ (version_of f, record { key = some (stat_of f); value = some (version_of f) })
  ]

  -- The version that is offered, or none where there is no update.
  unfoldable pub check_model_update : Option ModelFile → Text → Cache → Result (Option Text) × Cache
  check_model_update none client_version cache =
      (err (http_exception 404 "Model is not available"), cache)
  check_model_update (some f) client_version cache =
      let (server_version, cache') = model_version (some f) cache in
      (
        ok (if not (text_eq client_version server_version) then some server_version else none),
        cache',
      )

abbrev pub model_chunk_size : ℕ
model_chunk_size = 1048576

-- `while chunk := file_like.read(size)`
unfoldable pub read_chunks : ℕ → ℕ → Bytes → List Bytes
read_chunks zero size bs = []
read_chunks (suc fuel) size [] = []
read_chunks (suc fuel) size (b ∷ bs) =
    take size (b ∷ bs) ∷ read_chunks fuel size (drop size (b ∷ bs))

unfoldable pub download_model : Option ModelFile → Result (List Bytes)
download_model none = err (http_exception 404 "Model is not available")
download_model (some f) = ok (read_chunks (length f.content) model_chunk_size f.content)
