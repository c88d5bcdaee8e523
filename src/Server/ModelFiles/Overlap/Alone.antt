-- ===== src/Server/ModelFiles/Overlap/Alone.antt =====
-- A call of `model_version` that no other call overlaps.
use npp_ai.Prelude.{
  ℕ, ◌≡◌, refl, sym, ap, ◌∙◌, inl, inr, Bool, true, false, Bool-cases, Option, none, some,
  if◌then◌else◌, if_intro,
}
use npp_ai.Text.{Text, Bytes}
use npp_ai.Server.ModelFiles.{
  ModelFile, Cache, stat_of, key_matches, cached, version_of, model_version,
}
use npp_ai.Server.ModelFiles.Laws.{model_version-missing, model_version-cached}
use npp_ai.Server.ModelFiles.Overlap.{VersionCall, starting, returned, advance, steps}

cached-held :
    (f : ModelFile) (key : Option (ℕ × ℕ)) (value : Option Text) (b : Bool)
    → key_matches key (stat_of f) ≡ b
    → cached (record { key = key; value = value }) f ≡ (if b then value else none)
unfolding cached
cached-held f key value b h = rw h refl

computed :
    (sha256 : Bytes → Bytes) (f : ModelFile) (cache : Cache) (r : Text × Cache)
    (out : VersionCall × Cache)
    → model_version sha256 (some f) cache ≡ r
    → out ≡ (returned (some r.0), r.1)
    → out ≡ (
      returned (some (model_version sha256 (some f) cache).0),
      (model_version sha256 (some f) cache).1,
    )
computed sha256 f cache r out h e =
    e ∙ sym (ap (λ (q : Text × Cache). (returned (some q.0), q.1)) h)

steps-found :
    (sha256 : Bytes → Bytes) (f : ModelFile) (key : Option (ℕ × ℕ)) (value : Option Text) (b : Bool)
    → key_matches key (stat_of f) ≡ b
    → let cache : Cache = record { key = key; value = value } in
      steps sha256 7 (some f) (starting, cache) ≡ (
        returned (some (model_version sha256 (some f) cache).0),
        (model_version sha256 (some f) cache).1,
      )
unfolding steps advance version_of
steps-found sha256 f key none b h =
    let cache : Cache = record { key = key; value = none } in
    let missing : cached cache f ≡ none =
      cached-held f key none b h ∙ if_intro (λ v. v ≡ none) b (λ _. refl) (λ _. refl) in
    computed sha256 f cache _ _ (model_version-missing sha256 cache f missing)
      (elim (Bool-cases (key_matches key (stat_of f))) [
        | inl hit ↦ rw hit refl
        | inr other ↦ rw other refl
      ])
steps-found sha256 f key (some version) true h =
    let cache : Cache = record { key = key; value = some version } in
    computed sha256 f cache _ _
      (model_version-cached sha256 cache f version (cached-held f key (some version) true h))
      (rw h refl)
steps-found sha256 f key (some version) false h =
    let cache : Cache = record { key = key; value = some version } in
    computed sha256 f cache _ _
      (model_version-missing sha256 cache f (cached-held f key (some version) false h)) (rw h refl)

-- A call that no other call overlaps, while the file stays the same or stays away, is the
-- `model_version` of Server/ModelFiles.
pub model_version-steps :
    (sha256 : Bytes → Bytes) (disk : Option ModelFile) (cache : Cache)
    → steps sha256 7 disk (starting, cache)
      ≡ (returned (some (model_version sha256 disk cache).0), (model_version sha256 disk cache).1)
unfolding steps advance model_version
model_version-steps sha256 none cache = refl
model_version-steps sha256 (some f) cache =
    steps-found sha256 f cache.key cache.value (key_matches cache.key (stat_of f)) refl
