-- ===== src/Backends/Router.antt =====
-- `BackendRouter` of model_backends.py.
pub mod Laws
use npp_ai.Prelude.{Bool, true, false, not, ◌&&◌, ◌||◌, Option, none, some, if◌then◌else◌}
use npp_ai.Python.Exceptions.{
  Exception, Result, ok, err, value_error, other_exception, is_backend_unavailable, require, ◌>>=◌,
  ◌>>◌,
}
use npp_ai.Protocol.{GenerationRequest, GenerationResponse}
use npp_ai.Backends.{Backend}
use npp_ai.Python.Exec.{Exec}

pub data Mode : Type 0 where
  local_only online hybrid unknown : Mode

-- `mode == "online"`, `mode == "hybrid"`, `mode == "local"`
unfoldable pub is_online : Mode → Bool
is_online online = true
is_online _ = false

unfoldable pub is_hybrid : Mode → Bool
is_hybrid hybrid = true
is_hybrid _ = false

unfoldable pub is_local : Mode → Bool
is_local local_only = true
is_local _ = false

abbrev pub absent {ℓ} : {A : Type ℓ} → Option A → Bool
absent none = true
absent (some a) = false

module _ (W : Type 0) where
  pub record BackendRouter : Type 0 where
    pub mode : Mode
    pub local : Option (Backend W)
    pub remote : Option (Backend W)

module _ {W : Type 0} where
  -- `BackendRouter.__init__`
  unfoldable pub make_router :
      Mode → Option (Backend W) → Option (Backend W) → Bool → Result (BackendRouter W)
  unfolding is_online is_hybrid is_local
  make_router mode local remote allow_remote = do
    require (is_local mode || is_online mode || is_hybrid mode) (value_error "Unknown backend mode")
    require (not (not (is_local mode) && (not allow_remote || absent remote)))
        (value_error "Online/hybrid requires explicit remote transfer and backend")
    require (not (not (is_online mode) && absent local))
        (value_error "Local/hybrid requires a local backend")
    ok (record { mode = mode; local = local; remote = remote })

  -- `self.local.generate(payload)`: an AttributeError where there is no backend.
  call : Option (Backend W) → Backend W
  call none payload w = (err (other_exception "'NoneType' object has no attribute 'generate'"), w)
  call (some backend) payload w = backend payload w

  -- The `except BackendUnavailable` clause.
  recover :
      BackendRouter W
      → GenerationRequest
      → Result GenerationResponse
      → W
      → Result GenerationResponse × W
  unfolding is_hybrid call
  recover router payload (ok r) w = (ok r, w)
  recover router payload (err e) w =
      if is_backend_unavailable e
      then (if not (is_hybrid router.mode) then (err e, w) else call router.remote payload w)
      else (err e, w)

  -- `BackendRouter.generate`
  unfoldable pub generate : BackendRouter W → Backend W
  unfolding is_online call recover
  generate router payload w =
      if is_online router.mode
      then call router.remote payload w
      else (let (answer, w') = call router.local payload w in recover router payload answer w')
