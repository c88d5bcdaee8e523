-- ===== src/Backends/Router/Laws.antt =====
-- Which backend answers, for every router that can be constructed.
use npp_ai.Prelude.{◌≡◌, refl, subst, Bool, true, false, Option, none, some, if◌then◌else◌, arith}
use npp_ai.Python.Exceptions.{Result, ok, err, is_backend_unavailable}
use npp_ai.Protocol.{GenerationRequest, GenerationResponse}
use npp_ai.Backends.{Backend}
use npp_ai.Backends.Router.{
  Mode, local_only, online, hybrid, unknown, BackendRouter, make_router, generate,
}

module _ {W : Type 0} where
  -- The remote backend answers for a local one that is unavailable, from the world that the
  -- attempt left.
  abbrev pub fall_back :
      Backend W → GenerationRequest → Result GenerationResponse × W → Result GenerationResponse × W
  fall_back there payload (ok r, w) = (ok r, w)
  fall_back there payload (err e, w) =
      if is_backend_unavailable e then there payload w else (err e, w)

  -- A router that is constructed without remote transfer answers every request as its local
  -- backend does, errors included, whatever remote backend it was handed.
  pub generate_locally :
      (mode : Mode) (local remote : Option (Backend W)) (router : BackendRouter W)
      → make_router mode local remote false ≡ ok router
      → (here : Backend W) × (local ≡ some here)
        × ((payload : GenerationRequest) (w : W) → generate router payload w ≡ here payload w)
  unfolding make_router generate
  generate_locally local_only (some here) remote router h =
      let made : record { mode = local_only; local = some here; remote = remote } ≡ router = cc in
      (
        here,
        refl,
        λ payload w. subst (λ r. generate r payload w ≡ here payload w) made (ground arith),
      )
  generate_locally local_only none remote router h = cc
  generate_locally online local remote router h = cc
  generate_locally hybrid local remote router h = cc
  generate_locally unknown local remote router h = cc

  -- A hybrid router asks the remote backend exactly when the local one is unavailable.
  pub generate_hybrid :
      (local remote : Option (Backend W)) (allow : Bool) (router : BackendRouter W)
      → make_router hybrid local remote allow ≡ ok router
      → (here there : Backend W) × (allow ≡ true)
        × (local ≡ some here)
        × (remote ≡ some there)
        × ((payload : GenerationRequest) (w : W)
            → generate router payload w ≡ fall_back there payload (here payload w))
  unfolding make_router generate
  generate_hybrid (some here) (some there) true router h =
      let made : record { mode = hybrid; local = some here; remote = some there } ≡ router = cc in
      (
        here,
        there,
        refl,
        refl,
        refl,
        λ payload w.
            subst (λ r. generate r payload w ≡ fall_back there payload (here payload w)) made
              (ground arith),
      )
  generate_hybrid (some here) (some there) false router h = cc
  generate_hybrid (some here) none true router h = cc
  generate_hybrid (some here) none false router h = cc
  generate_hybrid none (some there) true router h = cc
  generate_hybrid none (some there) false router h = cc
  generate_hybrid none none true router h = cc
  generate_hybrid none none false router h = cc
