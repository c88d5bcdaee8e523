-- ===== src/Sandbox/Docker/Laws.antt =====
-- What the command of the container promises, and what its environment passes on.
use npp_ai.Prelude.{◌≡◌, refl, sym, Bool, true, Bool-cases, inl, inr, List, [], ◌∷◌, ◌++◌, all, any}
use npp_ai.Text.{Text, codes, text_eq}
use npp_ai.Python.Exceptions.{ok, ok_inj, require, >>=-eq-ok, require-eq-ok}
use npp_ai.Sandbox.Docker.{
  is_image, is_local_host, confinement, docker_command, is_inherited, child_environment,
}

-- The options without which the container is not confined.
abbrev required : List Text
required =
    codes "--network=none"
    ∷ codes "--read-only"
    ∷ codes "--cap-drop=ALL"
    ∷ codes "--security-opt=no-new-privileges"
    ∷ codes "--pids-limit=32"
    ∷ codes "--memory=128m"
    ∷ codes "--memory-swap=128m"
    ∷ codes "--user=65534:65534"
    ∷ codes "--pull=never"
    ∷ []

-- The command runs an image that is given by its digest, on a local host, under the name, with all
-- required options before the image, and nothing but the supervisor behind it.
pub record IsConfined (supervisor docker host image name : Text) (command : List Text)
    : Type 0 where
  pub image_digest : is_image image ≡ true
  pub local_host : is_local_host host ≡ true
  pub options : List Text
  pub whole :
      command
      ≡ docker
        ∷ codes "--host"
        ∷ host
        ∷ codes "run"
        ∷ codes "--rm"
        ∷ codes "-i"
        ∷ codes "--name"
        ∷ name
        ∷ (options ++ (image ∷ codes "-I" ∷ codes "-B" ∷ codes "-c" ∷ supervisor ∷ []))
  pub confined : all (λ o. any (text_eq o) options) required ≡ true

pub docker_command-IsConfined :
    (supervisor docker host image name : Text) (command : List Text)
    → docker_command supervisor docker host image name ≡ ok command
    → IsConfined supervisor docker host image name command
unfolding docker_command
docker_command-IsConfined supervisor docker host image name command h =
    let (u, p, h1) = >>=-eq-ok (require (is_image image) _) _ h in
    let (v, q, h2) = >>=-eq-ok (require (is_local_host host) _) _ h1 in
    record {
      image_digest = require-eq-ok _ _ p;
      local_host = require-eq-ok _ _ q;
      options = confinement;
      whole = sym (ok_inj _ _ h2);
      confined = unfold confinement text_eq in refl;
    }

-- The only variables that the command of the container may be given, in capitals.
pub passes_on : Text → Bool
passes_on key = any (text_eq key) (
    codes "PATH"
    ∷ codes "SYSTEMROOT"
    ∷ codes "WINDIR"
    ∷ codes "HOME"
    ∷ codes "USERPROFILE"
    ∷ codes "TEMP"
    ∷ codes "TMP"
    ∷ [])

pub child_environment-all :
    (upper : Text → Text) (environ : List (Text × Text))
    → all (λ (v : Text × Text). passes_on (upper v.0)) (child_environment upper environ) ≡ true
unfolding child_environment is_inherited passes_on
child_environment-all upper [] = refl
child_environment-all upper ((key, value) ∷ environ) = elim (Bool-cases (is_inherited upper key)) [
  | inl kept ↦ rw kept (rw (kept, child_environment-all upper environ))
  | inr dropped ↦ rw dropped (child_environment-all upper environ)
]
