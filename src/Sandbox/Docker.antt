-- ===== src/Sandbox/Docker.antt =====
-- `docker_command` of sandbox_validate.py, and the environment that the command is given. The
-- text of the supervisor program is an argument, and so is `str.upper`.
pub mod Laws
use npp_ai.Prelude.{
  ℕ, Bool, ◌&&◌, ◌||◌, List, [], ◌∷◌, ◌++◌, length, drop, leb, any, all, ◌==◌, if◌then◌else◌,
}
use npp_ai.Text.{Text, codes, text_eq, starts_with}
use npp_ai.Python.Exceptions.{Result, ok, value_error, require, ◌>>◌}

-- `[0-9a-f]`
unfoldable pub is_hex : ℕ → Bool
is_hex c = (leb 48 c && leb c 57) || (leb 97 c && leb c 102)

-- `re.fullmatch(r'sha256:[0-9a-f]{64}', image)`
unfoldable pub is_image : Text → Bool
unfolding is_hex
is_image image =
    starts_with image (codes "sha256:") && length image == 71 && all is_hex (drop 7 image)

unfoldable pub is_local_host : Text → Bool
is_local_host host =
    starts_with host (codes "unix:///") || starts_with host (codes "npipe:////./pipe/")

-- The options that confine the container.
unfoldable pub confinement : List Text
confinement =
    codes "--pull=never"
    ∷ codes "--network=none"
    ∷ codes "--read-only"
    ∷ codes "--cap-drop=ALL"
    ∷ codes "--security-opt=no-new-privileges"
    ∷ codes "--pids-limit=32"
    ∷ codes "--cpus=1"
    ∷ codes "--memory=128m"
    ∷ codes "--memory-swap=128m"
    ∷ codes "--user=65534:65534"
    ∷ codes "--ipc=none"
    ∷ codes "--log-driver=none"
    ∷ codes "--no-healthcheck"
    ∷ codes "--tmpfs=/tmp:rw,noexec,nosuid,nodev,size=16m"
    ∷ codes "--workdir=/tmp"
    ∷ codes "--entrypoint=python"
    ∷ []

unfoldable pub docker_command : Text → Text → Text → Text → Text → Result (List Text)
docker_command supervisor docker host image name = do
  require (is_image image)
      (value_error "NPPAI_VALIDATION_IMAGE must be a local immutable sha256 image ID")
  require (is_local_host host)
      (value_error "Validation requires a local Unix socket or Windows named pipe")
  ok (
      docker
      ∷ codes "--host"
      ∷ host
      ∷ codes "run"
      ∷ codes "--rm"
      ∷ codes "-i"
      ∷ codes "--name"
      ∷ name
      ∷ (confinement ++ (image ∷ codes "-I" ∷ codes "-B" ∷ codes "-c" ∷ supervisor ∷ [])))

-- The variables that the command inherits.
abbrev pub inherited : List Text
inherited =
    codes "PATH"
    ∷ codes "SYSTEMROOT"
    ∷ codes "WINDIR"
    ∷ codes "HOME"
    ∷ codes "USERPROFILE"
    ∷ codes "TEMP"
    ∷ codes "TMP"
    ∷ []

unfoldable pub is_inherited : (Text → Text) → Text → Bool
is_inherited upper key = any (text_eq (upper key)) inherited

unfoldable pub child_environment : (Text → Text) → List (Text × Text) → List (Text × Text)
unfolding is_inherited
child_environment upper [] = []
child_environment upper ((key, value) ∷ environ) =
    let rest = child_environment upper environ in
    if is_inherited upper key then (key, value) ∷ rest else rest
