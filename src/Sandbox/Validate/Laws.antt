-- ===== src/Sandbox/Validate/Laws.antt =====
-- What a validation answers, and what it leaves behind.
use npp_ai.Prelude.{ℕ, ◌≤◌, ◌≡◌, ◌⊎◌, true, false, some, all, if◌then◌else◌, List, [], ◌∷◌, ◌++◌}
use npp_ai.Text.{Text}
use npp_ai.Text.Utf8.{decode}
use npp_ai.Text.Edit.{strip}
use npp_ai.Python.Int.{ℤ, pos}
use npp_ai.Sandbox.Docker.Laws.{IsConfined, passes_on}
use npp_ai.Sandbox.Watch.{Reader, fresh_reader, read_chunks, ended, watch}
use npp_ai.Sandbox.Validate.{Setting, Course, Action, start, kill, remove, proof_line, await_exit}

module _ (setting : Setting) (phase : Text) (count : ℕ) (course : Course) where
  -- The statuses 0 and 2, and what they rest on.
  pub record Reports (status : ℕ) : Type 0 where
    pub known : status ≤ 3
    pub verified :
        status ≡ 0
        → (r : Reader) × (watch course.deadline fresh_reader course.rounds ≡ some (ended (pos 0) r))
          × (strip (decode (read_chunks r course.tail).output)
              ≡ proof_line setting.receipt phase count)
          × ((read_chunks r course.tail).overflow ≡ false)
    pub infrastructure :
        status ≡ 2
        → (code : ℤ) × (r : Reader) × (watch course.deadline fresh_reader course.rounds
            ≡ some (ended code r))
          × ((code ≡ pos 125) ⊎ (code ≡ pos 126) ⊎ (code ≡ pos 127))

  -- A run that ends either never started the container, or started it once with a confined command
  -- and a small environment; then it killed the process if it was alive, tried to remove the
  -- container by its name, waited for the process, and killed it if it did not end.
  pub LeavesClean : Text → List Action → Type 0
  LeavesClean image actions =
      (actions ≡ [])
      ⊎ ((command : List Text) × (environment : List (Text × Text)) × IsConfined setting.supervisor
            setting.docker setting.host image setting.name command
          × (all (λ (v : Text × Text). passes_on (setting.upper v.0)) environment ≡ true)
          × (actions
              ≡ start command environment
                ∷ ((if course.alive then kill ∷ [] else [])
                    ++ (remove setting.docker setting.host setting.name
                        ∷ await_exit
                        ∷ (if course.exits then [] else kill ∷ [])))))
