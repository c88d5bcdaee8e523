-- ===== src/Server/Training.antt =====
-- The training process of the service: `run_training_process` of server_backend.py and the task that
-- it starts. Between the lock and its release nothing waits, so a call is one step.
pub mod Laws
use npp_ai.Prelude.{
  ℕ, ◌+◌, ◌-◌, ◌≡◌, Bool, true, false, Option, none, some, List, [], ◌∷◌, ◌++◌, if◌then◌else◌,
}
use npp_ai.Python.Int.{ℤ, pos, ◌==ℤ◌}

-- `asyncio.Task`: made and not yet run, waiting for its process, or done.
pub data Task : Type 0 where
  scheduled communicating done : Task

pub data Event : Type 0 where
  script_missing : Event
  started : Event
  completed : Event
  failed : ℤ → Event

-- `training_task`, the processes that run, and the log.
pub record Training : Type 0 where
  pub task : Option Task
  pub processes : ℕ
  pub log : List Event

abbrev pub idle : Training
idle = record { task = none; processes = 0; log = [] }

-- `training_task is not None and not training_task.done()`
unfoldable pub is_busy : Option Task → Bool
is_busy none = false
is_busy (some done) = false
is_busy (some scheduled) = true
is_busy (some communicating) = true

unfoldable pub run_training_process : Bool → Training → Training
unfolding is_busy
run_training_process is_file s =
    if is_busy s.task
    then s
    else if is_file
    then record s { task = some scheduled }
    else record s { log = s.log ++ (script_missing ∷ []) }

-- `run` up to its first wait; a process that cannot be made ends the task.
unfoldable pub launch : Bool → Training → Training
launch made s =
    if made
    then record {
      task = some communicating;
      processes = s.processes + 1;
      log = s.log ++ (started ∷ []);
    }
    else record { task = some done; processes = s.processes; log = s.log ++ (started ∷ []) }

-- The rest of `run`, with the return code.
unfoldable pub end_run : ℤ → Training → Training
end_run code s = record {
  task = some done;
  processes = s.processes - 1;
  log = s.log ++ ((if code ==ℤ pos 0 then completed else failed code) ∷ []);
}

-- What can happen: a background call, and the progress of the task.
pub data TrainingStep : Training → Training → Type 0 where
  called : (is_file : Bool) (s : Training) → TrainingStep s (run_training_process is_file s)
  launched : (made : Bool) (s : Training) → s.task ≡ some scheduled → TrainingStep s (launch made s)
  finished :
      (code : ℤ) (s : Training) → s.task ≡ some communicating → TrainingStep s (end_run code s)

pub data TrainingSteps : Training → Training → Type 0 where
  at_start : (s : Training) → TrainingSteps s s
  then_training : (s t u : Training) → TrainingSteps s t → TrainingStep t u → TrainingSteps s u
