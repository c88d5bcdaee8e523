-- ===== src/Server/Training/Laws.antt =====
-- How many training processes run at once.
use npp_ai.Prelude.{ℕ, ◌≤◌, ◌≡◌, refl, false, if_intro, Option, none, some, arith}
use npp_ai.Server.Training.{
  Task, scheduled, communicating, done, Training, idle, is_busy, run_training_process, launch,
  end_run, TrainingStep, called, launched, finished, TrainingSteps, at_start, then_training,
}

-- One process while the task waits for it, and none otherwise.
abbrev pub expected_processes : Option Task → ℕ
expected_processes none = 0
expected_processes (some scheduled) = 0
expected_processes (some communicating) = 1
expected_processes (some done) = 0

abbrev pub IsSingle : Training → Type 0
IsSingle s = s.processes ≡ expected_processes s.task

idle-task : (o : Option Task) → is_busy o ≡ false → expected_processes o ≡ 0
unfolding is_busy
idle-task none h = refl
idle-task (some done) h = refl
idle-task (some scheduled) h = refl
idle-task (some communicating) h = absurd (cc h)

expected_le : (o : Option Task) → expected_processes o ≤ 1
expected_le none = omega arith
expected_le (some scheduled) = omega arith
expected_le (some communicating) = omega arith
expected_le (some done) = omega arith

TrainingStep-IsSingle : (s t : Training) → TrainingStep s t → IsSingle s → IsSingle t
unfolding run_training_process launch end_run
TrainingStep-IsSingle s t (called is_file _) h =
    if_intro IsSingle (is_busy s.task) (λ busy. h)
      (λ free.
        if_intro IsSingle is_file (λ there. omega (arith, h, idle-task s.task free)) (λ missing. h))
TrainingStep-IsSingle s t (launched made _ e) h =
    let none_yet : s.processes ≡ 0 = rw e at h in
    if_intro IsSingle made (λ ok. omega arith) (λ failed. none_yet)
TrainingStep-IsSingle s t (finished code _ e) h =
    let one : s.processes ≡ 1 = rw e at h in omega arith

-- However the calls and the task interleave, from a service that has trained nothing: one training
-- process runs while the task waits for it, and none runs otherwise, so there are never two.
pub TrainingSteps-IsSingle :
    (s : Training)
    → TrainingSteps idle s
    → (s.processes ≡ expected_processes s.task) × (s.processes ≤ 1)
TrainingSteps-IsSingle s steps = let h = reached idle s steps refl in (h, bounded s h)
  where
    reached : (a s : Training) → TrainingSteps a s → IsSingle a → IsSingle s
    reached a s (at_start _) h = h
    reached a s (then_training _ t _ before step) h =
        TrainingStep-IsSingle t s step (reached a t before h)

    bounded : (s : Training) → IsSingle s → s.processes ≤ 1
    bounded s h = omega (arith, expected_le s.task)
