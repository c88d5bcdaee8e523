-- ===== src/Tests/Server.antt =====
-- Requests to the service of server_backend.py.
use npp_ai.Prelude.{
  ℕ, ◌+◌, ◌/◌, ◌%◌, ◌≤◌, ◌≡◌, ◌≢◌, refl, ◌↔◌, ◌⊎◌, true, false, all, ltb, Option, none, some, List,
  [], ◌∷◌, ◌++◌, length, arith,
}
use npp_ai.Text.{Text, Bytes, codes}
use npp_ai.Text.Utf8.{encode}
use npp_ai.Python.Int.{ℤ, pos, ◌≤ℤᵇ◌}
use npp_ai.Python.Exceptions.{ok}
use npp_ai.Server.Training.{
  Training, idle, run_training_process, launch, TrainingSteps, at_start, then_training, called,
  launched,
}
use npp_ai.Server.Training.Laws.{expected_processes, TrainingSteps-IsSingle}
use npp_ai.Server.Auth.{
  require_api_key, require_api_key_iff, positive_int_env, positive_int_env-pos,
}
use npp_ai.Server.RateLimit.{limited, admit, expire, retry_after}
use npp_ai.Server.RateLimit.History.{is_admitted}
use npp_ai.Server.RateLimit.Laws.{verdicts, reference, verdicts-eq-reference, retry_after-admits}
use npp_ai.Server.BodyLimit.{max_request_bytes, handled, receive, request_size_limit}
use npp_ai.Server.BodyLimit.Laws.{join, request_size_limit-handled, request_size_limit-answers}
use npp_ai.Server.Knowledge.{Sample, Store, broken, whole, submit_knowledge}
use npp_ai.Server.Knowledge.Laws.{Request, serve, successes, AllAdd, serve-accepted}

require_api_key_iff_example : (require_api_key (some (codes "k")) (some (codes "k")) ≡ ok tt) ↔ (
    (key : Text) × (some (codes "k") ≡ some key)
    × (some (codes "k") ≡ some key)
    × (key ≢ [])
    × (all (λ c. ltb c 128) key ≡ true))
require_api_key_iff_example = require_api_key_iff (some (codes "k")) (some (codes "k"))

positive_int_env-pos_example : 1 ≤ positive_int_env (λ t. some (pos 0)) (some (codes "0")) 60
positive_int_env-pos_example =
    positive_int_env-pos (λ t. some (pos 0)) (some (codes "0")) 60 (omega arith)

-- Two requests in a window of ten: the third is refused, the fourth is late enough.
two_in_ten : verdicts 2 10 [] (1 ∷ 2 ∷ 3 ∷ 11 ∷ []) ≡ true ∷ true ∷ false ∷ true ∷ []
unfolding verdicts admit expire
two_in_ten = refl

verdicts-eq-reference_example :
    verdicts 2 10 [] (1 ∷ 2 ∷ 3 ∷ 11 ∷ []) ≡ reference 2 10 [] (1 ∷ 2 ∷ 3 ∷ 11 ∷ [])
verdicts-eq-reference_example =
    verdicts-eq-reference 2 10 (1 ∷ 2 ∷ 3 ∷ 11 ∷ []) (omega arith, (omega arith, (omega arith, tt)))

refused_once : admit 1 2000000 1000000 (0 ∷ []) ≡ (limited 2, 0 ∷ [])
unfolding admit expire retry_after
refused_once = refl

retry_after-admits_example : (1 ≤ 2) × (is_admitted (admit 1 2000000 3000000 (0 ∷ [])).0 ≡ true)
retry_after-admits_example =
    retry_after-admits 1 2000000 1000000 3000000 2 (0 ∷ []) (0 ∷ []) (omega arith) (omega arith)
      (omega arith, tt) refused_once (omega arith)

abbrev count_bytes : Bytes → ℕ
count_bytes = length

abbrev parse_nothing : Text → Option ℤ
parse_nothing text = none

two_chunks :
    request_size_limit count_bytes parse_nothing none ((1 ∷ []) ∷ (2 ∷ 3 ∷ []) ∷ []) ≡ handled 3
unfolding request_size_limit receive
two_chunks = refl

request_size_limit-handled_example :
    (length (join ((1 ∷ []) ∷ (2 ∷ 3 ∷ []) ∷ [])) ≤ max_request_bytes)
    × (3 ≡ count_bytes (join ((1 ∷ []) ∷ (2 ∷ 3 ∷ []) ∷ [])))
request_size_limit-handled_example =
    request_size_limit-handled count_bytes parse_nothing none ((1 ∷ []) ∷ (2 ∷ 3 ∷ []) ∷ []) 3
      two_chunks

small_body : length (join ((1 ∷ []) ∷ [])) ≤ max_request_bytes
unfolding join
small_body = omega arith

request_size_limit-answers_example :
    (request_size_limit count_bytes parse_nothing (some (codes "x")) ((1 ∷ []) ∷ [])
      ≡ handled (count_bytes (join ((1 ∷ []) ∷ []))))
    ⊎ ((text : Text) × (some (codes "x") ≡ some text)
        × ((parse_nothing text ≡ none)
            ⊎ ((z : ℤ) × (parse_nothing text ≡ some z) × (z ≤ℤᵇ pos max_request_bytes ≡ false))))
request_size_limit-answers_example =
    request_size_limit-answers count_bytes parse_nothing (some (codes "x")) ((1 ∷ []) ∷ [])
      small_body

abbrev sample : Sample
sample = record { prompt = codes "p"; final_code = codes "c"; thought_process = codes "t" }

-- The second write breaks behind three bytes of its entry.
abbrev requests : List Request
requests = (sample, whole) ∷ (sample, broken 3) ∷ (sample, whole) ∷ []

abbrev fresh : Store
fresh = record { dataset = []; new_samples_count = 0; scheduled = 0 }

two_accepted :
    (successes (serve requests fresh).0 ≡ 2) × ((serve requests fresh).1.new_samples_count ≡ 2)
unfolding successes serve submit_knowledge encode npp_ai.Server.Knowledge.entry_of
two_accepted = (refl, refl)

serve-accepted_example :
    let (answers, final) = serve requests fresh in
    ((parts : List Bytes) × AllAdd requests answers parts × (final.dataset ≡ [] ++ join parts))
    × (final.scheduled ≡ 0 + successes answers / 5)
    × (final.new_samples_count ≡ successes answers % 5)
serve-accepted_example = serve-accepted requests fresh refl

-- Two calls of the training process, with the start of its task between them.
abbrev training_once : Training
training_once = run_training_process true (launch true (run_training_process true idle))

training_steps : TrainingSteps idle training_once
unfolding run_training_process launch npp_ai.Server.Training.is_busy
training_steps =
    then_training idle (launch true (run_training_process true idle)) training_once
      (then_training idle (run_training_process true idle)
        (launch true (run_training_process true idle))
        (then_training idle idle (run_training_process true idle) (at_start idle)
          (called true idle))
        (launched true (run_training_process true idle) refl))
      (called true (launch true (run_training_process true idle)))

TrainingSteps-IsSingle_example :
    (training_once.processes ≡ expected_processes training_once.task)
    × (training_once.processes ≤ 1)
TrainingSteps-IsSingle_example = TrainingSteps-IsSingle training_once training_steps
