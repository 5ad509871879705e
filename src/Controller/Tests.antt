-- ===== src/Controller/Tests.antt =====
-- Three jobs for a controller of one worker and of two.
use admin_infra_proposed.Base.{◌<◌, ℕ, String, ◌≡◌, refl, true, List, [], ◌∷◌, length, arith}
use admin_infra_proposed.Controller.{FoundJob, is_running, turn, visit_job, job_done, jobs_done}
use admin_infra_proposed.Controller.Turns.{each_once, rounds, ever_started, ahead, job_starts}

abbrev job : String → ℕ → FoundJob
job request id = record { kind = "provision"; request_id = request; job_id = id }

abbrev three : List FoundJob
three = job "1" 10 ∷ job "2" 20 ∷ job "3" 30 ∷ []

-- FoundJob 1 is found again while it runs; it ends before job 3 is looked at.
abbrev looked_at : List (List FoundJob × FoundJob)
looked_at = ([], job "1" 10) ∷ ([], job "2" 20) ∷ (job "1" 10 ∷ [], job "3" 30) ∷ []

two_workers :
    turn 2 looked_at (job "1" 10 ∷ [])
    ≡ (job "2" 20 ∷ job "3" 30 ∷ [], job "3" 30 ∷ job "2" 20 ∷ [])
unfolding turn visit_job jobs_done job_done is_running
two_workers = refl

runs_once : each_once (job "1" 10 ∷ []) ≡ true
unfolding each_once is_running
runs_once = refl

abbrev news : List (List FoundJob)
news = (job "4" 40 ∷ []) ∷ [] ∷ [] ∷ []

is_found : is_running (job "3" 30) three ≡ true
unfolding is_running
is_found = refl

few_ahead : ahead (job "3" 30) three < length news
unfolding ahead
few_ahead = omega arith

job_starts_example : ever_started (job "3" 30) (rounds 1 news [] three) ≡ true
job_starts_example = job_starts 0 (job "3" 30) news three is_found few_ahead
