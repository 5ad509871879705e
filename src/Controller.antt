-- ===== src/Controller.antt =====
-- The controller's loop: `main` of config-server/entrypoints/controller.py. A worker's end is its
-- callback `_done`, which may come before any job of the list is looked at.
pub mod Turns
mod Tests
use admin_infra_proposed.Base.{
  ℕ, zero, suc, String, Bool, true, false, not, ◌&&◌, ◌||◌, List, [], ◌∷◌, ◌++◌, if◌then◌else◌, leb,
  ◌==◌, length,
}
use admin_infra_proposed.JobControl.{Table, renew}

-- A job that the log gives; `running` is keyed by its kind and request.
pub record FoundJob : Type 0 where
  pub kind : String
  pub request_id : String
  pub job_id : ℕ

abbrev pub same_job : FoundJob → FoundJob → Bool
same_job j k = j.kind == k.kind && j.request_id == k.request_id

unfoldable pub is_running : FoundJob → List FoundJob → Bool
is_running j [] = false
is_running j (k ∷ running) = same_job j k || is_running j running

unfoldable pub job_done : FoundJob → List FoundJob → List FoundJob
job_done j [] = []
job_done j (k ∷ running) = let rest = job_done j running in if same_job j k then rest else k ∷ rest

unfoldable pub jobs_done : List FoundJob → List FoundJob → List FoundJob
unfolding job_done
jobs_done [] running = running
jobs_done (j ∷ js) running = jobs_done js (job_done j running)

-- The body of the loop over the jobs that were found: whether the job is started, and what runs.
unfoldable pub visit_job : ℕ → FoundJob → List FoundJob → Bool × List FoundJob
unfolding is_running
visit_job workers j running =
    if is_running j running || leb workers (length running)
    then (false, running)
    else (true, j ∷ running)

abbrev add_started : Bool → FoundJob → List FoundJob × List FoundJob → List FoundJob × List FoundJob
add_started true j (started, running) = (j ∷ started, running)
add_started false j (started, running) = (started, running)

-- One turn over the jobs found, each with the jobs that ended before it is looked at: the jobs
-- started, and what runs afterwards.
unfoldable pub turn :
    ℕ → List (List FoundJob × FoundJob) → List FoundJob → List FoundJob × List FoundJob
unfolding visit_job jobs_done
turn workers [] running = ([], running)
turn workers ((ended, j) ∷ jobs) running =
    let (started, running') = visit_job workers j (jobs_done ended running) in
    add_started started j (turn workers jobs running')

unfoldable pub held : List FoundJob → List ℕ
held [] = []
held (j ∷ running) = j.job_id ∷ held running

-- A turn with the renewal of the leases of what runs then, where the table can be reached.
unfoldable pub poll :
    String
    → ℕ
    → ℕ
    → ℕ
    → List (List FoundJob × FoundJob)
    → List FoundJob × Table
    → (List FoundJob × List FoundJob) × Table
unfolding turn held
poll owner ttl now workers jobs (running, table) =
    let (started, running') = turn workers jobs running in
    ((started, running'), renew owner ttl now (held running') table)
