-- ===== src/Journal/Tests.antt =====
-- The provision of request 7, with another job before it.
use admin_infra_proposed.Base.{◌≤◌, ◌<◌, ℕ, ◌≡◌, refl, true, false, List, [], ◌∷◌, contains}
use admin_infra_proposed.Jobs.Types.{start, success}
use admin_infra_proposed.Journal.{
  Board, Stores, accepted, job_already_registered, register_job, save_job_input, load_job_input,
  set_input, delete_job_input, saved, log_start, append_row, find_unfinished_jobs, record_end,
  job_actions, job_end_exists, running,
}
use admin_infra_proposed.Journal.Found.{ids_below, has_id, place}
use admin_infra_proposed.Journal.Registered.{
  Op, registers, ends, runs, logs, run, Spares, AllSpare, registered_until_end,
}
use admin_infra_proposed.Journal.Leftover.{HasInput, leftover_input}

abbrev up : Stores
up = record { saves = true; logs = true; deletes = true }

abbrev board : Board
board = record {
  log = record { id = 3; action = "REVOKE"; request_id = "5"; phase = start } ∷ [];
  next_id = 4;
  inputs = record { action = "REVOKE"; request_id = "5"; state = running } ∷ [];
}

abbrev ops : List Op
ops =
    runs "PROVISION" "7"
    ∷ registers up "PROVISION" "7"
    ∷ logs "STEP_PREPARE_POD" "7" success
    ∷ ends true false true "REVOKE" "5" success
    ∷ []

spared : AllSpare "PROVISION" "7" ops
unfolding Spares AllSpare
spared = (tt, (tt, (refl, (refl, tt))))

is_accepted : (register_job up "PROVISION" "7" board).0 ≡ accepted 4
unfolding register_job save_job_input load_job_input set_input delete_job_input saved log_start
    append_row
is_accepted = refl

ids : ids_below 4 board.log ≡ true
unfolding ids_below
ids = refl

is_job : contains "PROVISION" job_actions ≡ true
unfolding contains
is_job = refl

registered_until_end_example :
    let first = (register_job up "PROVISION" "7" board).1.log in
    let later = (run ops (register_job up "PROVISION" "7" board).1).log in
    (place later 4 later ≤ place first 4 first)
    × (place later 4 later < 100 → has_id 4 (find_unfinished_jobs 100 later) ≡ true)
registered_until_end_example =
    registered_until_end up "PROVISION" "7" board ops 100 ids is_job is_accepted spared

spared_revoke : AllSpare "REVOKE" "5" (registers up "PROVISION" "7" ∷ [])
unfolding Spares AllSpare
spared_revoke = (tt, tt)

has_input : HasInput "REVOKE" "5" board
unfolding load_job_input
has_input = (running, refl)

leftover_input_example :
    let later =
      run
        (registers up "PROVISION" "7" ∷ [])
        (record_end true false true "REVOKE" "5" success board) in
    ((register_job up "REVOKE" "5" later).0 ≡ job_already_registered)
    × ((id : ℕ) → id < 4 → job_end_exists "REVOKE" "5" id later.log ≡ true)
leftover_input_example =
    leftover_input up true "REVOKE" "5" success board (registers up "PROVISION" "7" ∷ []) has_input
      refl refl spared_revoke
