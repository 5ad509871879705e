-- ===== src/Jobs/Tests.antt =====
-- A provision job on a small world, and the theorems on it.
--
-- The world is the table of the leases and the number of times that the creation of the services
-- still fails; such a failure asks for a restart from the pod's spec. The controller "a" runs job 7.
use admin_infra_proposed.Base.{
  ◌+◌, length, ℕ, ◌-◌, String, ◌≡◌, ◌≢◌, refl, ◌⊎◌, true, false, ◌&&◌, none, some, List, [], ◌∷◌,
  contains, from, without, ltb, ◌==◌, eq_iff, if◌then◌else◌, arith,
}
use admin_infra_proposed.JobControl.{Table, Recorded}
use admin_infra_proposed.JobControl
use admin_infra_proposed.Jobs.Types.{
  noprobe, provision, success, Failure, step_failed, other, dict, timeout, restart_of,
}
use admin_infra_proposed.Jobs.Plan.{Job, create, job_steps, restart_step}
use admin_infra_proposed.Jobs.Execute.{
  Env, Limits, State, Outcome, returned, raised, no_effect, not_done, Recording, written,
  ownership_lost, execute_step, max_attempts,
}
use admin_infra_proposed.Jobs.Execute.Policy.{IsJustified}
use admin_infra_proposed.Jobs.Execute.Exhausted.{IfExhausted, execute_step_warranted}
use admin_infra_proposed.Jobs.Execute.Rows.{execute_step-rows, Added}
use admin_infra_proposed.Jobs.Loop.{run_steps, fuel_spent, completed}
use admin_infra_proposed.Jobs.Loop.Complete.{Covers, Settles}
use admin_infra_proposed.Jobs.Loop.Planned.{AsksAsWritten, run_steps-plan}
use admin_infra_proposed.Jobs.Loop.Bounded.{run_steps-ends}
use admin_infra_proposed.Jobs.Finish.{Store, mine, present, run_input, run_loop}
use admin_infra_proposed.Jobs.Finish.Outcomes.{row_of, success_means_done}

record Toy : Type 0 where
  left : ℕ
  table : Table

abbrev services_failed : Failure
services_failed =
    step_failed (dict (some "SERVICE_CREATE_FAILED")) 500 none true (some "step_build_pod_spec")

abbrev recording : Recorded × Table → ℕ → Recording × Toy
recording (JobControl.recorded, t) n = (written, record { left = n; table = t })
recording (JobControl.lease_lost, t) n = (ownership_lost, record { left = n; table = t })

abbrev toy_step : String → Toy → Outcome × Toy
toy_step name t =
    if name == "step_create_services" && ltb 0 t.left
    then (raised services_failed, record t { left = t.left - 1 })
    else (returned, t)

-- The progress record is that of `JobControl`.
abbrev toy_env : Env Toy
toy_env = record {
  step = toy_step;
  hook = λ name t. t;
  observe = λ name t. (no_effect, t);
  judge = λ name t. (not_done, t);
  armed = λ name boundary t. (none, t);
  mark_fired = λ id t. (false, t);
  record_step = λ done t. recording (JobControl.record_step "a" 7 done "{}" t.table) t.left;
  skipped = λ t. false;
}

abbrev limits : Limits
limits = record { step_max = 3; verify_max = 5 }

abbrev start : Toy
start = record {
  left = 1;
  table = (7, record { owner = "a"; lease_until = 30; done_steps = []; saved_ctx = "{}" }) ∷ [];
}

abbrev job : Job
job = record {
  op = create;
  account = some [];
  supp_groups_only = [];
  pod_name = none;
  delete_account = false;
}

abbrev store : Store Toy
store = record {
  claim = λ t. (mine [], t);
  load_input = λ t. (present job, t);
  job_ended = λ t. (false, t);
  mark_running = λ t. (true, t);
  prepare = λ t. t;
  forget_place = λ t. t;
  undo = λ name t. (returned, t);
  publish = λ phase t. t;
  write_result = λ row t. (true, t);
  mark_done = λ row t. t;
  delete_input = λ t. t;
  release = λ t. t;
}

toy_asks :
    (name point : String) (e : Failure) (w : Toy)
    → (toy_env.step name w).0 ≡ raised e
    → restart_of e ≡ some point
    → (name ≡ "step_create_services") × (point ≡ "step_build_pod_spec")
toy_asks name point e w h r = ground (arith, h, r, eq_iff name "step_create_services")

abbrev plan : List String
plan = job_steps noprobe provision job

toy_restarts : AsksAsWritten toy_env
unfolding restart_step
toy_restarts name point e w h r = let (p, q) = toy_asks name point e w h r in rw (p, q) refl

-- The first try of the services fails, and the job is rewound and ends well.
job_succeeds :
    row_of (run_input store toy_env limits noprobe provision true [] (present job, start)).0
    ≡ some (record { phase = success; error_code = none; undone = none })
unfolding row_of run_input run_steps execute_step job_steps contains from without
    JobControl.record_step
job_succeeds = refl

success_means_done_example :
    let (end, done, s) = run_loop store toy_env limits noprobe provision true job [] start in
    (end ≡ completed) × ((false ≡ true) ⊎ Settles (job_steps noprobe provision job) done)
success_means_done_example =
    success_means_done store toy_env limits noprobe provision true [] job start
      (record { phase = success; error_code = none; undone = none }) toy_restarts job_succeeds refl

run_steps-plan_example :
    Covers toy_env limits noprobe true plan
      (run_steps toy_env limits noprobe true plan [] (record { world = start; rows = [] }))
run_steps-plan_example =
    run_steps-plan toy_env limits noprobe true provision job toy_restarts []
      (record { world = start; rows = [] })

run_steps-ends_example :
    (run_steps toy_env limits noprobe true plan [] (record { world = start; rows = [] })).0
    ≢ fuel_spent
run_steps-ends_example =
    run_steps-ends toy_env limits noprobe true plan [] (record { world = start; rows = [] })

abbrev at_services : State Toy
at_services = record { world = start; rows = [] }

execute_step_warranted_example :
    let r = execute_step toy_env limits noprobe "step_create_services" at_services in
    IsJustified noprobe "step_create_services" r.0
    × IfExhausted
        (length r.1.rows ≡ 0 + (max_attempts toy_env limits noprobe "step_create_services" - 1))
        r.0
execute_step_warranted_example =
    execute_step_warranted toy_env noprobe "step_create_services" limits at_services

execute_step-rows_example :
    Added "step_create_services" 1
      (max_attempts toy_env limits noprobe "step_create_services" - 1)
      []
      (execute_step toy_env limits noprobe "step_create_services" at_services).1.rows
execute_step-rows_example =
    execute_step-rows toy_env noprobe "step_create_services" limits at_services

-- The read of a step's answer timed out, and the step may run twice.
abbrev timed_out : Failure
timed_out = other "ReadTimeout" timeout
