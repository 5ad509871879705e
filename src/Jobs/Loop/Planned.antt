-- ===== src/Jobs/Loop/Planned.antt =====
-- What the end of the loop says of the plan of a job, with the restarts that the steps ask for.
use admin_infra_proposed.Base.{String, Bool, ◌≡◌, some, List}
use admin_infra_proposed.Jobs.Types.{Mode, Kind, Failure, restart_of}
use admin_infra_proposed.Jobs.Plan.{Job, job_steps, restart_step}
use admin_infra_proposed.Jobs.Plan.Order.{job_steps-distinct, restarts_backward}
use admin_infra_proposed.Jobs.Execute.{Env, Limits, State, raised}
use admin_infra_proposed.Jobs.Loop.{run_steps}
use admin_infra_proposed.Jobs.Loop.Complete.{Covers, run_steps-Covers}

-- The restarts that the failures of the steps ask for are those of the source.
abbrev pub AsksAsWritten : {W : Type 0} → Env W → Type 0
AsksAsWritten {W} env =
    (name point : String) (e : Failure) (w : W)
    → (env.step name w).0 ≡ raised e
    → restart_of e ≡ some point
    → restart_step name ≡ some point

-- When the loop over the plan of a job ends by its test, and not because a migration has no reason
-- to move, every step of the plan is recorded as done, those apart that run again in every run
-- (ALWAYS_RERUN) and step_build_pod_spec, which is recorded with the step after it. The steps may
-- do and raise anything, but those that ask for a restart ask for the one that the source names,
-- which in every plan goes back. Steps that an earlier run left done count.
pub run_steps-plan :
    {W : Type 0} (env : Env W) (limits : Limits) (mode : Mode) (tracked : Bool) (kind : Kind)
    (job : Job)
    → AsksAsWritten env
    → (done : List String) (s : State W)
    → Covers env limits mode tracked
        (job_steps mode kind job)
        (run_steps env limits mode tracked (job_steps mode kind job) done s)
run_steps-plan env limits mode tracked kind job asks =
    run_steps-Covers env limits mode tracked (job_steps mode kind job)
      (job_steps-distinct mode kind job)
      (λ name point e w r a. restarts_backward mode kind job name point (asks name point e w r a))
