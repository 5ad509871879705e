-- ===== src/Jobs/Plan/Tests.antt =====
-- The plans of a provision job with a new group, and of a revocation of an account and its pod.
use admin_infra_proposed.Base.{◌≡◌, refl, true, false, none, some, [], ◌∷◌, contains, up_to}
use admin_infra_proposed.Jobs.Types.{full, provision}
use admin_infra_proposed.Jobs.Plan.{Job, create, any_new, job_steps, restart_step}
use admin_infra_proposed.Jobs.Plan.Order.{restarts_backward}

abbrev job : Job
job = record {
  op = create;
  account = some (record { name = "lab"; gid = none } ∷ []);
  supp_groups_only = [];
  pod_name = some "pod-1";
  delete_account = true;
}

abbrev fetch : Job
fetch = record job { delete_account = false }

asks_restart : restart_step "step_create_services" ≡ some "step_build_pod_spec"
unfolding restart_step
asks_restart = refl

has_restart_point : contains "step_build_pod_spec" (job_steps full provision fetch) ≡ true
unfolding contains job_steps any_new
has_restart_point = refl

restarts_backward_example :
    contains "step_build_pod_spec" (up_to "step_create_services" (job_steps full provision fetch))
    ≡ true
restarts_backward_example =
    restarts_backward full provision fetch "step_create_services" "step_build_pod_spec" asks_restart
      has_restart_point
