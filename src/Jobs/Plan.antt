-- ===== src/Jobs/Plan.antt =====
-- The steps of a job: `_job_steps` of config-server/application/jobs.py, with the step lists of
-- config-server/lifecycle_steps/. A step is known by its name, as in the progress record.
pub mod Order
mod Tests
use admin_infra_proposed.Base.{
  String, Bool, true, false, ◌&&◌, ◌||◌, Option, none, some, List, [], ◌∷◌, ◌++◌, if◌then◌else◌, ℕ,
  ◌==◌,
}
use admin_infra_proposed.Jobs.Types.{
  Mode, is_full, Kind, provision, revoke, migrate, password, group, home, port, access, non_empty,
}

-- lifecycle_steps/provision.py
abbrev pub pod_create_steps : List String
pod_create_steps =
    "step_fetch_user_config" ∷ "step_prepare_pod" ∷ "step_select_node" ∷ "step_build_pod_spec"
    ∷ "step_create_pod_k8s" ∷ "step_wait_ready" ∷ "step_create_services" ∷ []

abbrev pub account_create_steps : List String
account_create_steps =
    "step_create_account" ∷ "step_create_home" ∷ "step_create_krb5_principal"
    ∷ "step_await_ad_replication" ∷ "step_sync_ad_groups" ∷ []

abbrev pub supp_groups_only_steps : List String
supp_groups_only_steps =
    "step_add_user_groups" ∷ "step_sync_ad_groups" ∷ "step_trigger_nas_gss_flush" ∷ []

-- lifecycle_steps/revoke.py
abbrev pub pod_delete_steps : List String
pod_delete_steps =
    "step_delete_services" ∷ "step_release_nodeports" ∷ "step_delete_pod_k8s"
    ∷ "step_remove_node_image" ∷ "step_cleanup_pod_node_krb5" ∷ []

-- lifecycle_steps/migrate.py, without its last step
abbrev pub migrate_steps_init : List String
migrate_steps_init =
    "step_migrate_select_target" ∷ "step_fetch_user_config" ∷ "step_migrate_inherit_password"
    ∷ "step_prepare_pod" ∷ "step_migrate_commit_image" ∷ "step_build_pod_spec"
    ∷ "step_create_pod_k8s" ∷ "step_wait_ready" ∷ "step_create_services" ∷ []

abbrev pub migrate_steps_last : List String
migrate_steps_last = "step_migrate_cleanup_old" ∷ []

abbrev pub migrate_steps : List String
migrate_steps = migrate_steps_init ++ migrate_steps_last

-- lifecycle_steps/verify.py
abbrev pub verify_access_steps : List String
verify_access_steps =
    "step_verify_uid" ∷ "step_verify_krb5" ∷ "step_verify_home_io" ∷ "step_verify_gpu"
    ∷ "step_verify_endpoint" ∷ []

-- `op` of a group job
pub data GroupOp : Type 0 where
  create add remove : GroupOp

group_steps : GroupOp → List String
group_steps create = "step_group_create" ∷ []
group_steps add = "step_group_add_member" ∷ []
group_steps remove = "step_group_remove_member" ∷ []

-- A supplementary group of a job: its name, and its gid unless the group is new.
pub record Group : Type 0 where
  pub name : String
  pub gid : Option ℕ

-- What `_job_steps` reads of the job's input. An absent account, no groups, no pod name and an
-- empty pod name are false in Python.
pub record Job : Type 0 where
  pub op : GroupOp
  pub account : Option (List Group)
  pub supp_groups_only : List Group
  pub pod_name : Option String
  pub delete_account : Bool

unfoldable pub any_new : List Group → Bool
any_new [] = false
any_new (g ∷ gs) = elim g.gid [ none ↦ true | some _ ↦ any_new gs ]

-- `job.get("pod_name")` as a truth value
abbrev pub has_pod : Job → Bool
has_pod job = elim (non_empty job.pod_name) [ none ↦ false | some _ ↦ true ]

-- The provision branch: the steps and the supplementary groups.
provision_base : Option (List Group) → List Group → List String × List Group
provision_base (some groups) only = (account_create_steps ++ pod_create_steps, groups)
provision_base none (g ∷ gs) =
    (supp_groups_only_steps ++ "step_restore_missing_home" ∷ pod_create_steps, g ∷ gs)
provision_base none [] = ("step_restore_missing_home" ∷ pod_create_steps, [])

provision_steps : Mode → Job → List String
unfolding provision_base any_new
provision_steps mode job =
    let (base, groups) = provision_base job.account job.supp_groups_only in
    let steps = if any_new groups then "step_resolve_new_groups" ∷ base else base in
    if is_full mode then steps ++ verify_access_steps else steps

migrate_plan : Mode → List String
migrate_plan mode =
    if is_full mode
    then migrate_steps_init ++ verify_access_steps ++ migrate_steps_last
    else migrate_steps

revoke_base : Job → List String
revoke_base job =
    (if has_pod job then pod_delete_steps else [])
    ++ (if job.delete_account
        then "step_check_account_revocable" ∷ "step_delete_account" ∷ "step_remove_krb5" ∷ []
        else [])

-- `_main.VERIFY_MODE == "full" and steps`
revoke_steps : Mode → Job → List String
unfolding revoke_base
revoke_steps mode job =
    if is_full mode && (has_pod job || job.delete_account)
    then (if has_pod job then "step_capture_access_targets" ∷ [] else [])
      ++ revoke_base job
      ++ (if has_pod job then "step_verify_revoked" ∷ [] else [])
      ++ (if job.delete_account then "step_verify_account_revoked" ∷ [] else [])
    else revoke_base job

-- The step that the failures of a step ask to restart from: POD_RESTART_STEP and
-- ACCOUNT_RESTART_STEP of provision.py, with the steps that raise a StepFailed with one of them.
unfoldable pub restart_step : String → Option String
restart_step name =
    if name == "step_create_pod_k8s" || name == "step_wait_ready" || name == "step_create_services"
    then some "step_build_pod_spec"
    else if name == "step_create_home" || name == "step_create_krb5_principal"
    then some "step_create_account"
    else none

unfoldable pub job_steps : Mode → Kind → Job → List String
unfolding group_steps provision_steps migrate_plan revoke_steps
job_steps mode password job = "step_change_login_password" ∷ []
job_steps mode home job = "step_delete_expired_home" ∷ []
job_steps mode port job = "step_change_ports" ∷ []
job_steps mode access job = "step_set_account_access" ∷ []
job_steps mode group job = group_steps job.op
job_steps mode migrate job = migrate_plan mode
job_steps mode provision job = provision_steps mode job
job_steps mode revoke job = revoke_steps mode job
