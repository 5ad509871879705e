-- ===== src/Jobs/Plan/Order.antt =====
-- The order of the steps in the plan of every job.
use admin_infra_proposed.Base.{
  String, Bool, true, false, ◌&&◌, ◌≡◌, refl, ◌⊎◌, inl, inr, eq_iff, none, some, List, [], ◌∷◌,
  ◌++◌, arith, contains, distinct, up_to, if◌then◌else◌,
}
use admin_infra_proposed.Jobs.Types.{
  Mode, noprobe, full, Kind, provision, revoke, migrate, group, home,
}
use admin_infra_proposed.Jobs.Plan.{
  Job, Group, restart_step, has_pod, any_new, job_steps, verify_access_steps, migrate_steps_init,
  migrate_steps_last,
}

-- In every mode, no job has a step twice: a step's name tells its place, as rewinding and the
-- progress record need.
pub job_steps-distinct :
    (mode : Mode) (kind : Kind) (job : Job) → distinct (job_steps mode kind job) ≡ true
unfolding distinct job_steps any_new
job_steps-distinct mode provision job = ground arith
job_steps-distinct mode revoke job = ground arith
job_steps-distinct mode migrate job = ground arith
job_steps-distinct mode group job = ground arith
job_steps-distinct mode _ job = refl

abbrev pub with_account : Job → Bool
with_account job = elim job.account [ none ↦ false | some _ ↦ true ]

-- The supplementary groups that a provision job uses: the account's, or else those for an
-- existing account.
abbrev pub groups_of : Job → List Group
groups_of job = elim job.account [ none ↦ job.supp_groups_only | some gs ↦ gs ]

-- In full mode a provision job ends with the five access tests, after all that it runs without
-- them, and it begins with the step that gives new groups a gid exactly when a group has none.
pub provision_shape :
    (job : Job)
    → (job_steps full provision job ≡ job_steps noprobe provision job ++ verify_access_steps)
      × (contains "step_resolve_new_groups" (job_steps full provision job)
          ≡ any_new (groups_of job))
      × (up_to "step_resolve_new_groups" (job_steps full provision job) ≡ (
          if any_new (groups_of job)
          then "step_resolve_new_groups" ∷ []
          else job_steps full provision job))
      × (contains "step_create_account" (job_steps full provision job) ≡ with_account job)
unfolding job_steps contains any_new up_to
provision_shape job = ground arith

-- A full migration tests the new pod before it cleans up the old one, and the clean-up is the
-- last step in every mode.
pub migrate_shape :
    (mode : Mode) (job : Job)
    → (job_steps full migrate job ≡ migrate_steps_init ++ verify_access_steps ++ migrate_steps_last)
      × (up_to "step_migrate_cleanup_old" (job_steps mode migrate job) ≡ job_steps mode migrate job)
      × (contains "step_create_services" (up_to "step_verify_uid" (job_steps full migrate job))
          ≡ true)
unfolding job_steps contains up_to
migrate_shape mode job = ground arith

abbrev pub is_revoke : Kind → Bool
is_revoke revoke = true
is_revoke _ = false

abbrev pub is_home : Kind → Bool
is_home home = true
is_home _ = false

pub deletions :
    (mode : Mode) (kind : Kind) (job : Job)
    → (contains "step_delete_account" (job_steps mode kind job)
        ≡ is_revoke kind && job.delete_account)
      × (contains "step_delete_expired_home" (job_steps mode kind job) ≡ is_home kind)
      × (contains "step_check_account_revocable"
            (up_to "step_delete_account" (job_steps mode revoke job))
          ≡ job.delete_account)
      × (contains "step_delete_pod_k8s" (up_to "step_delete_account" (job_steps mode revoke job))
          ≡ has_pod job)
unfolding job_steps contains up_to
deletions mode provision job = ground arith
deletions mode revoke job = ground arith
deletions mode group job = ground arith
deletions mode _ job = ground arith

restart_step_lem :
    (name point : String)
    → restart_step name ≡ some point
    → ((point ≡ "step_build_pod_spec")
        × ((name ≡ "step_create_pod_k8s")
            ⊎ (name ≡ "step_wait_ready")
            ⊎ (name ≡ "step_create_services")))
      ⊎ ((point ≡ "step_create_account")
          × ((name ≡ "step_create_home") ⊎ (name ≡ "step_create_krb5_principal")))
unfolding restart_step
restart_step_lem name point h = ground (
  arith,
  h,
  eq_iff name "step_create_pod_k8s",
  eq_iff name "step_wait_ready",
  eq_iff name "step_create_services",
  eq_iff name "step_create_home",
  eq_iff name "step_create_krb5_principal",
)

after_create :
    (mode : Mode) (kind : Kind) (job : Job)
    → contains "step_build_pod_spec" (job_steps mode kind job) ≡ true
    → contains "step_build_pod_spec" (up_to "step_create_pod_k8s" (job_steps mode kind job)) ≡ true
unfolding job_steps contains up_to
after_create mode provision job h = ground (arith, h)
after_create mode revoke job h = ground (arith, h)
after_create mode migrate job h = ground (arith, h)
after_create mode group job h = ground (arith, h)
after_create mode _ job h = ground (arith, h)

after_wait :
    (mode : Mode) (kind : Kind) (job : Job)
    → contains "step_build_pod_spec" (job_steps mode kind job) ≡ true
    → contains "step_build_pod_spec" (up_to "step_wait_ready" (job_steps mode kind job)) ≡ true
unfolding job_steps contains up_to
after_wait mode provision job h = ground (arith, h)
after_wait mode revoke job h = ground (arith, h)
after_wait mode migrate job h = ground (arith, h)
after_wait mode group job h = ground (arith, h)
after_wait mode _ job h = ground (arith, h)

after_services :
    (mode : Mode) (kind : Kind) (job : Job)
    → contains "step_build_pod_spec" (job_steps mode kind job) ≡ true
    → contains "step_build_pod_spec" (up_to "step_create_services" (job_steps mode kind job)) ≡ true
unfolding job_steps contains up_to
after_services mode provision job h = ground (arith, h)
after_services mode revoke job h = ground (arith, h)
after_services mode migrate job h = ground (arith, h)
after_services mode group job h = ground (arith, h)
after_services mode _ job h = ground (arith, h)

after_home :
    (mode : Mode) (kind : Kind) (job : Job)
    → contains "step_create_account" (job_steps mode kind job) ≡ true
    → contains "step_create_account" (up_to "step_create_home" (job_steps mode kind job)) ≡ true
unfolding job_steps contains up_to
after_home mode provision job h = ground (arith, h)
after_home mode revoke job h = ground (arith, h)
after_home mode migrate job h = ground (arith, h)
after_home mode group job h = ground (arith, h)
after_home mode _ job h = ground (arith, h)

after_principal :
    (mode : Mode) (kind : Kind) (job : Job)
    → contains "step_create_account" (job_steps mode kind job) ≡ true
    → contains "step_create_account" (up_to "step_create_krb5_principal" (job_steps mode kind job))
      ≡ true
unfolding job_steps contains up_to
after_principal mode provision job h = ground (arith, h)
after_principal mode revoke job h = ground (arith, h)
after_principal mode migrate job h = ground (arith, h)
after_principal mode group job h = ground (arith, h)
after_principal mode _ job h = ground (arith, h)

-- In every mode and for every job, the step that a failure restarts from stands before the step that
-- failed, in the plans that have both.
pub restarts_backward :
    (mode : Mode) (kind : Kind) (job : Job) (name point : String)
    → restart_step name ≡ some point
    → contains point (job_steps mode kind job) ≡ true
    → contains point (up_to name (job_steps mode kind job)) ≡ true
restarts_backward mode kind job name point h k = elim (restart_step_lem name point h) [
  | inl (p, inl q) ↦ rw (p, q) (after_create mode kind job (rw p at k))
  | inl (p, inr (inl q)) ↦ rw (p, q) (after_wait mode kind job (rw p at k))
  | inl (p, inr (inr q)) ↦ rw (p, q) (after_services mode kind job (rw p at k))
  | inr (p, inl q) ↦ rw (p, q) (after_home mode kind job (rw p at k))
  | inr (p, inr q) ↦ rw (p, q) (after_principal mode kind job (rw p at k))
]
