-- ===== src/Requests/Valid.antt =====
-- What a valid request promises the job that it registers.
use admin_infra_proposed.Base.{
  ap, ◌∙◌, ℕ, ◌≤◌, String, ◌≡◌, ◌≢◌, refl, true, false, ◌||◌, Option, some, List, [], ◌∷◌, arith,
  length, contains,
}
use admin_infra_proposed.Jobs.Types.{Mode, revoke, non_empty}
use admin_infra_proposed.Jobs.Plan.{Job, has_pod, job_steps}
use admin_infra_proposed.Jobs.Plan.Order.{deletions}
use admin_infra_proposed.Ledger.{elem}
use admin_infra_proposed.Requests.{
  RevokeRequest, validate_revoke, check_revoke, is_given, PortSpec, numbers, spec_ok, specs_ok,
  no_repeat, none_protected, validate_ports, protected_ports,
}

plans_pod :
    (mode : Mode) (job : Job)
    → contains "step_delete_pod_k8s" (job_steps mode revoke job) ≡ has_pod job
unfolding job_steps contains
plans_pod mode job = ground arith

valid_revoke :
    (r r' : RevokeRequest)
    → validate_revoke r ≡ some r'
    → (is_given (non_empty r'.pod_name) ≡ is_given r'.pod_name)
      × ((is_given r'.pod_name || r'.delete_account) ≡ true)
      × (validate_revoke r' ≡ some r')
unfolding validate_revoke check_revoke
valid_revoke r r' h = (ground (arith, h), ground (arith, h), ground (arith, h))

-- A valid revocation, in every mode, plans the deletion of the pod exactly when it names one and
-- that of the account exactly when it asks for it, and it plans one of the two; and it is valid as
-- it is stored.
pub revoke_does_something :
    (mode : Mode) (r r' : RevokeRequest) (job : Job)
    → validate_revoke r ≡ some r'
    → job.pod_name ≡ r'.pod_name
    → job.delete_account ≡ r'.delete_account
    → (contains "step_delete_pod_k8s" (job_steps mode revoke job) ≡ is_given r'.pod_name)
      × (contains "step_delete_account" (job_steps mode revoke job) ≡ r'.delete_account)
      × ((is_given r'.pod_name || r'.delete_account) ≡ true)
      × (validate_revoke r' ≡ some r')
revoke_does_something mode r r' job h p d =
    let (named, some_target, again) = valid_revoke r r' h in
    (
      plans_pod mode job
          ∙ has_pod_given job.pod_name job refl
          ∙ ap (λ o. is_given (non_empty o)) p
          ∙ named,
      (deletions mode revoke job).0 ∙ d,
      some_target,
      again,
    )
  where
    has_pod_given :
        (o : Option String) (job : Job) → job.pod_name ≡ o → has_pod job ≡ is_given (non_empty o)
    has_pod_given o job q = ap (λ x. is_given (non_empty x)) q

elem-none_protected :
    (n : ℕ) (ns : List ℕ)
    → none_protected ns ≡ true
    → elem n ns ≡ true
    → elem n protected_ports ≡ false
unfolding none_protected elem
elem-none_protected n [] h k = ground (arith, k)
elem-none_protected n (m ∷ ns) h k = ground (arith, h, k, elem-none_protected n ns)

elem-specs_ok :
    (lower : String → String) (size : String → ℕ) (n : ℕ) (ps : List PortSpec)
    → specs_ok lower size ps ≡ true
    → elem n (numbers ps) ≡ true
    → (1 ≤ n) × (n ≤ 65535)
unfolding specs_ok spec_ok elem numbers
elem-specs_ok lower size n [] h k = ground (arith, k)
elem-specs_ok lower size n (p ∷ ps) h k = ground (arith, h, k, elem-specs_ok lower size n ps)

-- A valid change of ports has at most ten ports, none twice, each between 1 and 65535 and none of
-- the protected ones.
pub valid_ports :
    (lower : String → String) (size : String → ℕ) (pod : String) (ps : List PortSpec)
    → validate_ports lower size pod ps ≡ true
    → (length ps ≤ 10)
      × (no_repeat (numbers ps) ≡ true)
      × ((n : ℕ)
          → elem n (numbers ps) ≡ true
          → (1 ≤ n) × (n ≤ 65535) × (n ≢ 22) × (n ≢ 8888) × (n ≢ 6080))
unfolding validate_ports elem
valid_ports lower size pod ps h = (
  ground (arith, h),
  ground (arith, h),
  λ n k. ground (arith, h, k, elem-specs_ok lower size n ps, elem-none_protected n (numbers ps)),
)
