-- ===== src/Jobs/Execute.antt =====
-- One step under the retry policy: `_execute_step` of config-server/application/jobs.py.
--
-- The world `W` is all that a step can see and change: the job's context, the cluster, the account
-- files, the databases, and what other processes do meanwhile. The step functions and the other
-- calls that reach it are an `Env`.
pub mod Policy
pub mod Rows
pub mod Exhausted
pub mod Restarts
use admin_infra_proposed.Base.{
  ℕ, zero, suc, ◌+◌, String, Bool, true, false, not, ◌&&◌, ◌||◌, Option, none, some, List, [], ◌∷◌,
  ◌++◌, contains, ◌=ℕ◌, if◌then◌else◌,
}
use admin_infra_proposed.Jobs.Types.{
  Mode, is_baseline, Exn, timeout, plain, caused_by, Failure, other, is_unknown, may_retry,
  restart_of, is_client_error, retry_code,
}
use admin_infra_proposed.Jobs.Plan.{verify_access_steps}

-- How a step function ends: it returns, raises LeaseLost, or raises something else.
pub data Outcome : Type 0 where
  returned : Outcome
  lost_lease : Outcome
  raised : Failure → Outcome

-- What an entry of STEP_OBSERVERS returns, or that it raises.
pub data Observation : Type 0 where
  effect_seen no_effect : Observation
  observer_raised : Failure → Observation

-- What an entry of RESUME_JUDGES returns, or the exception it wraps as OBSERVE_FAILED.
pub data Judgement : Type 0 where
  already_done not_done : Judgement
  judge_raised : Failure → Judgement

-- What `job_control.record_step` does: it records, raises LeaseLost, or fails otherwise.
pub data Recording : Type 0 where
  written ownership_lost : Recording
  write_raised : Failure → Recording

-- A row of fault_arming, as `armed` returns it: its id, and whether it has fired.
pub record Fault : Type 0 where
  pub id : ℕ
  pub fired : Bool

pub record Env (W : Type 0) : Type 0 where
  pub step : String → W → Outcome × W
  pub hook : String → W → W
  pub observe : String → W → Observation × W
  pub judge : String → W → Judgement × W
  pub armed : String → String → W → Option Fault × W
  pub mark_fired : ℕ → W → Bool × W
  pub record_step : List String → W → Recording × W
  pub skipped : W → Bool

-- STEP_MAX_ATTEMPTS and VERIFY_MAX_ATTEMPTS
pub record Limits : Type 0 where
  pub step_max : ℕ
  pub verify_max : ℕ

abbrev pub step_observers : List String
step_observers = "step_create_account" ∷ "step_create_krb5_principal" ∷ "step_create_pod_k8s" ∷ []

abbrev pub rerun_safe : List String
rerun_safe =
    "step_fetch_user_config" ∷ "step_prepare_pod" ∷ "step_select_node" ∷ "step_build_pod_spec"
    ∷ "step_create_home" ∷ "step_wait_ready" ∷ "step_create_services" ∷ "step_delete_services"
    ∷ "step_release_nodeports" ∷ "step_delete_pod_k8s" ∷ "step_remove_node_image"
    ∷ "step_cleanup_pod_node_krb5" ∷ "step_check_account_revocable" ∷ "step_delete_account"
    ∷ "step_remove_krb5" ∷ "step_migrate_select_target" ∷ "step_migrate_inherit_password"
    ∷ "step_migrate_commit_image" ∷ "step_migrate_cleanup_old" ∷ "step_add_user_groups"
    ∷ "step_sync_ad_groups" ∷ "step_await_ad_replication" ∷ "step_change_login_password"
    ∷ "step_delete_expired_home" ∷ "step_restore_missing_home" ∷ "step_group_create"
    ∷ "step_group_add_member" ∷ "step_group_remove_member" ∷ "step_resolve_new_groups"
    ∷ "step_change_ports" ∷ "step_set_account_access" ∷ []

-- RERUN_SAFE_STEPS of lifecycle_steps/verify.py
abbrev pub verify_rerun_safe : List String
verify_rerun_safe =
    verify_access_steps
    ++ "step_capture_access_targets" ∷ "step_verify_revoked" ∷ "step_verify_account_revoked" ∷ []

-- the keys of PRE_STEP
abbrev pub pre_steps : List String
pre_steps = "step_build_pod_spec" ∷ "step_create_services" ∷ []

pub data Reason : Type 0 where
  observe_failed unresumable_unknown retries_exhausted : Reason

-- How `_execute_step` ends: it returns, or raises LeaseLost, the step's own exception,
-- _StepDegraded (its step, reason, cause and `unknowable`) or _StepRewind.
pub data Ended : Type 0 where
  finished : Ended
  lease_gone : Ended
  failed : Failure → Ended
  degraded : String → Reason → Failure → Bool → Ended
  rewind : String → String → Failure → Ended

-- What follows a failed attempt: an end, or another attempt.
pub data Verdict : Type 0 where
  stop : Ended → Verdict
  again : Verdict

-- A RETRY row of the engine: `attempt`, the step and the error code.
pub record RetryRow : Type 0 where
  pub attempt : ℕ
  pub step : String
  pub code : String

-- The world, and the RETRY rows that the engine has written, newest first.
pub record State (W : Type 0) : Type 0 where
  pub world : W
  pub rows : List RetryRow

-- A verdict that stops is the end; the other goes on.
pub unless_stopped :
    {W : Type 0} → Verdict × State W → (State W → Ended × State W) → Ended × State W
unless_stopped (stop e, s) go = (e, s)
unless_stopped (again, s) go = go s

module _ {W : Type 0} (env : Env W) where
  -- The `hook` of PRE_STEP; what it raises is swallowed.
  pub pre_step : String → W → W
  pre_step name w = if contains name pre_steps then env.hook name w else w

  -- X4 response_loss: the step took effect, and its answer is lost.
  lose_response : Option Fault → W → Outcome × W
  lose_response none w = (returned, w)
  lose_response (some f) w =
      let (mine, w') = env.mark_fired f.id w in
      (if mine then raised (other "RuntimeError" (caused_by timeout)) else returned, w')

  after_step : String → Outcome → W → Outcome × W
  unfolding lose_response
  after_step name returned w = let (f, w') = env.armed name "X4" w in lose_response f w'
  after_step name o w = (o, w)

  -- X2 fail_persistent: the step is not called at all.
  call_unless : String → Option Fault → W → Outcome × W
  unfolding after_step
  call_unless name (some f) w =
      (raised (other "RuntimeError" plain), if f.fired then w else (env.mark_fired f.id w).1)
  call_unless name none w = let (o, w') = env.step name w in after_step name o w'

  -- The body of the `try` of one attempt.
  pub call_step : String → W → Outcome × W
  unfolding call_unless
  call_step name w = let (f, w') = env.armed name "X2" w in call_unless name f w'

  -- After the tests on an unknown result: a client error ends the step, and so does the last attempt.
  pub exhaust : String → Bool → Failure → Bool → Verdict
  exhaust name last err unknown =
      if is_client_error err && not unknown
      then stop (failed err)
      else if last
      then stop (degraded name retries_exhausted err unknown)
      else again

  observed : String → Bool → Failure → Observation → Verdict
  unfolding exhaust
  observed name last err effect_seen = stop finished
  observed name last err no_effect = exhaust name last err true
  observed name last err (observer_raised e) = stop (degraded name observe_failed e true)

  -- A result that is not known: look at the effect, or go on only if the step may run again.
  judge_unknown : String → Bool → Failure → W → Verdict × W
  unfolding observed exhaust
  judge_unknown name last err w =
      if contains name step_observers
      then (let (o, w') = env.observe name w in (observed name last err o, w'))
      else (
        if not (contains name rerun_safe) && not (contains name verify_rerun_safe)
            then stop (degraded name unresumable_unknown err true)
            else exhaust name last err true,
        w,
      )

  judge_restart : String → Bool → Failure → Option String → W → Verdict × W
  unfolding judge_unknown exhaust
  judge_restart name last err (some from) w = (stop (rewind name from err), w)
  judge_restart name last err none w =
      if is_unknown err then judge_unknown name last err w else (exhaust name last err false, w)

  -- All that follows the `try` of one attempt that raised `err`.
  unfoldable pub judge_failure : Mode → String → Bool → Failure → W → Verdict × W
  unfolding judge_restart
  judge_failure mode name last err w =
      if is_baseline mode
      then (stop (failed err), w)
      else if not (may_retry err)
      then (stop (failed err), w)
      else judge_restart name last err (restart_of err) w

  pub judge_outcome : Mode → String → Bool → Outcome → W → Verdict × W
  unfolding judge_failure
  judge_outcome mode name last returned w = (stop finished, w)
  judge_outcome mode name last lost_lease w = (stop lease_gone, w)
  judge_outcome mode name last (raised err) w = judge_failure mode name last err w

  pub code_of : Outcome → String
  code_of (raised err) = retry_code err
  code_of _ = ""

  -- The RETRY row of a round that another one follows.
  pub settle : String → ℕ → Outcome → List RetryRow → Verdict × W → Verdict × State W
  unfolding code_of
  settle name attempt o rows (stop e, w) = (stop e, record { world = w; rows = rows })
  settle name attempt o rows (again, w) =
      let row : RetryRow = record { attempt = attempt + 1; step = name; code = code_of o } in
      (again, record { world = w; rows = row ∷ rows })

  -- One round of the loop over the attempts, with its RETRY row if there is another round.
  pub attempt_once : Mode → String → ℕ → Bool → State W → Verdict × State W
  unfolding pre_step call_step judge_outcome settle
  attempt_once mode name attempt last s =
      let (o, w) = call_step name (pre_step name s.world) in
      settle name attempt o s.rows (judge_outcome mode name last o w)

  -- `for attempt in range(1, max_attempts + 1)`, with the rounds that are left and the number of
  -- the next one. With no round at all the function returns.
  pub attempts : Mode → String → ℕ → ℕ → State W → Ended × State W
  unfolding attempt_once unless_stopped
  attempts mode name zero attempt s = (finished, s)
  attempts mode name (suc left) attempt s =
      unless_stopped (attempt_once mode name attempt (left =ℕ 0) s)
        (attempts mode name left (attempt + 1))

  pub max_attempts : Limits → Mode → String → ℕ
  max_attempts limits mode name =
      if is_baseline mode
      then 1
      else if contains name verify_rerun_safe
      then limits.verify_max
      else limits.step_max

  unfoldable pub execute_step : Limits → Mode → String → State W → Ended × State W
  unfolding attempts max_attempts
  execute_step limits mode name s = attempts mode name (max_attempts limits mode name) 1 s
