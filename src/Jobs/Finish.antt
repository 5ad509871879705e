-- ===== src/Jobs/Finish.antt =====
-- The result of a job, the undoing of its account, and `_run_job` as a whole:
-- config-server/application/jobs.py from `_finish_job` on.
--
-- The stores that the engine calls are a `Store`; what a call of one of them does to the world is
-- its own business, and the calls that end a job are listed as events, newest first, as they are made.
pub mod Outcomes
use admin_infra_proposed.Base.{
  ℕ, String, Bool, true, false, not, ◌&&◌, Option, none, some, List, [], ◌∷◌, contains, ◌=ℕ◌, ◌==◌,
  if◌then◌else◌,
}
use admin_infra_proposed.Jobs.Types.{
  Mode, is_baseline, Kind, provision, Phase, success, fail, unknown, Body, dict, not_dict, Failure,
  step_failed, other, is_unknown, non_empty,
}
use admin_infra_proposed.Jobs.Plan.{Job, job_steps}
use admin_infra_proposed.Jobs.Execute.{Env, Limits, State, Outcome, returned, lost_lease, raised}
use admin_infra_proposed.Jobs.Loop.{
  LoopEnd, completed, lease_left, handed_over, broke, fuel_spent, Result, run_steps,
}

-- What `_compensate_provision` returns: `account_removed`, `held:CODE` or `failed:CODE`.
pub data Undone : Type 0 where
  account_removed : Undone
  held_back undo_failed : String → Undone

-- A result row: its phase and error code, and what the undoing came to, which the source puts
-- into the detail.
pub record ResultRow : Type 0 where
  pub phase : Phase
  pub error_code : Option String
  pub undone : Option Undone

-- `job_control.claim`: it raises, another controller has the job, or the steps that are done.
pub data Claimed : Type 0 where
  claim_raised not_mine : Claimed
  mine : List String → Claimed

-- `load_job_input`: it raises, or gives nothing, a result that only has to be written, or the job.
pub data Loaded : Type 0 where
  load_raised : Loaded
  missing : Loaded
  only_result : ResultRow → Loaded
  present : Job → Loaded

-- The calls, with what they do to the world; `mark_running` gives false where it raises.
pub record Store (W : Type 0) : Type 0 where
  pub claim : W → Claimed × W
  pub load_input : W → Loaded × W
  pub job_ended : W → Bool × W
  pub mark_running : W → Bool × W
  pub prepare : W → W
  pub forget_place : W → W
  pub undo : String → W → Outcome × W
  pub publish : Phase → W → W
  pub write_result : ResultRow → W → Bool × W
  pub mark_done : ResultRow → W → W
  pub delete_input : W → W
  pub release : W → W

pub data Event : Type 0 where
  result_written result_refused : ResultRow → Event
  input_deleted lease_released : Event
  input_marked : ResultRow → Event

-- `_end_phase`
pub end_phase : Mode → Bool → Phase
end_phase mode is_unknown_end = if is_unknown_end && not (is_baseline mode) then unknown else fail

-- `code` of a StepFailed in `_compensate_provision`; `None` is printed where a dict has no "error".
undo_code : Body → String
undo_code (dict (some code)) = code
undo_code (dict none) = "None"
undo_code not_dict = "STEP_FAILED"

undone_by : Failure → Undone
unfolding undo_code
undone_by (step_failed body status cause r restart) =
    let code = undo_code body in
    if contains code ("ACCOUNT_NODE_UNKNOWN" ∷ "ACCOUNT_IN_USE" ∷ [])
    then held_back code
    else undo_failed code
undone_by (other name e) = undo_failed name

-- A 404 of the deletion says that the account is gone already.
abbrev is_gone : String → Failure → Bool
is_gone name (step_failed body status cause r restart) =
    name == "step_delete_account" && status =ℕ 404
is_gone name (other n e) = false

abbrev pub undo_steps : List String
undo_steps = "step_check_account_revocable" ∷ "step_delete_account" ∷ "step_remove_krb5" ∷ []

-- `str(code)[:64] if code else "STEP_FAILED"`, without the cut, and "UNEXPECTED_ERROR"
pub error_code_of : Failure → String
error_code_of (step_failed (dict code) status cause r restart) = elim (non_empty code) [
  | none ↦ "STEP_FAILED"
  | some c ↦ c
]
error_code_of (step_failed not_dict status cause r restart) = "STEP_FAILED"
error_code_of (other name e) = "UNEXPECTED_ERROR"

module _ {W : Type 0} (store : Store W) where
  -- The `for` loop of `_compensate_provision` inside its `try`.
  undo_next : (W → Undone × W) → String → Outcome × W → Undone × W
  unfolding undone_by
  undo_next go name (returned, w) = go w
  undo_next go name (lost_lease, w) = (undo_failed "LeaseLost", w)
  undo_next go name (raised e, w) = if is_gone name e then go w else (undone_by e, w)

  undo_all : List String → W → Undone × W
  unfolding undo_next
  undo_all [] w = (account_removed, w)
  undo_all (name ∷ names) w = undo_next (undo_all names) name (store.undo name w)

  abbrev pub is_provision : Kind → Bool
  is_provision provision = true
  is_provision _ = false

  -- `_compensate_provision`
  pub compensate : Kind → List String → W → Option Undone × W
  unfolding undo_all
  compensate kind done w =
      if is_provision kind && contains "step_create_krb5_principal" done
      then (let (u, w') = undo_all undo_steps w in (some u, w'))
      else (none, w)

  -- The call of the store that an event stands for.
  perform : Event → W → W
  perform (result_written row) w = (store.write_result row w).1
  perform (result_refused row) w = (store.write_result row w).1
  perform input_deleted w = store.delete_input w
  perform (input_marked row) w = store.mark_done row w
  perform lease_released w = store.release w

  -- One more call, which is listed and made.
  pub make_call : Event → List Event × W → List Event × W
  unfolding perform
  make_call e (events, w) = (e ∷ events, perform e w)

  -- `_record_job_result`: the input goes only once the result row is written.
  pub record_result : ResultRow → W → List Event × W
  unfolding make_call
  record_result row w =
      if (store.write_result row w).0
      then make_call input_deleted (make_call (result_written row) ([], w))
      else make_call (input_marked row) (make_call (result_refused row) ([], w))

  -- `_release_lease`
  pub release_lease : Bool → List Event × W → List Event × W
  unfolding make_call
  release_lease tracked r = if tracked then make_call lease_released r else r

  -- `_finish_job` and `_release_lease`
  pub finish : Bool → ResultRow → W → List Event × W
  unfolding record_result release_lease
  finish tracked row w = release_lease tracked (record_result row (store.publish row.phase w))

  -- `_finish_job` after `_compensate_provision`
  pub finish_undone : Bool → Phase → String → Option Undone × W → List Event × W
  unfolding finish
  finish_undone tracked phase code (u, w) =
      finish tracked (record { phase = phase; error_code = some code; undone = u }) w

  -- What follows the loop: its `except` clauses, and the end of `_run_job`. Without fuel the model
  -- does nothing; the loop never ends so.
  unfoldable pub conclude : Mode → Kind → Bool → Result W → List Event × W
  unfolding finish finish_undone compensate end_phase error_code_of
  conclude mode kind tracked (completed, done, s) =
      finish tracked (record { phase = success; error_code = none; undone = none }) s.world
  conclude mode kind tracked (lease_left, done, s) = ([], s.world)
  conclude mode kind tracked (handed_over step reason e unknowable, done, s) =
      finish tracked
        (record {
          phase = if unknowable then unknown else fail;
          error_code = some "DEGRADED";
          undone = none;
        })
        s.world
  conclude mode kind tracked (broke e, done, s) =
      finish_undone tracked (end_phase mode (is_unknown e)) (error_code_of e)
        (compensate kind done s.world)
  conclude mode kind tracked (fuel_spent, done, s) = ([], s.world)

  -- `_interrupt_baseline_job`: the node and the pod are forgotten.
  pub interrupt : Kind → Bool → List String → W → List Event × W
  unfolding finish_undone compensate
  interrupt kind tracked done w =
      finish_undone tracked fail "INTERRUPTED" (compensate kind done (store.forget_place w))

  module _ (env : Env W) (limits : Limits) (mode : Mode) (kind : Kind) (tracked : Bool) where
    -- The job's steps, from those that are done.
    pub run_loop : Job → List String → W → Result W
    run_loop job done w =
        run_steps env limits mode tracked (job_steps mode kind job) done
          (record { world = w; rows = [] })

    abbrev is_fresh : List String → Bool
    is_fresh [] = true
    is_fresh (x ∷ xs) = false

    -- What raises here before the steps leaves `_run_job`, with nothing written.
    unfoldable pub run_input : List String → Loaded × W → List Event × W
    unfolding run_loop conclude interrupt
    run_input done (load_raised, w) = ([], w)
    run_input done (missing, w) =
        let (ended, w') = store.job_ended w in
        if tracked && ended
        then release_lease tracked ([], w')
        else finish tracked
            (record { phase = fail; error_code = some "JOB_INPUT_MISSING"; undone = none })
            (if tracked then w' else w)
    run_input done (only_result row, w) = release_lease tracked (record_result row w)
    run_input done (present job, w) =
        let (marked, w'') = store.mark_running w in
        let w' = store.prepare w'' in
        if not marked
        then ([], w'')
        else if not (is_fresh done) && is_baseline mode
        then interrupt kind tracked done w'
        else conclude mode kind tracked (run_loop job done w')

    run_claimed : Claimed × W → List Event × W
    unfolding run_input
    run_claimed (claim_raised, w) = ([], w)
    run_claimed (not_mine, w) = ([], w)
    run_claimed (mine done, w) = run_input done (store.load_input w)

    -- `_run_job`
    pub run_job : W → List Event × W
    unfolding run_claimed
    run_job w = if tracked then run_claimed (store.claim w) else run_input [] (store.load_input w)
