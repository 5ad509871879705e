-- ===== src/Jobs/Loop.antt =====
-- The steps of a job, with resumption and rewinding: the `while` loop of `_run_job` in
-- config-server/application/jobs.py, up to its `except` clauses.
--
-- The index `i` of the source is the part of the plan that is still to run. Each rewinding takes
-- one unit of fuel; the source allows STEP_MAX_ATTEMPTS - 1 of them.
pub mod Complete
pub mod Planned
pub mod Bounded
use admin_infra_proposed.Base.{
  ℕ, zero, suc, ◌+◌, ◌-◌, String, Bool, true, false, not, ◌&&◌, Option, none, some, List, [], ◌∷◌,
  ◌++◌, contains, from, without, leb, ◌==◌, if◌then◌else◌,
}
use admin_infra_proposed.Jobs.Types.{Mode, is_baseline, Failure, retry_code}
use admin_infra_proposed.Jobs.Execute.{
  Env, Limits, State, RetryRow, Ended, finished, lease_gone, failed, degraded, rewind, Reason,
  observe_failed, retries_exhausted, Judgement, already_done, not_done, judge_raised, Recording,
  written, ownership_lost, write_raised, execute_step,
}

-- ALWAYS_RERUN
abbrev pub always_rerun : List String
always_rerun =
    "step_fetch_user_config" ∷ "step_migrate_inherit_password" ∷ "step_resolve_new_groups" ∷ []

-- DEFER_DONE: the step whose mark also stands for this one.
abbrev pub is_deferred : String → Bool
is_deferred name = name == "step_build_pod_spec"

abbrev pub mark_of : String → String
mark_of name = if is_deferred name then "step_create_pod_k8s" else name

-- How the loop ends: by its test or a break, by LeaseLost, by _StepDegraded, or by any other
-- exception.
pub data LoopEnd : Type 0 where
  completed : LoopEnd
  lease_left : LoopEnd
  handed_over : String → Reason → Failure → Bool → LoopEnd
  broke : Failure → LoopEnd
  fuel_spent : LoopEnd

-- After the progress record: the loop goes on with the steps that are done, or ends.
pub data Mark : Type 0 where
  kept : List String → Mark
  quit : LoopEnd → List String → Mark

-- What one round of the loop does next.
pub data Visit : Type 0 where
  break_off : Visit
  marked : Mark → Visit
  go_back : String → String → Failure → Visit

-- The end, the steps that are done, and the state.
abbrev pub Result : Type 0 → Type 0
Result W = LoopEnd × List String × State W

module _ {W : Type 0} (env : Env W) (limits : Limits) (mode : Mode) (tracked : Bool) where
  -- `job_control.record_step`
  recorded : List String → Recording × W → List RetryRow → Mark × State W
  recorded done (written, w) rows = (kept done, record { world = w; rows = rows })
  recorded done (ownership_lost, w) rows = (quit lease_left done, record { world = w; rows = rows })
  recorded done (write_raised e, w) rows = (quit (broke e) done, record { world = w; rows = rows })

  -- It is called where the job has a number.
  pub remember : List String → State W → Mark × State W
  unfolding recorded
  remember done s =
      if tracked then recorded done (env.record_step done s.world) s.rows else (kept done, s)

  -- `done.append(name)`, unless the step's mark is another's.
  pub mark_done : String → List String → State W → Visit × State W
  unfolding remember
  mark_done name done s =
      if is_deferred name
      then (marked (kept done), s)
      else (let (m, s') = remember (done ++ name ∷ []) s in (marked m, s'))

  -- What follows a step, `ok` being what follows its success.
  pub after : List String → (State W → Visit × State W) → Ended × State W → Visit × State W
  after done ok (finished, s) = ok s
  after done ok (lease_gone, s) = (marked (quit lease_left done), s)
  after done ok (failed e, s) = (marked (quit (broke e) done), s)
  after done ok (degraded step reason e unknowable, s) =
      (marked (quit (handed_over step reason e unknowable) done), s)
  after done ok (rewind step point e, s) = (go_back step point e, s)

  pub run_marked : String → List String → State W → Visit × State W
  unfolding after mark_done
  run_marked name done s = after done (mark_done name done) (execute_step env limits mode name s)

  pub judged : String → List String → Judgement × W → List RetryRow → Visit × State W
  unfolding run_marked mark_done
  judged name done (already_done, w) rows = mark_done name done (record { world = w; rows = rows })
  judged name done (not_done, w) rows = run_marked name done (record { world = w; rows = rows })
  judged name done (judge_raised e, w) rows = (
    marked (quit (handed_over "step_create_account" observe_failed e true) done),
    record { world = w; rows = rows },
  )

  -- A step with no mark: RESUME_JUDGES has one entry, and none counts in baseline.
  pub run_unmarked : String → List String → State W → Visit × State W
  unfolding judged run_marked
  run_unmarked name done s =
      if not (is_baseline mode) && name == "step_create_account"
      then judged name done (env.judge name s.world) s.rows
      else run_marked name done s

  -- One round of the loop.
  pub visit : String → List String → State W → Visit × State W
  unfolding after run_unmarked
  visit name done s =
      if env.skipped s.world
      then (break_off, s)
      else if contains name always_rerun
      then after done (λ s'. (marked (kept done), s')) (execute_step env limits mode name s)
      else if contains (mark_of name) done
      then (marked (kept done), s)
      else run_unmarked name done s

  module _ (names : List String) where
    -- The handler of _StepRewind.
    pub restart : String → String → Failure → ℕ → List String → State W → Mark × State W
    unfolding remember
    restart step point err rewinds done s =
        if not (contains point names)
        then (quit (broke err) done, s)
        else if leb (limits.step_max - 1) rewinds
        then (quit (handed_over step retries_exhausted err false) done, s)
        else (let row : RetryRow = record {
          attempt = rewinds + 2;
          step = step;
          code = retry_code err;
        } in
            remember (without (from point names) done)
              (record { world = s.world; rows = row ∷ s.rows }))

    pub follow : (List String → State W → Result W) → Mark × State W → Result W
    follow go (kept done, s) = go done s
    follow go (quit end done, s) = (end, done, s)

    -- What follows a round: `on` is the rest of the loop, `back` the loop from a restart point.
    pub next :
        (List String → State W → Result W)
        → (String → List String → State W → Result W)
        → ℕ
        → List String
        → Visit × State W
        → Result W
    unfolding restart follow
    next on back rewinds done (break_off, s) = (completed, done, s)
    next on back rewinds done (marked m, s) = follow on (m, s)
    next on back rewinds done (go_back step point e, s) =
        follow (back point) (restart step point e rewinds done s)

    pub loop : ℕ → List String → ℕ → List String → State W → Result W
    unfolding visit next
    loop fuel [] rewinds done s = (completed, done, s)
    loop zero (name ∷ rest) rewinds done s =
        next (loop zero rest rewinds) (λ point done' s'. (fuel_spent, done', s')) rewinds done
          (visit name done s)
    loop (suc fuel) (name ∷ rest) rewinds done s =
        next (loop (suc fuel) rest rewinds) (λ point. loop fuel (from point names) (rewinds + 1))
          rewinds done (visit name done s)

    -- The loop from its first step, with what an earlier run left done.
    unfoldable pub run_steps : List String → State W → Result W
    unfolding loop
    run_steps done s = loop limits.step_max names 0 done s
