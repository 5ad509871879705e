-- ===== src/Jobs/Execute/Policy.antt =====
-- Why a step under the retry policy ended as it did, and when it may be run again.
use admin_infra_proposed.Base.{
  ℕ, zero, suc, ◌+◌, String, ◌≡◌, sym, ◌⊎◌, Bool, true, false, ◌||◌, none, some, contains, ◌=ℕ◌,
  arith,
}
use mathlib.Core.Path.{subst}
use admin_infra_proposed.Jobs.Types.{
  Mode, baseline, is_baseline, Failure, is_unknown, may_retry, restart_of, is_client_error,
}
use admin_infra_proposed.Jobs.Execute.{
  Env, Limits, State, Outcome, returned, lost_lease, raised, no_effect, Ended, finished, lease_gone,
  failed, degraded, rewind, Reason, observe_failed, unresumable_unknown, retries_exhausted, Verdict,
  stop, again, step_observers, rerun_safe, verify_rerun_safe, pre_step, call_step, judge_failure,
  judge_outcome, attempt_once, attempts, unless_stopped, max_attempts, execute_step,
}

-- What each reason to hand a step to an operator says.
abbrev pub Reasoned : String → Reason → Failure → Bool → Type 0
Reasoned name observe_failed e unknowable =
    (contains name step_observers ≡ true) × (unknowable ≡ true)
Reasoned name unresumable_unknown e unknowable =
    (is_unknown e ≡ true)
    × (contains name step_observers ≡ false)
    × (contains name rerun_safe ≡ false)
    × (contains name verify_rerun_safe ≡ false)
    × (unknowable ≡ true)
Reasoned name retries_exhausted e unknowable = (may_retry e ≡ true) × (unknowable ≡ is_unknown e)

-- What each end of a step says of the exception behind it.
abbrev pub IsJustified : Mode → String → Ended → Type 0
IsJustified mode name finished = Unit {0}
IsJustified mode name lease_gone = Unit {0}
IsJustified mode name (failed e) =
    (is_baseline mode ≡ true)
    ⊎ (may_retry e ≡ false)
    ⊎ ((is_client_error e ≡ true) × (is_unknown e ≡ false))
IsJustified mode name (degraded n reason e unknowable) =
    (n ≡ name) × (is_baseline mode ≡ false) × Reasoned name reason e unknowable
IsJustified mode name (rewind n from e) =
    (n ≡ name) × (is_baseline mode ≡ false) × (may_retry e ≡ true) × (restart_of e ≡ some from)

abbrev StopIsJustified : Mode → String → Verdict → Type 0
StopIsJustified mode name (stop e) = IsJustified mode name e
StopIsJustified mode name again = Unit {0}

unless_stopped-IsJustified :
    {W : Type 0} (mode : Mode) (name : String) (v : Verdict × State W)
    (go : State W → Ended × State W)
    → StopIsJustified mode name v.0
    → ((s : State W) → IsJustified mode name (go s).0)
    → IsJustified mode name (unless_stopped v go).0
unfolding unless_stopped
unless_stopped-IsJustified mode name (stop e, s) go h k = h
unless_stopped-IsJustified mode name (again, s) go h k = k s

-- The end of a step that is called once.
abbrev pub ended : Outcome → Ended
ended returned = finished
ended lost_lease = lease_gone
ended (raised e) = failed e

module _ {W : Type 0} (env : Env W) where
  pub again_is_safe :
      (mode : Mode) (name : String) (last : Bool) (err : Failure) (w : W)
      → (judge_failure env mode name last err w).0 ≡ again
      → (last ≡ false)
        × (is_baseline mode ≡ false)
        × (may_retry err ≡ true)
        × (restart_of err ≡ none)
        × ((is_unknown err ≡ false)
            ⊎ ((contains name step_observers ≡ true) × ((env.observe name w).0 ≡ no_effect))
            ⊎ ((contains name rerun_safe || contains name verify_rerun_safe) ≡ true))
  unfolding judge_failure
  again_is_safe mode name last err w h = ground arith

  judge_failure-IsJustified :
      (mode : Mode) (name : String) (last : Bool) (err : Failure) (w : W)
      → StopIsJustified mode name (judge_failure env mode name last err w).0
  unfolding judge_failure
  judge_failure-IsJustified mode name last err w = ground arith

  judge_outcome-IsJustified :
      (mode : Mode) (name : String) (last : Bool) (o : Outcome) (w : W)
      → StopIsJustified mode name (judge_outcome env mode name last o w).0
  unfolding judge_outcome
  judge_outcome-IsJustified mode name last returned w = tt
  judge_outcome-IsJustified mode name last lost_lease w = tt
  judge_outcome-IsJustified mode name last (raised err) w =
      judge_failure-IsJustified mode name last err w

  pub attempt_once-verdict :
      (mode : Mode) (name : String) (attempt : ℕ) (last : Bool) (s : State W)
      → let (o, w) = call_step env name (pre_step env name s.world) in
        (attempt_once env mode name attempt last s).0 ≡ (judge_outcome env mode name last o w).0
  unfolding attempt_once
  attempt_once-verdict mode name attempt last s = ground arith

  attempt_once-IsJustified :
      (mode : Mode) (name : String) (attempt : ℕ) (last : Bool) (s : State W)
      → StopIsJustified mode name (attempt_once env mode name attempt last s).0
  attempt_once-IsJustified mode name attempt last s =
      let (o, w) = call_step env name (pre_step env name s.world) in
      subst (StopIsJustified mode name) (sym (attempt_once-verdict mode name attempt last s))
        (judge_outcome-IsJustified mode name last o w)

  attempts-IsJustified :
      (mode : Mode) (name : String) (left attempt : ℕ) (s : State W)
      → IsJustified mode name (attempts env mode name left attempt s).0
  unfolding attempts
  attempts-IsJustified mode name zero attempt s = tt
  attempts-IsJustified mode name (suc left) attempt s =
      unless_stopped-IsJustified mode name (attempt_once env mode name attempt (left =ℕ 0) s)
        (attempts env mode name left (attempt + 1))
        (attempt_once-IsJustified mode name attempt (left =ℕ 0) s)
        (attempts-IsJustified mode name left (attempt + 1))

  pub execute_step-IsJustified :
      (limits : Limits) (mode : Mode) (name : String) (s : State W)
      → IsJustified mode name (execute_step env limits mode name s).0
  unfolding execute_step
  execute_step-IsJustified limits mode name s =
      attempts-IsJustified mode name (max_attempts env limits mode name) 1 s

  -- In baseline a step is called once, after its hook, and what it raises is its end, with no row
  -- of a retry.
  pub execute_step_baseline :
      (limits : Limits) (name : String) (s : State W)
      → let (o, w) = call_step env name (pre_step env name s.world) in
        execute_step env limits baseline name s ≡ (ended o, record { world = w; rows = s.rows })
  unfolding execute_step attempts attempt_once judge_outcome judge_failure unless_stopped
  execute_step_baseline limits name s = ground arith
