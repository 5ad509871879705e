-- ===== src/Jobs/Execute/Exhausted.antt =====
-- That the attempts of a step are used up before it is handed over for that.
use admin_infra_proposed.Base.{
  ℕ, zero, suc, ◌+◌, ◌-◌, String, ◌≡◌, sym, ap, Bool, true, List, length, ◌=ℕ◌, arith,
}
use mathlib.Core.Path.{subst}
use admin_infra_proposed.Jobs.Types.{Mode, Failure}
use admin_infra_proposed.Jobs.Execute.{
  Env, Limits, State, RetryRow, Outcome, returned, lost_lease, raised, Ended, finished, lease_gone,
  failed, degraded, rewind, Reason, observe_failed, unresumable_unknown, retries_exhausted, Verdict,
  stop, again, pre_step, call_step, judge_failure, judge_outcome, attempt_once, attempts,
  unless_stopped, max_attempts, execute_step,
}
use admin_infra_proposed.Jobs.Execute.Policy.{
  IsJustified, attempt_once-verdict, execute_step-IsJustified,
}
use admin_infra_proposed.Jobs.Execute.Rows.{Round, attempt_once-Round, one_less, one_less-eq}

-- What holds if the end says that no attempt is left.
abbrev IfReason : Type 0 → Reason → Type 0
IfReason P observe_failed = Unit {0}
IfReason P unresumable_unknown = Unit {0}
IfReason P retries_exhausted = P

abbrev pub IfExhausted : Type 0 → Ended → Type 0
IfExhausted P finished = Unit {0}
IfExhausted P lease_gone = Unit {0}
IfExhausted P (failed e) = Unit {0}
IfExhausted P (degraded n reason e unknowable) = IfReason P reason
IfExhausted P (rewind n from e) = Unit {0}

abbrev IfStopped : Type 0 → Verdict → Type 0
IfStopped P (stop e) = IfExhausted P e
IfStopped P again = Unit {0}

if_exhausted : {P Q : Type 0} (e : Ended) → (P → Q) → IfExhausted P e → IfExhausted Q e
if_exhausted finished f h = tt
if_exhausted lease_gone f h = tt
if_exhausted (failed e) f h = tt
if_exhausted (degraded n observe_failed e u) f h = tt
if_exhausted (degraded n unresumable_unknown e u) f h = tt
if_exhausted (degraded n retries_exhausted e u) f h = f h
if_exhausted (rewind n from e) f h = tt

module _ {W : Type 0} (env : Env W) (mode : Mode) (name : String) where
  judge_failure-last :
      (last : Bool) (err : Failure) (w : W)
      → IfStopped (last ≡ true) (judge_failure env mode name last err w).0
  unfolding judge_failure
  judge_failure-last last err w = ground arith

  judge_outcome-last :
      (last : Bool) (o : Outcome) (w : W)
      → IfStopped (last ≡ true) (judge_outcome env mode name last o w).0
  unfolding judge_outcome
  judge_outcome-last last returned w = tt
  judge_outcome-last last lost_lease w = tt
  judge_outcome-last last (raised err) w = judge_failure-last last err w

  attempt_once-last :
      (attempt : ℕ) (last : Bool) (s : State W)
      → IfStopped (last ≡ true) (attempt_once env mode name attempt last s).0
  attempt_once-last attempt last s =
      let (o, w) = call_step env name (pre_step env name s.world) in
      subst (IfStopped (last ≡ true)) (sym (attempt_once-verdict env mode name attempt last s))
        (judge_outcome-last last o w)

  unless_stopped-used :
      (attempt left : ℕ) (old : List RetryRow) (v : Verdict × State W)
      (go : State W → Ended × State W)
      → Round name attempt left old v
      → IfStopped ((left =ℕ 0) ≡ true) v.0
      → ((s : State W)
          → IfExhausted (length (go s).1.rows ≡ length s.rows + one_less left) (go s).0)
      → IfExhausted
          (length (unless_stopped v go).1.rows ≡ length old + left)
          (unless_stopped v go).0
  unfolding unless_stopped
  unless_stopped-used attempt left old (stop e, s) go r h k =
      if_exhausted e (λ p. ground (arith, ap length r, p)) h
  unless_stopped-used attempt (suc left) old (again, s) go (code, e, pos) h k =
      if_exhausted (go s).0 (λ p. omega (arith, p, ap length e)) (k s)
  unless_stopped-used attempt zero old (again, s) go (code, e, pos) h k = elim pos [ ]

  attempts-used :
      (left attempt : ℕ) (s : State W)
      → let r = attempts env mode name left attempt s in
        IfExhausted (length r.1.rows ≡ length s.rows + one_less left) r.0
  unfolding attempts
  attempts-used zero attempt s = tt
  attempts-used (suc left) attempt s =
      unless_stopped-used attempt left s.rows (attempt_once env mode name attempt (left =ℕ 0) s)
        (attempts env mode name left (attempt + 1))
        (attempt_once-Round env mode name attempt left s) (attempt_once-last attempt (left =ℕ 0) s)
        (attempts-used left (attempt + 1))

  -- However a step ends under the retry policy, the exception behind the end warrants it: its own
  -- exception is passed on only in baseline, where a retry is of no use, or for a client error with
  -- a known result; it goes to an operator only for an effect that could not be checked, for an
  -- unknown result of a step that may not run twice, or as out of attempts, and then its failure
  -- allowed a retry and as many RETRY rows were added as the step is allowed attempts, less one;
  -- and a restart is what the exception asked for.
  pub execute_step_warranted :
      (limits : Limits) (s : State W)
      → let r = execute_step env limits mode name s in
        IsJustified mode name r.0
        × IfExhausted
            (length r.1.rows ≡ length s.rows + (max_attempts env limits mode name - 1))
            r.0
  unfolding execute_step
  execute_step_warranted limits s = (
    execute_step-IsJustified env limits mode name s,
    rw (← one_less-eq (max_attempts env limits mode name))
        (attempts-used (max_attempts env limits mode name) 1 s),
  )
