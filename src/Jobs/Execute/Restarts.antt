-- ===== src/Jobs/Execute/Restarts.antt =====
-- A restart is only ever asked for by the step function itself.
use mathlib.Core.Path.{subst}
use admin_infra_proposed.Base.{ℕ, zero, suc, ◌+◌, String, ◌≡◌, refl, sym, Bool, some, ◌=ℕ◌, arith}
use admin_infra_proposed.Jobs.Types.{Mode, Failure, restart_of}
use admin_infra_proposed.Jobs.Execute.{
  Env, Limits, State, Outcome, returned, lost_lease, raised, Ended, finished, lease_gone, failed,
  degraded, rewind, Verdict, stop, again, pre_step, call_step, judge_failure, judge_outcome,
  attempt_once, attempts, settle, max_attempts, execute_step, unless_stopped,
}

module _ {W : Type 0} (env : Env W) where
  -- The end is no rewinding, or the step function raised what asks for it.
  abbrev pub Asked : String → Ended → Type 0
  Asked name (rewind n point e) =
      (w : W) × ((env.step name w).0 ≡ raised e) × (restart_of e ≡ some point)
  Asked name _ = Unit {0}

  abbrev StopAsked : String → Verdict → Type 0
  StopAsked name (stop e) = Asked name e
  StopAsked name again = Unit {0}

  call_step-raised :
      (name point : String) (e : Failure) (w : W)
      → (call_step env name w).0 ≡ raised e
      → restart_of e ≡ some point
      → (env.step name (env.armed name "X2" w).1).0 ≡ raised e
  unfolding call_step
  call_step-raised name point e w h r = ground arith

  judge_failure-rewind :
      (mode : Mode) (name : String) (last : Bool) (err : Failure) (w : W) (n point : String)
      (e : Failure)
      → (judge_failure env mode name last err w).0 ≡ stop (rewind n point e)
      → (e ≡ err) × (restart_of err ≡ some point)
  unfolding judge_failure
  judge_failure-rewind mode name last err w n point e h = ground arith

  judge_outcome-rewind :
      (mode : Mode) (name : String) (last : Bool) (o : Outcome) (w : W) (n point : String)
      (e : Failure)
      → (judge_outcome env mode name last o w).0 ≡ stop (rewind n point e)
      → (o ≡ raised e) × (restart_of e ≡ some point)
  unfolding judge_outcome
  judge_outcome-rewind mode name last returned w n point e h = cc
  judge_outcome-rewind mode name last lost_lease w n point e h = cc
  judge_outcome-rewind mode name last (raised err) w n point e h =
      ground (arith, judge_failure-rewind mode name last err w n point e h)

  settle-verdict :
      (name : String) (attempt : ℕ) (o : Outcome) (s : State W) (v : Verdict × W)
      → (settle env name attempt o s.rows v).0 ≡ v.0
  unfolding settle
  settle-verdict name attempt o s (stop e, w) = refl
  settle-verdict name attempt o s (again, w) = refl

  asked :
      (mode : Mode) (name : String) (last : Bool) (w : W) (v : Verdict)
      → (let (o, w') = call_step env name w in (judge_outcome env mode name last o w').0 ≡ v)
      → StopAsked name v
  asked mode name last w again h = tt
  asked mode name last w (stop (rewind n point e)) h =
      let (o, w') = call_step env name w in
      let p = judge_outcome-rewind mode name last o w' n point e h in
      ((env.armed name "X2" w).1, call_step-raised name point e w p.0 p.1, p.1)
  asked mode name last w (stop finished) h = tt
  asked mode name last w (stop lease_gone) h = tt
  asked mode name last w (stop (failed e)) h = tt
  asked mode name last w (stop (degraded n r e u)) h = tt

  attempt_once-Asked :
      (mode : Mode) (name : String) (attempt : ℕ) (last : Bool) (s : State W)
      → StopAsked name (attempt_once env mode name attempt last s).0
  unfolding attempt_once
  attempt_once-Asked mode name attempt last s =
      let (o, w') = call_step env name (pre_step env name s.world) in
      subst (StopAsked name)
        (sym (settle-verdict name attempt o s (judge_outcome env mode name last o w')))
        (asked mode name last (pre_step env name s.world) _ refl)

  unless_stopped-Asked :
      (name : String) (v : Verdict × State W) (go : State W → Ended × State W)
      → StopAsked name v.0
      → ((s : State W) → Asked name (go s).0)
      → Asked name (unless_stopped v go).0
  unfolding unless_stopped
  unless_stopped-Asked name (stop e, s) go h k = h
  unless_stopped-Asked name (again, s) go h k = k s

  attempts-Asked :
      (mode : Mode) (name : String) (left attempt : ℕ) (s : State W)
      → Asked name (attempts env mode name left attempt s).0
  unfolding attempts
  attempts-Asked mode name zero attempt s = tt
  attempts-Asked mode name (suc left) attempt s =
      unless_stopped-Asked name (attempt_once env mode name attempt (left =ℕ 0) s)
        (attempts env mode name left (attempt + 1))
        (attempt_once-Asked mode name attempt (left =ℕ 0) s)
        (attempts-Asked mode name left (attempt + 1))

  pub execute_step-Asked :
      (limits : Limits) (mode : Mode) (name : String) (s : State W)
      → Asked name (execute_step env limits mode name s).0
  unfolding execute_step
  execute_step-Asked limits mode name s =
      attempts-Asked mode name (max_attempts env limits mode name) 1 s
