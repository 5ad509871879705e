-- ===== src/TrialRunner/Types.antt =====
-- The arguments and the records of a trial, and the parts of `run_trial` that read no port:
-- harness/trial_runner.py.
use admin_infra_proposed.Base.{ℕ, String, Bool, true, false, Option, none, some, List, [], ◌=ℕ◌}
use admin_infra_proposed.Evaluator.{Verdict, pass, fail, unknown, Collected, Expected}
use admin_infra_proposed.TrialManifest.{TrialRow, Refusal}

pub data Operation : Type 0 where
  create : Operation
  revoke : Operation

-- What the port `environment` answers, and what is recorded of it.
pub data Judged : Type 0 where
  clean : Judged
  dirty : Judged
  undecided : Judged
  other_value : Judged
  judge_raised : Judged

unfoldable pub judge_environment : Judged → Judged
judge_environment clean = clean
judge_environment dirty = dirty
judge_environment undecided = undecided
judge_environment other_value = undecided
judge_environment judge_raised = undecided

-- The creation trial before a revocation trial, with its verdict at the horizon.
pub record StartState : Type 0 where
  pub creation_trial_id : String
  pub creation_verdict : Verdict

pub record Setup : Type 0 where
  pub trial_id : String
  pub operation : Operation
  pub horizon : ℕ
  pub sample_every : Option ℕ
  pub start_state : Option StartState
  pub expected : Expected

pub record TrialRecord : Type 0 where
  pub trial_id : String
  pub operation : Operation
  pub request_id : String
  pub submitted : ℕ
  pub declared : Option (String × ℕ)
  pub verified : Option ℕ
  pub horizon_end : ℕ
  pub at_declaration : Option Verdict
  pub at_horizon : Verdict
  pub samples : List (ℕ × Verdict)
  pub environment : Judged
  pub start_state : Option StartState

pub data Trouble : Type 0 where
  value_error : Trouble
  trial_state : Refusal → Trouble
  submit_raised : Trouble
  advance_raised : Trouble
  save_raised : Trouble
  out_of_fuel : Trouble

-- `start_state` and `sample_every` that are refused.
unfoldable pub is_refused : Setup → Bool
is_refused s = refuses s.operation s.start_state s.sample_every
  where
    below_one : Option ℕ → Bool
    below_one none = false
    below_one (some n) = n =ℕ 0

    refuses : Operation → Option StartState → Option ℕ → Bool
    refuses create (some st) n = true
    refuses create none n = below_one n
    refuses revoke st n = below_one n

-- What the loop has seen: the first declaration with its time and the verdict then, the samples, and
-- the rounds since.
pub record Seen : Type 0 where
  pub declared : Option (String × ℕ × Verdict)
  pub samples : List (ℕ × Verdict)
  pub steps_after : ℕ

abbrev pub nothing_seen : Seen
nothing_seen = record { declared = none; samples = []; steps_after = 0 }

-- The ports, by what they read of the world and what they make of it. `rests` is the time that goes
-- by in what has no other part here: the check of the environment, the looks at a declaration, the
-- evaluations, and the writing of the record.
pub record Ports (W : Type 0) : Type 0 where
  pub clock : W → ℕ
  pub database_clock : W → ℕ
  pub submit : W → Option (String × W)
  pub advance : W → Option W
  pub rests : W → W
  pub declaration : W → Option String
  pub collect : W → String → Collected
  pub saves : TrialRecord → Bool

pub data Looped (W : Type 0) : Type 0 where
  horizon_reached : W → Seen → Looped W
  loop_raised : Looped W
  loop_out_of_fuel : Looped W

-- The record with the manifest and the world afterwards, or what was raised with the manifest.
pub data Run (W : Type 0) : Type 0 where
  ran : TrialRecord → List TrialRow → W → Run W
  raised : Trouble → List TrialRow → Run W

-- `t_verified`
unfoldable pub verified_at : Option (String × ℕ × Verdict) → ℕ → Verdict → Option ℕ
verified_at none t_end at_horizon = none
verified_at (some (value, t, pass)) t_end at_horizon = some t
verified_at (some (value, t, fail)) t_end pass = some t_end
verified_at (some (value, t, fail)) t_end fail = none
verified_at (some (value, t, fail)) t_end unknown = none
verified_at (some (value, t, unknown)) t_end pass = some t_end
verified_at (some (value, t, unknown)) t_end fail = none
verified_at (some (value, t, unknown)) t_end unknown = none

abbrev pub declared_of : Option (String × ℕ × Verdict) → Option (String × ℕ)
declared_of none = none
declared_of (some (value, t, verdict)) = some (value, t)

abbrev pub verdict_of : Option (String × ℕ × Verdict) → Option Verdict
verdict_of none = none
verdict_of (some (value, t, verdict)) = some verdict

pub data Pair (W : Type 0) : Type 0 where
  pair_ran : TrialRecord → TrialRecord → List TrialRow → W → Pair W
  pair_raised : Trouble → List TrialRow → Pair W
