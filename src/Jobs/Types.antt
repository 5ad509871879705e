-- ===== src/Jobs/Types.antt =====
-- The modes, kinds, phases and exceptions of config-server/application/jobs.py and main.py.
use admin_infra_proposed.Base.{
  ℕ, zero, suc, String, Bool, true, false, ◌&&◌, Option, none, some, leb, ltb, ◌==◌, if◌then◌else◌,
}

-- VERIFY_MODE
pub data Mode : Type 0 where
  baseline noprobe full : Mode

abbrev pub is_baseline : Mode → Bool
is_baseline baseline = true
is_baseline _ = false

abbrev pub is_full : Mode → Bool
is_full full = true
is_full _ = false

-- The keys of JOB_ACTIONS.
pub data Kind : Type 0 where
  provision revoke migrate password group home port access : Kind

-- class Phase
pub data Phase : Type 0 where
  start success fail retry unknown : Phase

-- An exception with what `_is_unknown_result` follows: the `reason` of a MaxRetryError, the
-- `__cause__` of any other, or nothing. `timeout` is a read timeout or a command's timeout.
pub data Exn : Type 0 where
  timeout : Exn
  plain : Exn
  caused_by : Exn → Exn

-- `depth` counts the links already followed; the source stops at ten.
unknown_within : ℕ → Exn → Bool
unknown_within zero e = false
unknown_within (suc depth) timeout = true
unknown_within (suc depth) plain = false
unknown_within (suc depth) (caused_by e) = unknown_within depth e

unfoldable pub is_unknown_result : Exn → Bool
unfolding unknown_within
is_unknown_result e = unknown_within 10 e

-- `body` of a StepFailed: a dict with the value of its key "error", or something else.
pub data Body : Type 0 where
  dict : Option String → Body
  not_dict : Body

-- What a step raises, LeaseLost apart: StepFailed with its body, status, cause, `retry` and
-- `restart_from`; or any other exception with the name of its class.
pub data Failure : Type 0 where
  step_failed : Body → ℕ → Option Exn → Bool → Option String → Failure
  other : String → Exn → Failure

-- `err.unknown if isinstance(err, StepFailed) else _is_unknown_result(err)`
unfoldable pub is_unknown : Failure → Bool
unfolding is_unknown_result
is_unknown (step_failed body status none may_retry restart) = false
is_unknown (step_failed body status (some e) may_retry restart) = is_unknown_result e
is_unknown (other name e) = is_unknown_result e

-- `getattr(err, "retry", True)`
abbrev pub may_retry : Failure → Bool
may_retry (step_failed body status cause r restart) = r
may_retry (other name e) = true

-- An empty text is false in Python.
abbrev pub non_empty : Option String → Option String
non_empty none = none
non_empty (some s) = if s == "" then none else some s

-- `getattr(err, "restart_from", None)`, where it is true
abbrev pub restart_of : Failure → Option String
restart_of (step_failed body status cause r restart) = non_empty restart
restart_of (other name e) = none

-- `isinstance(err, StepFailed) and 400 <= err.status < 500`
abbrev pub is_client_error : Failure → Bool
is_client_error (step_failed body status cause r restart) = leb 400 status && ltb status 500
is_client_error (other name e) = false

-- `str(code)` of a RETRY row: `err.body.get("error")` of a StepFailed with a dict, and else the
-- name of the class.
abbrev pub retry_code : Failure → String
retry_code (step_failed (dict (some code)) status cause r restart) = code
retry_code (step_failed (dict none) status cause r restart) = "None"
retry_code (step_failed not_dict status cause r restart) = "StepFailed"
retry_code (other name e) = name
