-- ===== src/Journal.antt =====
-- The registration of jobs and the journal: `_register_job` of config-server/main.py, the job inputs
-- of config-server/adapters/pod_status.py, and `find_unfinished_jobs` and `job_end_exists` of
-- config-server/application/jobs.py.
--
-- The log is the table operation_log, in the order of its ids. The inputs are the keys `op_job:…`
-- of the store, by action and request.
pub mod Found
pub mod Registered
pub mod Leftover
mod Tests
use admin_infra_proposed.Base.{
  ℕ, zero, suc, ◌+◌, String, Bool, true, false, not, ◌&&◌, ◌||◌, Option, none, some, List, [], ◌∷◌,
  ◌++◌, if◌then◌else◌, ltb, ◌==◌, contains,
}
use admin_infra_proposed.Jobs.Types.{
  Kind, provision, revoke, migrate, password, group, home, port, access, Phase, start, retry,
  success, fail, unknown,
}

pub record LogRow : Type 0 where
  pub id : ℕ
  pub action : String
  pub request_id : String
  pub phase : Phase

-- JOB_ACTIONS
unfoldable pub action_of : Kind → String
action_of provision = "PROVISION"
action_of revoke = "REVOKE"
action_of migrate = "MIGRATE"
action_of password = "CHANGE_PASSWORD"
action_of group = "CHANGE_GROUP"
action_of home = "PURGE_HOME"
action_of port = "CHANGE_PORT"
action_of access = "CHANGE_ACCESS"

abbrev pub job_actions : List String
job_actions =
    "PROVISION" ∷ "REVOKE" ∷ "MIGRATE" ∷ "CHANGE_PASSWORD" ∷ "CHANGE_GROUP" ∷ "PURGE_HOME"
    ∷ "CHANGE_PORT" ∷ "CHANGE_ACCESS" ∷ []

-- The prefix of JOB_KEY_PREFIX; without one, the key is the request's number.
unfoldable pub prefix_of : Kind → String
prefix_of password = "password-reset-"
prefix_of group = "group-op-"
prefix_of home = "home-cleanup-"
prefix_of port = "port-change-"
prefix_of access = "access-op-"
prefix_of _ = ""

abbrev pub ends_job : Phase → Bool
ends_job success = true
ends_job fail = true
ends_job unknown = true
ends_job _ = false

abbrev pub starts_job : Phase → Bool
starts_job start = true
starts_job _ = false

-- A row of this job that ends it and is later than the row `id`.
abbrev pub ends_after : String → String → ℕ → LogRow → Bool
ends_after action request id e =
    (e.request_id == request && e.action == action) && (ltb id e.id && ends_job e.phase)

unfoldable pub has_end : String → String → ℕ → List LogRow → Bool
has_end action request id [] = false
has_end action request id (e ∷ log) =
    ends_after action request id e || has_end action request id log

-- The condition of the query on a row, with the log that it looks into.
unfoldable pub is_unfinished : List LogRow → LogRow → Bool
unfolding has_end contains
is_unfinished log s =
    (contains s.action job_actions && starts_job s.phase)
    && not (has_end s.action s.request_id s.id log)

unfoldable pub unfinished_of : List LogRow → List LogRow → List LogRow
unfinished_of log [] = []
unfinished_of log (s ∷ rows) =
    let rest = unfinished_of log rows in if is_unfinished log s then s ∷ rest else rest

unfoldable pub take {ℓ} : {A : Type ℓ} → ℕ → List A → List A
take zero xs = []
take (suc n) [] = []
take (suc n) (x ∷ xs) = x ∷ take n xs

-- `find_unfinished_jobs`; the limit is 100 where the controller calls it.
unfoldable pub find_unfinished_jobs : ℕ → List LogRow → List LogRow
unfolding unfinished_of take
find_unfinished_jobs limit log = take limit (unfinished_of log log)

-- `job_end_exists`, where the log can be read.
unfoldable pub job_end_exists : String → String → ℕ → List LogRow → Bool
unfolding has_end
job_end_exists action request job log = has_end action request job log

-- The state of a job's input; a job that is done keeps the phase of its result.
pub data InputState : Type 0 where
  queued running : InputState
  done : Phase → InputState

pub record Input : Type 0 where
  pub action : String
  pub request_id : String
  pub state : InputState

abbrev same_key : String → String → Input → Bool
same_key action request i = i.action == action && i.request_id == request

unfoldable pub load_job_input : String → String → List Input → Option InputState
load_job_input action request [] = none
load_job_input action request (i ∷ inputs) =
    let rest = load_job_input action request inputs in
    if same_key action request i then some i.state else rest

unfoldable pub delete_job_input : String → String → List Input → List Input
delete_job_input action request [] = []
delete_job_input action request (i ∷ inputs) =
    let rest = delete_job_input action request inputs in
    if same_key action request i then rest else i ∷ rest

-- `r.set` on a key: the value that it had goes.
unfoldable pub set_input : String → String → InputState → List Input → List Input
unfolding delete_job_input
set_input action request state inputs =
    record { action = action; request_id = request; state = state }
    ∷ delete_job_input action request inputs

-- `r.set(…, nx=True)`: false where the key is there.
unfoldable pub save_job_input : String → String → List Input → Bool × List Input
unfolding load_job_input set_input
save_job_input action request inputs = elim (load_job_input action request inputs) [
  | some _ ↦ (false, inputs)
  | none ↦ (true, set_input action request queued inputs)
]

unfoldable pub mark_job_running : String → String → List Input → List Input
unfolding load_job_input set_input
mark_job_running action request inputs = elim (load_job_input action request inputs) [
  | none ↦ inputs
  | some _ ↦ set_input action request running inputs
]

unfoldable pub mark_job_done : String → String → Phase → List Input → List Input
unfolding set_input
mark_job_done action request phase inputs = set_input action request (done phase) inputs

-- The log, the next id of its rows, and the inputs.
pub record Board : Type 0 where
  pub log : List LogRow
  pub next_id : ℕ
  pub inputs : List Input

unfoldable pub append_row : String → String → Phase → Board → Board
append_row action request phase b = record {
  log =
      b.log ++ record { id = b.next_id; action = action; request_id = request; phase = phase } ∷ [];
  next_id = b.next_id + 1;
  inputs = b.inputs;
}

-- The answers of `_register_job`: 202, 409, twice 503, and the exception of the deletion.
pub data Answer : Type 0 where
  accepted : ℕ → Answer
  job_already_registered : Answer
  job_store_unavailable job_log_unavailable : Answer
  deletion_raised : Answer

-- What of the two stores answers: the save of the input, the START row, and the deletion of the
-- input after a START row that could not be written.
pub record Stores : Type 0 where
  pub saves : Bool
  pub logs : Bool
  pub deletes : Bool

log_start : Stores → String → String → Board → Answer × Board
unfolding append_row delete_job_input
log_start stores action request b =
    if stores.logs
    then (accepted b.next_id, append_row action request start b)
    else if stores.deletes
    then (job_log_unavailable, record b { inputs = delete_job_input action request b.inputs })
    else (deletion_raised, b)

saved : Stores → String → String → Board → Bool × List Input → Answer × Board
unfolding log_start
saved stores action request b (false, inputs) = (job_already_registered, b)
saved stores action request b (true, inputs) =
    log_start stores action request (record b { inputs = inputs })

-- `_register_job`, by the action and the key of the job.
unfoldable pub register_job : Stores → String → String → Board → Answer × Board
unfolding save_job_input saved
register_job stores action request b =
    if stores.saves
    then saved stores action request b (save_job_input action request b.inputs)
    else (job_store_unavailable, b)

-- `_record_job_result`: the end row, and then the input's deletion, each with whether it succeeds;
-- `marks` is for the mark that the input gets where the row is refused.
unfoldable pub record_end : Bool → Bool → Bool → String → String → Phase → Board → Board
unfolding append_row delete_job_input mark_job_done
record_end writes deletes marks action request phase b =
    if writes
    then (let b' = append_row action request phase b in
        if deletes then record b' { inputs = delete_job_input action request b'.inputs } else b')
    else if marks
    then record b { inputs = mark_job_done action request phase b.inputs }
    else b
