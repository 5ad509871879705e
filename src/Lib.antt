-- ===== src/Lib.antt =====
-- A model of the job engine of the container service. admin_be registers a job; the controller
-- of config-server picks it up and runs its steps (config-server/application/jobs.py), and the
-- table job_control (config-server/adapters/job_control.py) tells which controller owns a job
-- and how far it is.
--
-- - JobControl: config-server/adapters/job_control.py. The table is a list of rows by job;
--   claim, record_step, renew and release are its statements. What a claim's SELECT showed is
--   an argument of its UPDATE, so that other statements can stand between them. JSON texts are
--   kept as lists and strings.
-- - Jobs/Types, Jobs/Plan: the modes and kinds, the failures of a step (StepFailed and
--   _is_unknown_result of config-server/main.py), and _job_steps with the step lists of
--   config-server/lifecycle_steps and the steps that a failure restarts from.
-- - Jobs/Execute: _execute_step. The steps, their hooks, observers and judges, the injected
--   faults and the progress record are operations on a world that the model does not look into.
-- - Jobs/Loop: the loop of _run_job over the steps, with rewinding. Jobs/Finish: what stands
--   before and after the loop in _run_job, _finish_job, _record_job_result,
--   _compensate_provision and _interrupt_baseline_job.
-- - Access: config-server/lifecycle_steps/access.py. A service is its selector keys and its
--   time; the answer of the apiserver to each patch is an argument, and a service that another
--   job changed is one whose patch is refused.
-- - Ledger: the lines of the passwd and group files as parsed (config-server/utils.py), the
--   record of issued ids, and the allocation of uids and gids
--   (config-server/lifecycle_steps/provision.py).
-- - LedgerText: the text of those files (config-server/utils.py): the fields that are refused,
--   the formatting and the parsing of passwd and group lines, and the writing and splitting of
--   the files.
-- - Groups: config-server/lifecycle_steps/group.py up to the calls of AD. Whether the two files
--   can be written is an argument. Each operation runs under the ledger lock, so it is one step
--   of a history.
-- - NodePorts: the table nodeport_allocations (config-server/lifecycle_steps/provision.py). A
--   transaction is one function, since it holds the table's lock; whether the database takes a
--   row is an argument.
-- - Evaluator: harness/evaluator.py. The collector is an argument; identifiers are kept as
--   texts.
-- - Accounts: _account_missing_parts and _judge_interrupted_account
--   (config-server/application/jobs.py) and _rollback_user
--   (config-server/lifecycle_steps/provision.py), on account files that can be read.
-- - AccountCreation: step_create_account and _returning_owner_uid
--   (config-server/lifecycle_steps/provision.py), over Ledger, Reclaim and Accounts. Which
--   queries and writes succeed is an argument; the rollback is the one of Accounts, whose three
--   writes may fail too.
-- - Reclaim: _reclaim_uid (config-server/lifecycle_steps/provision.py), _adoptable_account_uid
--   and _username_group_conflict (config-server/main.py).
-- - Journal: the registration of a job (_register_job of config-server/main.py), the job inputs
--   (config-server/adapters/pod_status.py), and find_unfinished_jobs, job_end_exists and
--   _record_job_result of config-server/application/jobs.py. The log is a list of rows in the
--   order of their ids; which store answers is an argument.
-- - Controller: the loop of config-server/entrypoints/controller.py. What ends while the list
--   of jobs is gone through is an argument of the turn.
-- - StackLock: harness/stack_lock.py. kubectl, the SQL query and the parser of its output are
--   operations on a world; StackLock/Mutex states what is taken from kubectl's documentation: a
--   creation fails where the name exists, and a command without a clear answer may have been
--   carried out. A forced release stands outside the theorems on runs.
-- - Removal: step_check_account_revocable and step_delete_account of
--   config-server/lifecycle_steps/revoke.py, with the rows of operation_log that prove an
--   earlier deletion. Which of the lookup, the writes and the rows succeeds is an argument.
-- - PortChange: step_change_ports of config-server/lifecycle_steps/port.py, on the table of
--   NodePorts and the services of the pod. The allocation in it reconciles the table first, as
--   in provision.py; which pods have a Service then is an argument.
-- - Verification: _run_probe, step_capture_access_targets and step_verify_revoked of
--   config-server/lifecycle_steps/verify.py. The answers of the cluster, the database and the
--   node are arguments; whether there is a node that goes with the ports, and whether it can be
--   looked up, too.
-- - HomeCleanup: config-server/lifecycle_steps/home.py, on the owners of the homes by user. The
--   deletion over SSH (config-server/utils.py) may end with nothing deleted, with a part or
--   with all of it and no answer.
-- - PasswordChange: config-server/lifecycle_steps/password.py with set_ledger_password and
--   _restore_password (config-server/main.py), update_account_secrets and
--   sync_running_pod_password (config-server/utils.py). The answer to each call is an argument,
--   also that it was lost after its effect.
-- - TrialManifest: harness/trial.py, on the rows of trial_manifest. TrialRunner: run_trial and
--   run_pair of harness/trial_runner.py. The ports read and change a world that the model does
--   not look into; times are numbers, and what has no port of its own, such as the check of the
--   environment and the evaluations, takes a time of its own too.
-- - Requests: the validators of config-server/request_models.py that relate the fields of a
--   body, and the form of a password hash (Requests/Hashes). The lower case and the length of a
--   text are arguments.
--
-- The loop calls the engine, the engine calls the steps; a step_create_pod or group step is one
-- of them, and the progress record of the loop is the record_step of JobControl. Groups is what
-- step_resolve_new_groups and step_group_create do to the ledger.
--
-- Fuel: the loop rewinds at most STEP_MAX_ATTEMPTS - 1 times, so STEP_MAX_ATTEMPTS rounds are
-- enough, and Jobs.Loop.Bounded shows it. The chain of causes is followed ten deep, as in the
-- source. An allocation tries one number more than the largest in use, and Ledger.Free shows
-- that it ends. A trial is given one round more than its horizon is long, which is enough where
-- the clock goes on with each round (TrialRunner.Returns).
--
-- Not modelled: routes, the other regular expressions of request bodies, Kubernetes, SSH, NAS
-- and AD calls, the rest of the harness, logging, sleeping, and the text of error details.
pub mod Access
pub mod AccountCreation
pub mod Accounts
pub mod Base
pub mod Controller
pub mod Evaluator
pub mod Groups
pub mod HomeCleanup
pub mod JobControl
pub mod Jobs
pub mod Journal
pub mod Ledger
pub mod LedgerText
pub mod NodePorts
pub mod PasswordChange
pub mod PortChange
pub mod Reclaim
pub mod Removal
pub mod Requests
pub mod StackLock
pub mod TrialManifest
pub mod TrialRunner
pub mod Verification
