-- ===== src/PasswordChange.antt =====
-- The change of a login password: config-server/lifecycle_steps/password.py, `set_ledger_password` and
-- `_restore_password` of config-server/main.py, `update_account_secrets` and
-- `sync_running_pod_password` of config-server/utils.py, on the pods of one user, whose list stays
-- the same during the step.
pub mod InForce
pub mod Whole
pub mod Again
mod Tests
use admin_infra_proposed.Base.{
  ℕ, String, Bool, true, false, not, ◌&&◌, Option, none, some, List, [], ◌∷◌, if◌then◌else◌, ◌==◌,
}
use admin_infra_proposed.Ledger.{Line, entry, unparsed}
use admin_infra_proposed.Requests.Hashes.{is_sha512_crypt}

pub record Shadow : Type 0 where
  pub name : String
  pub passwd : String
  pub lastchg : ℕ

-- A pod of the user: the USER_PW_HASH of its account Secret, where it has one, and the hash in its
-- own shadow file.
pub record Pod : Type 0 where
  pub name : String
  pub running : Bool
  pub secret : Option String
  pub password : String

pub record Places : Type 0 where
  pub ledger : List (Line Shadow)
  pub pods : List Pod

-- A call that is answered, that fails, or whose answer is lost after it had its effect.
pub data Reply : Type 0 where
  replied : Reply
  failed : Reply
  lost : Reply

-- The answers to the calls of one round, by pod, and whether the ledger can be written.
pub record Answers : Type 0 where
  pub writes_ledger : Bool
  pub lists_for_secrets : Bool
  pub patches : String → Reply
  pub lists_for_pods : Bool
  pub executes : String → Reply

-- What the step raises, with whether everything was rolled back.
pub data PasswordResult : Type 0 where
  changed : PasswordResult
  user_not_found : PasswordResult
  ledger_write_raised : PasswordResult
  secret_update_failed : Bool → PasswordResult
  pod_password_sync_failed : Bool → PasswordResult

-- `set_ledger_password`: the hash before, and the lines with the new one; the first entry counts.
unfoldable pub set_hash :
    ℕ → String → String → List (Line Shadow) → Option String × List (Line Shadow)
set_hash today user hash [] = (none, [])
set_hash today user hash (entry s ∷ lines) =
    let rest = set_hash today user hash lines in
    if s.name == user
    then (some s.passwd, entry (record s { passwd = hash; lastchg = today }) ∷ lines)
    else (rest.0, entry s ∷ rest.1)
set_hash today user hash (unparsed t ∷ lines) =
    let rest = set_hash today user hash lines in (rest.0, unparsed t ∷ rest.1)

-- The Secret after a patch, and whether the loop goes on. Where there is no Secret the API's reply is
-- 404, which is skipped; a call that fails otherwise raises there too.
unfoldable pub patch_secret : Reply → String → Pod → Bool × Pod
patch_secret r hash p = elim p.secret [
  | none ↦ elim r [ replied ↦ (true, p) | failed ↦ (false, p) | lost ↦ (false, p) ]
  | some old ↦ elim r [
    | replied ↦ (true, record p { secret = some hash })
    | failed ↦ (false, p)
    | lost ↦ (false, record p { secret = some hash })
  ]
]

unfoldable pub patch_secrets : (String → Reply) → String → List Pod → Bool × List Pod
unfolding patch_secret
patch_secrets patches hash [] = (true, [])
patch_secrets patches hash (p ∷ pods) =
    let rest = patch_secrets patches hash pods in
    let r = patch_secret (patches p.name) hash p in
    if r.0 then (rest.0, r.1 ∷ rest.1) else (false, r.1 ∷ pods)

-- `update_account_secrets`; false where it raises.
unfoldable pub update_account_secrets : Answers → String → List Pod → Bool × List Pod
unfolding patch_secrets
update_account_secrets answers hash pods =
    if answers.lists_for_secrets then patch_secrets answers.patches hash pods else (false, pods)

-- The script prints __RC=0 only after it has set the password.
unfoldable pub execute : Reply → String → Pod → Bool × Pod
execute r hash p = elim r [
  | replied ↦ (true, record p { password = hash })
  | failed ↦ (false, p)
  | lost ↦ (false, record p { password = hash })
]

-- Every running pod is tried; whether none failed.
unfoldable pub execute_running : (String → Reply) → String → List Pod → Bool × List Pod
unfolding execute
execute_running executes hash [] = (true, [])
execute_running executes hash (p ∷ pods) =
    let rest = execute_running executes hash pods in
    let r = execute (executes p.name) hash p in
    if p.running then (r.0 && rest.0, r.1 ∷ rest.1) else (rest.0, p ∷ rest.1)

-- `sync_running_pod_password`; whether there is neither an error nor a failed pod.
unfoldable pub sync_running_pod_password : Answers → String → List Pod → Bool × List Pod
unfolding execute_running
sync_running_pod_password answers hash pods =
    if answers.lists_for_pods then execute_running answers.executes hash pods else (false, pods)

-- `step_change_login_password`, on a day.
module _ (today : ℕ) where
  unfoldable pub restored_pods : Answers → String → List (Line Shadow) → List Pod → Bool × Places
  unfolding update_account_secrets sync_running_pod_password is_sha512_crypt
  restored_pods answers old lines pods =
      let secrets = update_account_secrets answers old pods in
      let synced = sync_running_pod_password answers old secrets.1 in
      if not (is_sha512_crypt old)
      then (false, record { ledger = lines; pods = pods })
      else if secrets.0
      then (synced.0, record { ledger = lines; pods = synced.1 })
      else (false, record { ledger = lines; pods = secrets.1 })

  -- `_restore_password`
  unfoldable pub restore_password : Answers → String → String → Places → Bool × Places
  unfolding set_hash restored_pods
  restore_password answers user old s =
      if answers.writes_ledger
      then restored_pods answers old (set_hash today user old s.ledger).1 s.pods
      else (false, s)

  -- `_fail`
  unfoldable pub roll_back_password : Answers → String → String → String → Places → Bool × Places
  unfolding restore_password
  roll_back_password back user hash old s =
      if old == hash then (false, s) else restore_password back user old s

  change_pods :
      Answers
      → Answers
      → String
      → String
      → String
      → List (Line Shadow)
      → List Pod
      → PasswordResult × Places
  unfolding update_account_secrets sync_running_pod_password roll_back_password
  change_pods answers back user hash old lines pods =
      let secrets = update_account_secrets answers hash pods in
      let synced = sync_running_pod_password answers hash secrets.1 in
      let unpatched =
        roll_back_password back user hash old (record { ledger = lines; pods = secrets.1 }) in
      let unsynced =
        roll_back_password back user hash old (record { ledger = lines; pods = synced.1 }) in
      if secrets.0
      then if synced.0
        then (changed, record { ledger = lines; pods = synced.1 })
        else (pod_password_sync_failed unsynced.0, unsynced.1)
      else (secret_update_failed unpatched.0, unpatched.1)

  unfoldable pub step_change_login_password :
      Answers → Answers → String → String → Places → PasswordResult × Places
  unfolding set_hash change_pods
  step_change_login_password answers back user hash s =
      let set = set_hash today user hash s.ledger in
      elim set.0 [
        | none ↦ (user_not_found, s)
        | some old ↦
            if answers.writes_ledger
            then change_pods answers back user hash old set.1 s.pods
            else (ledger_write_raised, s)
      ]
