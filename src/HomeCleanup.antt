-- ===== src/HomeCleanup.antt =====
-- The homes of accounts that are no longer used: config-server/lifecycle_steps/home.py, on the homes
-- of the NAS as a list of owners by user.
pub mod Safe
mod Tests
use admin_infra_proposed.Base.{
  ℕ, String, Bool, true, false, not, ◌&&◌, ◌||◌, Option, none, some, List, [], ◌∷◌, if◌then◌else◌,
  leb, ◌=ℕ◌, ◌==◌, length,
}
use admin_infra_proposed.Jobs.Types.{Kind, provision, migrate}
use admin_infra_proposed.Journal.{take}
use admin_infra_proposed.Ledger.{Account, Line, entry, unparsed}
use admin_infra_proposed.Accounts.{first_account}

-- A home is whole as long as no part of it was deleted.
pub record Home : Type 0 where
  pub user : String
  pub owner : ℕ
  pub whole : Bool

-- A job without an end, of those that find_unfinished_jobs gives.
pub record Unfinished : Type 0 where
  pub kind : Kind
  pub username : String

pub data Cleanup : Type 0 where
  deleted : Cleanup
  already_gone : Cleanup
  home_in_use : Cleanup
  home_root_unreachable : Cleanup
  home_owner_mismatch : Cleanup
  lookup_failed : Cleanup
  delete_failed : Cleanup

-- How `sudo rm -rf` over SSH ends: with its answer, with nothing deleted, with a part deleted, or
-- with all deleted and the answer lost. Only the first raises nothing.
pub data Deletion : Type 0 where
  answered : Deletion
  refused : Deletion
  broken_off : Deletion
  unanswered : Deletion

-- The answers of the NAS: whether the owner can be looked up, whether the root of the homes is seen,
-- how the deletion of a home ends, and whether one can be made.
pub record Nas : Type 0 where
  pub looks_up : Bool
  pub root_reachable : Bool
  pub deletes : Deletion
  pub creates : Bool

-- _HOME_USING_JOB_KINDS
abbrev uses_home : Kind → Bool
uses_home provision = true
uses_home migrate = true
uses_home _ = false

unfoldable pub job_uses_home : String → List Unfinished → Bool
job_uses_home user [] = false
job_uses_home user (j ∷ jobs) = (j.username == user && uses_home j.kind) || job_uses_home user jobs

-- `_require_home_unused`: a list that the limit may have cut off proves nothing.
unfoldable pub home_unused : ℕ → String → List String → List Unfinished → Bool
unfolding job_uses_home take
home_unused limit user (p ∷ pods) jobs = false
home_unused limit user [] jobs =
    not (leb limit (length (take limit jobs))) && not (job_uses_home user (take limit jobs))

unfoldable pub owner_of : String → List Home → Option ℕ
owner_of user [] = none
owner_of user (h ∷ homes) =
    let rest = owner_of user homes in if h.user == user then some h.owner else rest

unfoldable pub drop_home : String → List Home → List Home
drop_home user [] = []
drop_home user (h ∷ homes) =
    let rest = drop_home user homes in if h.user == user then rest else h ∷ rest

unfoldable pub spoil_home : String → List Home → List Home
spoil_home user [] = []
spoil_home user (h ∷ homes) =
    let rest = spoil_home user homes in
    if h.user == user then record h { whole = false } ∷ rest else h ∷ rest

-- `delete_user_home_directory`
unfoldable pub delete_home : Deletion → String → List Home → Cleanup × List Home
unfolding drop_home spoil_home
delete_home answered user homes = (deleted, drop_home user homes)
delete_home refused user homes = (delete_failed, homes)
delete_home broken_off user homes = (delete_failed, spoil_home user homes)
delete_home unanswered user homes = (delete_failed, drop_home user homes)

delete_owned : Nas → String → ℕ → Option ℕ → List Home → Cleanup × List Home
unfolding delete_home
delete_owned nas user expected none homes =
    (if nas.root_reachable then already_gone else home_root_unreachable, homes)
delete_owned nas user expected (some owner) homes =
    if not (owner =ℕ expected)
    then (home_owner_mismatch, homes)
    else delete_home nas.deletes user homes

-- `step_delete_expired_home`
unfoldable pub step_delete_expired_home :
    ℕ → Nas → String → ℕ → List String → List Unfinished → List Home → Cleanup × List Home
unfolding home_unused delete_owned owner_of
step_delete_expired_home limit nas user expected pods jobs homes =
    if not (home_unused limit user pods jobs)
    then (home_in_use, homes)
    else if nas.looks_up
    then delete_owned nas user expected (owner_of user homes) homes
    else (lookup_failed, homes)

pub data Restored : Type 0 where
  not_needed : Restored
  restored : Restored
  nas_ssh_failed : Restored

restore_for : Nas → Account → Option ℕ → List Home → Restored × List Home
restore_for nas a (some owner) homes = (not_needed, homes)
restore_for nas a none homes =
    if nas.root_reachable && nas.creates
    then (restored, record { user = a.name; owner = a.uid; whole = true } ∷ homes)
    else (nas_ssh_failed, homes)

restore_account : Nas → Option Account → List Home → Restored × List Home
unfolding restore_for owner_of
restore_account nas none homes = (not_needed, homes)
restore_account nas (some a) homes =
    if nas.looks_up
    then restore_for nas a (owner_of a.name homes) homes
    else (nas_ssh_failed, homes)

-- `step_restore_missing_home`; the ids are those of the first account of the name.
unfoldable pub step_restore_missing_home :
    Nas → String → List (Line Account) → List Home → Restored × List Home
unfolding restore_account first_account
step_restore_missing_home nas user accounts homes =
    restore_account nas (first_account user accounts) homes
