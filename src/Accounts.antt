-- ===== src/Accounts.antt =====
-- An account step that was interrupted: `_account_missing_parts` and `_judge_interrupted_account`
-- of config-server/application/jobs.py, `_rollback_user` of config-server/lifecycle_steps/provision.py.
pub mod Interrupted
mod Tests
use admin_infra_proposed.Base.{
  ℕ, String, Bool, true, false, not, ◌&&◌, ◌||◌, Option, none, some, List, [], ◌∷◌, ◌++◌,
  if◌then◌else◌, ◌=ℕ◌, ◌==◌, contains, without,
}
use admin_infra_proposed.Ledger.{Account, GroupEntry, Line, entry, unparsed}

-- The account files: passwd, group, shadow (whose entries are names here), and the users whose
-- sudoers file is there and not empty.
pub record AccountFiles : Type 0 where
  pub accounts : List (Line Account)
  pub groups : List (Line GroupEntry)
  pub shadows : List (Line String)
  pub sudoers : List String

-- What the judgement reads of the job's context; the groups have their gids by then.
pub record AccountJob : Type 0 where
  pub name : String
  pub pg_name : String
  pub supp_groups : List (String × ℕ)
  pub account_write_started : Option ℕ

unfoldable pub drop_account : String → List (Line Account) → List (Line Account)
drop_account name [] = []
drop_account name (entry a ∷ lines) =
    let rest = drop_account name lines in if a.name == name then rest else entry a ∷ rest
drop_account name (unparsed t ∷ lines) = unparsed t ∷ drop_account name lines

unfoldable pub drop_shadow : String → List (Line String) → List (Line String)
drop_shadow name [] = []
drop_shadow name (entry n ∷ lines) =
    let rest = drop_shadow name lines in if n == name then rest else entry n ∷ rest
drop_shadow name (unparsed t ∷ lines) = unparsed t ∷ drop_shadow name lines

abbrev is_gid : Option ℕ → ℕ → Bool
is_gid none gid = false
is_gid (some p) gid = gid =ℕ p

abbrev pub no_members : List String → Bool
no_members [] = true
no_members (m ∷ ms) = false

-- The group lines without the user, and without the user's own group when nobody is left in it.
unfoldable pub clean_groups : String → Option ℕ → List (Line GroupEntry) → List (Line GroupEntry)
unfolding without contains
clean_groups name gid [] = []
clean_groups name gid (entry g ∷ lines) =
    let rest = clean_groups name gid lines in
    let members = without (name ∷ []) g.members in
    if (g.name == name || is_gid gid g.gid) && no_members members
    then rest
    else entry (record g { members = members }) ∷ rest
clean_groups name gid (unparsed t ∷ lines) = unparsed t ∷ clean_groups name gid lines

unfoldable pub rollback_user : String → Option ℕ → AccountFiles → AccountFiles
unfolding drop_account drop_shadow clean_groups
rollback_user name gid files = record {
  accounts = drop_account name files.accounts;
  groups = clean_groups name gid files.groups;
  shadows = drop_shadow name files.shadows;
  sudoers = files.sudoers;
}

unfoldable pub has_primary : ℕ → String → List (Line GroupEntry) → Bool
has_primary gid name [] = false
has_primary gid name (entry g ∷ lines) =
    (g.gid =ℕ gid && g.name == name) || has_primary gid name lines
has_primary gid name (unparsed t ∷ lines) = has_primary gid name lines

unfoldable pub is_member : ℕ → String → List (Line GroupEntry) → Bool
unfolding contains
is_member gid name [] = false
is_member gid name (entry g ∷ lines) =
    (g.gid =ℕ gid && contains name g.members) || is_member gid name lines
is_member gid name (unparsed t ∷ lines) = is_member gid name lines

unfoldable pub has_shadow : String → List (Line String) → Bool
has_shadow name [] = false
has_shadow name (entry n ∷ lines) = n == name || has_shadow name lines
has_shadow name (unparsed t ∷ lines) = has_shadow name lines

pub data Missing : Type 0 where
  primary : Missing
  supplementary : String → Missing
  shadow : Missing
  sudoers : Missing

unfoldable pub missing_groups : String → List (String × ℕ) → List (Line GroupEntry) → List Missing
unfolding is_member
missing_groups name [] lines = []
missing_groups name ((group, gid) ∷ groups) lines =
    let rest = missing_groups name groups lines in
    if is_member gid name lines then rest else supplementary group ∷ rest

-- `policy` says whether a user gets a sudoers file.
unfoldable pub account_missing_parts : Bool → AccountJob → ℕ → AccountFiles → List Missing
unfolding has_primary missing_groups has_shadow contains
account_missing_parts policy job gid files =
    (if has_primary gid job.pg_name files.groups then [] else primary ∷ [])
    ++ missing_groups job.name job.supp_groups files.groups
    ++ (if has_shadow job.name files.shadows then [] else shadow ∷ [])
    ++ (if policy && not (contains job.name files.sudoers) then sudoers ∷ [] else [])

-- `next(e for e in ... if e["name"] == name)`
unfoldable pub first_account : String → List (Line Account) → Option Account
first_account name [] = none
first_account name (entry a ∷ lines) =
    let rest = first_account name lines in if a.name == name then some a else rest
first_account name (unparsed t ∷ lines) = first_account name lines

-- The step runs, with the uid that the context gets, or it counts as done.
pub data Judged : Type 0 where
  runs : Option ℕ → Judged
  counts_as_done : Account → Judged

judge_parts : AccountJob → ℕ → Account → List Missing → AccountFiles → Judged × AccountFiles
unfolding rollback_user
judge_parts job marker a [] files = (counts_as_done a, files)
judge_parts job marker a (m ∷ ms) files =
    (runs (some marker), rollback_user job.name (some a.gid) files)

judge_entry : Bool → AccountJob → ℕ → Option Account → AccountFiles → Judged × AccountFiles
unfolding account_missing_parts judge_parts
judge_entry policy job marker none files = (runs none, files)
judge_entry policy job marker (some a) files =
    if a.uid =ℕ marker
    then judge_parts job marker a (account_missing_parts policy job a.gid files) files
    else (runs none, files)

judge_marked : Bool → AccountJob → Option ℕ → AccountFiles → Judged × AccountFiles
unfolding first_account judge_entry
judge_marked policy job none files = (runs none, files)
judge_marked policy job (some marker) files =
    judge_entry policy job marker (first_account job.name files.accounts) files

-- `_judge_interrupted_account`, where the account files can be read.
unfoldable pub judge_interrupted_account : Bool → AccountJob → AccountFiles → Judged × AccountFiles
unfolding judge_marked
judge_interrupted_account policy job files = judge_marked policy job job.account_write_started files
