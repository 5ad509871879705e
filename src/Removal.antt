-- ===== src/Removal.antt =====
-- The removal of an account: `step_check_account_revocable`, `_remove_account_leftovers`,
-- `_account_deletion_evidence` and `step_delete_account` of config-server/lifecycle_steps/revoke.py,
-- on account files that can be read.
pub mod Others
pub mod Recorded
pub mod Evidence
pub mod Again
mod Tests
use admin_infra_proposed.Base.{
  ℕ, ◌+◌, String, Bool, true, false, not, ◌&&◌, ◌||◌, Option, none, some, List, [], ◌∷◌, ◌++◌,
  if◌then◌else◌, ◌=ℕ◌, ◌==◌, ltb, contains, without, joined,
}
use admin_infra_proposed.Jobs.Types.{Phase, start, success, fail}
use admin_infra_proposed.Ledger.{Account, GroupEntry, Line, entry, unparsed}
use admin_infra_proposed.Accounts.{
  AccountFiles, drop_account, drop_shadow, clean_groups, no_members, has_shadow,
}

-- A row of operation_log with resource_type account: a creation or a deletion. `already_absent` is
-- whether its detail says so.
pub record AccountRow : Type 0 where
  pub id : ℕ
  pub username : String
  pub deletes : Bool
  pub phase : Phase
  pub error_code : Option String
  pub already_absent : Bool

pub record Records : Type 0 where
  pub files : AccountFiles
  pub log : List AccountRow
  pub next_id : ℕ

abbrev succeeded : Phase → Bool
succeeded success = true
succeeded _ = false

abbrev has_code : String → Option String → Bool
has_code code none = false
has_code code (some c) = c == code

abbrev is_creation : String → AccountRow → Bool
is_creation name r = (r.username == name && not r.deletes) && succeeded r.phase

-- `COALESCE(MAX(id), 0)` over the creations.
unfoldable pub last_created : String → List AccountRow → ℕ
last_created name [] = 0
last_created name (r ∷ log) =
    let rest = last_created name log in if is_creation name r && ltb rest r.id then r.id else rest

-- A deletion that has changed the account files.
abbrev pub is_evidence : String → ℕ → AccountRow → Bool
is_evidence name created r =
    ((r.username == name && r.deletes) && ltb created r.id)
    && ((succeeded r.phase && not r.already_absent)
        || has_code "ACCOUNT_FILE_WRITE_FAILED" r.error_code)

later_row : AccountRow → Option AccountRow → Option AccountRow
later_row r none = some r
later_row r (some s) = if ltb r.id s.id then some s else some r

-- `ORDER BY id DESC LIMIT 1`
unfoldable pub last_evidence : String → ℕ → List AccountRow → Option AccountRow
unfolding later_row
last_evidence name created [] = none
last_evidence name created (r ∷ log) =
    let rest = last_evidence name created log in
    if is_evidence name created r then later_row r rest else rest

-- `_query_deletion_evidence`
unfoldable pub deletion_evidence : String → List AccountRow → Option AccountRow
unfolding last_created last_evidence
deletion_evidence name log = last_evidence name (last_created name log) log

-- What the lookup, the three writes and the two rows of a deletion do: whether they succeed. A row
-- that cannot be written is passed over.
pub record Answers : Type 0 where
  pub looks_up : Bool
  pub writes_passwd : Bool
  pub writes_shadow : Bool
  pub writes_group : Bool
  pub logs_start : Bool
  pub logs_end : Bool

unfoldable pub log_deletion : Bool → String → Phase → Option String → Bool → Records → Records
log_deletion false name phase code absent s = s
log_deletion true name phase code absent s = record {
  files = s.files;
  log =
      s.log
      ++ record {
        id = s.next_id;
        username = name;
        deletes = true;
        phase = phase;
        error_code = code;
        already_absent = absent;
      }
        ∷ [];
  next_id = s.next_id + 1;
}

-- `removed_user`: the last line of the name.
unfoldable pub removed_user : String → List (Line Account) → Option Account
removed_user name [] = none
removed_user name (entry a ∷ lines) =
    let rest = removed_user name lines in
    elim rest [ some b ↦ some b | none ↦ if a.name == name then some a else none ]
removed_user name (unparsed t ∷ lines) = removed_user name lines

-- The group lines without the user, and without its own group when nobody is left in it.
unfoldable pub leave_groups : String → ℕ → List (Line GroupEntry) → List (Line GroupEntry)
unfolding without contains
leave_groups name gid [] = []
leave_groups name gid (entry g ∷ lines) =
    let rest = leave_groups name gid lines in
    let members = without (name ∷ []) g.members in
    if g.gid =ℕ gid && no_members members
    then rest
    else entry (record g { members = members }) ∷ rest
leave_groups name gid (unparsed t ∷ lines) = unparsed t ∷ leave_groups name gid lines

pub data Leftover : Type 0 where
  shadow_line : Leftover
  membership : String → Leftover
  own_group : String → Leftover

unfoldable pub group_leftovers : String → List (Line GroupEntry) → List Leftover
unfolding without contains
group_leftovers name [] = []
group_leftovers name (entry g ∷ lines) =
    (if contains name g.members then membership g.name ∷ [] else [])
    ++ (if g.name == name && no_members (without (name ∷ []) g.members)
        then own_group g.name ∷ []
        else [])
    ++ group_leftovers name lines
group_leftovers name (unparsed t ∷ lines) = group_leftovers name lines

-- How the step ends; the last is an exception of a write.
pub data Deletion : Type 0 where
  deleted : Deletion
  already_gone : AccountRow → List Leftover → Deletion
  evidence_lookup_failed : Deletion
  absent_unverified : Deletion
  user_not_found : Deletion
  write_failed : Deletion

-- `_remove_account_leftovers`: what was removed, or nothing where a write raised. A file that does
-- not change is not written.
unfoldable pub remove_leftovers :
    Answers → String → AccountFiles → Option (List Leftover) × AccountFiles
unfolding drop_shadow clean_groups has_shadow group_leftovers
remove_leftovers ans name files =
    let found = (if has_shadow name files.shadows then shadow_line ∷ [] else []) in
    let groups_found = group_leftovers name files.groups in
    let files' = record files { shadows = drop_shadow name files.shadows } in
    if has_shadow name files.shadows && not ans.writes_shadow
    then (none, files)
    else elim groups_found [
      | [] ↦ (some found, files')
      | l ∷ ls ↦
          if ans.writes_group
          then (
            some (found ++ l ∷ ls),
            record files' { groups = clean_groups name none files.groups },
          )
          else (none, files')
    ]

unfoldable pub already :
    Answers
    → String
    → AccountRow
    → Records
    → Option (List Leftover) × AccountFiles
    → Deletion × Records
unfolding log_deletion
already ans name row s (none, files) = (write_failed, record s { files = files })
already ans name row s (some leftovers, files) = (
  already_gone row leftovers,
  log_deletion ans.logs_end name success none true (record s { files = files }),
)

unfoldable pub absent : Answers → String → Option AccountRow → Records → Deletion × Records
unfolding already remove_leftovers log_deletion
absent ans name (some row) s = already ans name row s (remove_leftovers ans name s.files)
absent ans name none s = (
  absent_unverified,
  log_deletion ans.logs_end name fail (some "ACCOUNT_ABSENT_UNVERIFIED") false s,
)

-- The three files, one write after the other: what stands in them when a write raises, and whether
-- all were written.
unfoldable pub delete_files : Answers → String → ℕ → AccountFiles → Bool × AccountFiles
unfolding drop_account drop_shadow leave_groups
delete_files ans name gid files =
    let files1 = record files { accounts = drop_account name files.accounts } in
    let files2 = record files1 { shadows = drop_shadow name files.shadows } in
    if not ans.writes_passwd
    then (false, files)
    else if not ans.writes_shadow
    then (false, files1)
    else if not ans.writes_group
    then (false, files2)
    else (true, record files2 { groups = leave_groups name gid files.groups })

unfoldable pub written : Answers → String → Records → Bool × AccountFiles → Deletion × Records
unfolding log_deletion
written ans name s (true, files) =
    (deleted, log_deletion ans.logs_end name success none false (record s { files = files }))
written ans name s (false, files) = (
  write_failed,
  log_deletion ans.logs_end name fail (some "ACCOUNT_FILE_WRITE_FAILED") false
      (record s { files = files }),
)

-- Under the ledger lock; `goal` is account_absent_is_goal.
unfoldable pub delete_locked :
    Bool → Answers → String → Option Account → Records → Deletion × Records
unfolding written delete_files absent deletion_evidence log_deletion
delete_locked goal ans name (some a) s = written ans name s (delete_files ans name a.gid s.files)
delete_locked true ans name none s =
    if ans.looks_up
    then absent ans name (deletion_evidence name s.log) s
    else (evidence_lookup_failed, s)
delete_locked false ans name none s =
    (user_not_found, log_deletion ans.logs_end name fail (some "USER_NOT_FOUND") false s)

-- `step_delete_account`
unfoldable pub step_delete_account : Bool → Answers → String → Records → Deletion × Records
unfolding delete_locked removed_user log_deletion
step_delete_account goal ans name s =
    delete_locked goal ans name (removed_user name s.files.accounts)
      (log_deletion ans.logs_start name start none false s)

pub data Revocable : Type 0 where
  revocable : Revocable
  account_node_unknown : Revocable
  account_in_use : List String → Revocable

abbrev is_known : Option String → Bool
is_known none = false
is_known (some node) = not (node == "")

unfoldable pub other_pods : Option String → List String → List String
other_pods pod [] = []
other_pods none (p ∷ pods) = p ∷ other_pods none pods
other_pods (some pod) (p ∷ pods) =
    let rest = other_pods (some pod) pods in if p == pod then rest else p ∷ rest

-- `step_check_account_revocable`, by whether Kerberos is in use, the two nodes, the pod of the job,
-- and the pods of the user; an empty text counts as no node.
unfoldable pub step_check_account_revocable :
    Bool → Option String → Option String → Option String → List String → Revocable
unfolding other_pods
step_check_account_revocable realm node pod_node pod pods =
    if realm && not (is_known node || is_known pod_node)
    then account_node_unknown
    else elim (other_pods pod pods) [ [] ↦ revocable | p ∷ ps ↦ account_in_use (p ∷ ps) ]
