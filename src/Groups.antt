-- ===== src/Groups.antt =====
-- Shared groups in the account ledger: the checks, the issue of a gid, and the writing of a
-- group's line in config-server/lifecycle_steps/group.py.
pub mod Lines
pub mod Issuing
pub mod Resolving
pub mod History
mod Tests
use admin_infra_proposed.Base.{
  ℕ, String, Bool, true, false, not, ◌&&◌, ◌||◌, Option, none, some, List, [], ◌∷◌, ◌++◌,
  if◌then◌else◌, ltb, leb, ◌=ℕ◌, ◌==◌, contains, sorted,
}
use admin_infra_proposed.Jobs.Plan.{Group, any_new}
use admin_infra_proposed.Ledger.{
  Account, GroupEntry, Line, entry, unparsed, elem, used_gids, allocate_next_gid, shared_gid,
  IssuedFile, read_issued_id_max, record_issued_id,
}

-- RESERVED_GROUP_NAMES and the band of the shared gids, of config-server/main.py.
pub record Settings : Type 0 where
  pub reserved_names : List String
  pub shared_gid_min : ℕ
  pub shared_gid_max : Option ℕ

-- The ledger: the lines of the passwd and group files, and the record of issued ids.
pub record Files : Type 0 where
  pub accounts : List (Line Account)
  pub groups : List (Line GroupEntry)
  pub issued : IssuedFile

-- Whether the record of issued ids and the group file can be replaced.
pub record Disk : Type 0 where
  pub record_writes : Bool
  pub group_writes : Bool

-- The codes of the failures; `group_file_failed` is the exception of the file's replacement.
pub data GroupFailure : Type 0 where
  group_name_conflicts_user group_name_reserved invalid_group_member gid_out_of_range : GroupFailure
  user_not_found group_not_found primary_group : GroupFailure
  issued_id_record_failed gid_range_exhausted group_name_exists group_gid_exists : GroupFailure
  group_file_failed : GroupFailure

pub data Checked {ℓ} (A : Type ℓ) : Type ℓ where
  granted : A → Checked A
  denied : GroupFailure → Checked A

unfoldable pub account_names : List (Line Account) → List String
account_names [] = []
account_names (entry a ∷ lines) = a.name ∷ account_names lines
account_names (unparsed t ∷ lines) = account_names lines

-- `next(r for r in ... if r["name"] == name)`
unfoldable pub first_group : String → List (Line GroupEntry) → Option GroupEntry
first_group name [] = none
first_group name (entry g ∷ lines) =
    let rest = first_group name lines in if g.name == name then some g else rest
first_group name (unparsed t ∷ lines) = first_group name lines

-- The entry of `_ledger_groups`, of `_ledger_users`: of two lines with a name the last counts.
unfoldable pub ledger_group : String → List (Line GroupEntry) → Option GroupEntry
ledger_group name [] = none
ledger_group name (entry g ∷ lines) = elim (ledger_group name lines) [
  | some h ↦ some h
  | none ↦ if g.name == name then some g else none
]
ledger_group name (unparsed t ∷ lines) = ledger_group name lines

unfoldable pub ledger_user : String → List (Line Account) → Option Account
ledger_user name [] = none
ledger_user name (entry a ∷ lines) = elim (ledger_user name lines) [
  | some b ↦ some b
  | none ↦ if a.name == name then some a else none
]
ledger_user name (unparsed t ∷ lines) = ledger_user name lines

unfoldable pub all_in : List String → List String → Bool
unfolding contains
all_in [] names = true
all_in (m ∷ ms) names = contains m names && all_in ms names

above : ℕ → Option ℕ → Bool
above gid none = false
above gid (some high) = ltb high gid

unfoldable pub in_shared_band : Settings → ℕ → Bool
unfolding above
in_shared_band set gid = leb set.shared_gid_min gid && not (above gid set.shared_gid_max)

-- `none` where the check passes.
unfoldable pub check_create :
    Settings → Files → String → Option ℕ → List String → Option GroupFailure
unfolding account_names all_in contains above
check_create set files name gid members =
    if contains name (account_names files.accounts)
    then some group_name_conflicts_user
    else if contains name set.reserved_names
    then some group_name_reserved
    else if not (all_in members (account_names files.accounts))
    then some invalid_group_member
    else elim gid [
      | none ↦ none
      | some n ↦
          if ltb n set.shared_gid_min || above n set.shared_gid_max
          then some gid_out_of_range
          else none
    ]

unfoldable pub known_groups : List String → List (Line GroupEntry) → Bool
unfolding ledger_group
known_groups [] lines = true
known_groups (g ∷ gs) lines = elim (ledger_group g lines) [
  | none ↦ false
  | some _ ↦ known_groups gs lines
]

unfoldable pub check_add : Files → String → List String → Option GroupFailure
unfolding account_names contains known_groups
check_add files username groups =
    if not (contains username (account_names files.accounts))
    then some user_not_found
    else if known_groups groups files.groups
    then none
    else some group_not_found

check_primary : Option Account → GroupEntry → Option GroupFailure
check_primary none g = none
check_primary (some user) g = if user.gid =ℕ g.gid then some primary_group else none

unfoldable pub check_remove : Files → String → String → Option GroupFailure
unfolding ledger_group ledger_user check_primary
check_remove files username groupname = elim (ledger_group groupname files.groups) [
  | none ↦ some group_not_found
  | some g ↦ check_primary (ledger_user username files.accounts) g
]

unfoldable pub limit_gid : Settings → ℕ → Checked ℕ
unfolding above
limit_gid set gid = if above gid set.shared_gid_max then denied gid_range_exhausted else granted gid

-- An allocation that runs out of fuel would be the case `none`; it does not occur.
unfoldable pub issue_shared_gid : Settings → Files → Checked ℕ
unfolding read_issued_id_max allocate_next_gid limit_gid
issue_shared_gid set files = elim (read_issued_id_max shared_gid files.issued) [
  | none ↦ denied issued_id_record_failed
  | some issued_max ↦ elim (allocate_next_gid files.groups set.shared_gid_min issued_max) [
    | none ↦ denied gid_range_exhausted
    | some gid ↦ limit_gid set gid
  ]
]

with_group : Group → Checked (List Group) × Files → Checked (List Group) × Files
with_group g (denied e, files) = (denied e, files)
with_group g (granted gs, files) = (granted (g ∷ gs), files)

unfoldable pub rewrite_lines : String → GroupEntry → List (Line GroupEntry) → List (Line GroupEntry)
rewrite_lines name e [] = []
rewrite_lines name e (entry g ∷ lines) =
    let rest = rewrite_lines name e lines in
    if g.name == name then entry e ∷ rest else entry g ∷ rest
rewrite_lines name e (unparsed t ∷ lines) = unparsed t ∷ rewrite_lines name e lines

differs : Option ℕ → ℕ → Bool
differs none n = false
differs (some gid) n = not (n =ℕ gid)

module _ (set : Settings) (disk : Disk) where
  -- A new line at the end of the group file, after the record of its gid.
  append_line : String → ℕ → List String → Option IssuedFile → Files → Checked ℕ × Files
  append_line name gid members none files = (denied issued_id_record_failed, files)
  append_line name gid members (some issued) files =
      if disk.group_writes
      then (
        granted gid,
        record files {
          groups =
              files.groups ++ entry (record { name = name; gid = gid; members = members }) ∷ [];
          issued = issued;
        },
      )
      else (denied group_file_failed, record files { issued = issued })

  add_group : String → List String → Checked ℕ → Files → Checked ℕ × Files
  unfolding append_line record_issued_id
  add_group name members (denied e) files = (denied e, files)
  add_group name members (granted gid) files =
      append_line name gid members (record_issued_id disk.record_writes shared_gid gid files.issued)
        files

  shared_gid_of : String → Option GroupEntry → Files → Checked ℕ × Files
  unfolding in_shared_band issue_shared_gid add_group
  shared_gid_of name none files = add_group name [] (issue_shared_gid set files) files
  shared_gid_of name (some g) files =
      if in_shared_band set g.gid then (granted g.gid, files) else (denied group_name_exists, files)

  -- `_shared_group_gid`; the members of the line that it takes over are only logged.
  unfoldable pub shared_group_gid : String → Files → Checked ℕ × Files
  unfolding first_group shared_gid_of
  shared_group_gid name files = shared_gid_of name (first_group name files.groups) files

  resolved :
      Group
      → (Files → Checked (List Group) × Files)
      → Checked ℕ × Files
      → Checked (List Group) × Files
  unfolding with_group
  resolved g go (denied e, files) = (denied e, files)
  resolved g go (granted gid, files) = with_group (record g { gid = some gid }) (go files)

  resolve_one :
      Group
      → Option GroupFailure
      → (Files → Checked (List Group) × Files)
      → Files
      → Checked (List Group) × Files
  unfolding resolved shared_group_gid
  resolve_one g (some e) go files = (denied e, files)
  resolve_one g none go files = resolved g go (shared_group_gid g.name files)

  -- The loop of `step_resolve_new_groups`.
  unfoldable pub resolve_groups : List Group → Files → Checked (List Group) × Files
  unfolding resolve_one check_create with_group
  resolve_groups [] files = (granted [], files)
  resolve_groups (g ∷ gs) files = elim g.gid [
    | some _ ↦ with_group g (resolve_groups gs files)
    | none ↦ resolve_one g (check_create set files g.name none []) (resolve_groups gs) files
  ]

  -- `step_resolve_new_groups`, the groups being those that it puts in the context.
  unfoldable pub resolve_new_groups : List Group → Files → Checked (List Group) × Files
  unfolding resolve_groups any_new
  resolve_new_groups groups files =
      if any_new groups then resolve_groups groups files else (granted groups, files)

  -- The three cases of the gid: of the line that is there, issued, or asked for.
  new_gid : Option ℕ → Files → Checked ℕ
  unfolding issue_shared_gid used_gids elem
  new_gid none files = issue_shared_gid set files
  new_gid (some gid) files =
      if elem gid (used_gids files.groups) then denied group_gid_exists else granted gid

  write_line : String → Option ℕ → List String → Option GroupEntry → Files → Checked ℕ × Files
  unfolding differs all_in rewrite_lines sorted new_gid add_group
  write_line name gid members none files = add_group name (sorted members) (new_gid gid files) files
  write_line name gid members (some g) files =
      if differs gid g.gid || not (all_in g.members members)
      then (denied group_name_exists, files)
      else if disk.group_writes
      then (
        granted g.gid,
        record files {
          groups =
              rewrite_lines name (record { name = name; gid = g.gid; members = sorted members })
                files.groups;
        },
      )
      else (denied group_file_failed, files)

  -- `_write_group_line`
  unfoldable pub write_group_line : String → Option ℕ → List String → Files → Checked ℕ × Files
  unfolding first_group write_line
  write_group_line name gid members files =
      write_line name gid members (first_group name files.groups) files
