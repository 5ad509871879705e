-- ===== src/AccountCreation.antt =====
-- The creation of an account: `step_create_account` and `_returning_owner_uid` of
-- config-server/lifecycle_steps/provision.py, on the account files as parsed.
pub mod Groups
pub mod Outcomes
pub mod Complete
mod Tests
use admin_infra_proposed.Base.{
  ℕ, String, Bool, true, false, not, ◌&&◌, ◌||◌, Option, none, some, List, [], ◌∷◌, ◌++◌,
  if◌then◌else◌, leb, ltb, ◌=ℕ◌, ◌==◌, contains, joined,
}
use admin_infra_proposed.Ledger.{
  Account, GroupEntry, Line, entry, unparsed, elem, IdKind, IssuedFile, read_issued_id_max,
  record_issued_id, allocate_next_uid,
}
use admin_infra_proposed.Accounts.{AccountFiles, rollback_user}
use admin_infra_proposed.Reclaim.{reclaim_uid}

-- What the step reads of the context. `candidates` are the uid of an earlier attempt and the one
-- that admin_be expects, where they are given.
pub record Request : Type 0 where
  pub name : String
  pub pg_name : String
  pub supp_groups : List (String × ℕ)
  pub candidates : List ℕ

-- UID_MIN, UID_MAX, SHARED_GID_MIN, and whether users get a sudoers file.
pub record Settings : Type 0 where
  pub uid_min : ℕ
  pub uid_max : Option ℕ
  pub shared_gid_min : ℕ
  pub sudoers : Bool

pub data Checkpoint : Type 0 where
  no_checkpoint : Checkpoint
  marked : Checkpoint
  loses_lease : Checkpoint
  mark_raises : Checkpoint

-- The answers: the owner of the user's home and the other homes of that owner, `none` where the
-- query raises; the checkpoint; and which of the files can be written,
-- in the creation and then in its rollback. A field that the formatting
-- refuses counts as a file that cannot be written.
pub record Answers : Type 0 where
  pub owner : Option (Option ℕ)
  pub sharers : Option (List String)
  pub checkpoint : Checkpoint
  pub writes_issued : Bool
  pub writes_passwd : Bool
  pub writes_group : Bool
  pub writes_shadow : Bool
  pub writes_sudoers : Bool
  pub undoes_passwd : Bool
  pub undoes_shadow : Bool
  pub undoes_group : Bool

pub record State : Type 0 where
  pub files : AccountFiles
  pub issued : IssuedFile

pub data Creation : Type 0 where
  created : ℕ → Creation
  nas_ssh_failed : Creation
  user_already_exists : Creation
  expected_uid_conflict : Creation
  uid_range_exhausted : Creation
  checkpoint_failed : Creation
  lease_lost : Creation
  passwd_write_failed : Creation
  group_write_failed : Creation
  shadow_write_failed : Creation
  sudoers_create_failed : Creation
  rollback_failed : Creation

unfoldable pub has_account : String → List (Line Account) → Bool
has_account name [] = false
has_account name (entry a ∷ lines) = a.name == name || has_account name lines
has_account name (unparsed t ∷ lines) = has_account name lines

-- `_returning_owner_uid`: nothing where a query raises, else the uid with its other homes, if any.
unfoldable pub returning_owner_uid :
    Answers → Request → List (Line Account) → Option (Option (ℕ × List String))
unfolding has_account elem
returning_owner_uid ans q accounts = elim q.candidates [
  | [] ↦ some none
  | c ∷ cs ↦ if has_account q.name accounts then some none else elim ans.owner [
    | none ↦ none
    | some none ↦ some none
    | some (some uid) ↦
        if elem uid (c ∷ cs)
        then elim ans.sharers [ none ↦ none | some homes ↦ some (some (uid, homes)) ]
        else some none
  ]
]

-- Whether the user's own group is there; nothing where a group has its gid or its name only.
unfoldable pub primary_exists : ℕ → String → List (Line GroupEntry) → Option Bool
primary_exists gid name [] = some false
primary_exists gid name (entry g ∷ lines) =
    let rest = primary_exists gid name lines in
    if not (g.gid =ℕ gid) && not (g.name == name)
    then rest
    else if not (g.gid =ℕ gid) || not (g.name == name)
    then none
    else elim rest [ none ↦ none | some b ↦ some true ]
primary_exists gid name (unparsed t ∷ lines) = primary_exists gid name lines

unfoldable pub add_name : String → List String → List String
unfolding contains
add_name name members = if contains name members then members else members ++ name ∷ []

unfoldable pub has_gid : ℕ → List (Line GroupEntry) → Bool
has_gid gid [] = false
has_gid gid (entry g ∷ lines) = g.gid =ℕ gid || has_gid gid lines
has_gid gid (unparsed t ∷ lines) = has_gid gid lines

unfoldable pub add_member : String → ℕ → List (Line GroupEntry) → List (Line GroupEntry)
unfolding add_name
add_member name gid [] = []
add_member name gid (entry g ∷ lines) =
    let rest = add_member name gid lines in
    if g.gid =ℕ gid
    then entry (record g { members = add_name name g.members }) ∷ rest
    else entry g ∷ rest
add_member name gid (unparsed t ∷ lines) = unparsed t ∷ add_member name gid lines

-- The record of issued ids and the group lines so far.
pub record Joining : Type 0 where
  pub issued : IssuedFile
  pub lines : List (Line GroupEntry)

with_line : String → String → ℕ → IssuedFile → List (Line GroupEntry) → Joining
with_line name group gid issued lines = record {
  issued = issued;
  lines = lines ++ entry (record { name = group; gid = gid; members = name ∷ [] }) ∷ [];
}

-- One supplementary group: where it has no line it gets one, and a shared gid is recorded as issued;
-- nothing is the exception of that record.
unfoldable pub join_group : Bool → ℕ → String → String × ℕ → Joining → Option Joining
unfolding has_gid add_member record_issued_id with_line
join_group writes shared_min name (group, gid) j =
    if has_gid gid j.lines
    then some (record j { lines = add_member name gid j.lines })
    else if leb shared_min gid
    then elim (record_issued_id writes IdKind.shared_gid gid j.issued) [
      | none ↦ none
      | some file ↦ some (with_line name group gid file j.lines)
    ]
    else some (with_line name group gid j.issued j.lines)

-- The loop: whether it ends, and what it has come to.
unfoldable pub join_groups : Bool → ℕ → String → List (String × ℕ) → Joining → Bool × Joining
unfolding join_group
join_groups writes shared_min name [] j = (true, j)
join_groups writes shared_min name (g ∷ groups) j = elim (join_group writes shared_min name g j) [
  | none ↦ (false, j)
  | some j' ↦ join_groups writes shared_min name groups j'
]

-- The group lines with the user's own group.
unfoldable pub with_primary : String → ℕ → Bool → List (Line GroupEntry) → List (Line GroupEntry)
with_primary group gid true lines = lines
with_primary group gid false lines =
    lines ++ entry (record { name = group; gid = gid; members = [] }) ∷ []

abbrev within : ℕ → Option ℕ → Bool
within uid none = true
within uid (some high) = not (ltb high uid)

-- The uid of the account, or the error.
pub data Chosen : Type 0 where
  chosen : ℕ → Chosen
  refused : Creation → Chosen

next_uid : Settings → List (Line Account) → Option ℕ → Chosen
unfolding allocate_next_uid
next_uid set accounts none = refused passwd_write_failed
next_uid set accounts (some issued) = elim (allocate_next_uid accounts set.uid_min issued) [
  | none ↦ refused passwd_write_failed
  | some uid ↦ if within uid set.uid_max then chosen uid else refused uid_range_exhausted
]

unfoldable pub choose_uid : Settings → Request → Option (ℕ × List String) → State → Chosen
unfolding next_uid reclaim_uid read_issued_id_max
choose_uid set q none s = next_uid set s.files.accounts (read_issued_id_max IdKind.uid s.issued)
choose_uid set q (some (uid, homes)) s =
    elim (reclaim_uid set.uid_min set.uid_max uid (q.name ∷ q.pg_name ∷ []) homes s.files.accounts
      s.files.groups) [ none ↦ refused expected_uid_conflict | some u ↦ chosen u ]

abbrev new_account : Request → ℕ → Account
new_account q uid = record { name = q.name; uid = uid; gid = uid; home = joined "/home/" q.name }

module _ (set : Settings) (ans : Answers) (q : Request) where
  -- `_rollback_user`, which writes passwd, shadow and group in this order, and what is then raised.
  roll_back : Creation → State → Creation × State
  unfolding rollback_user
  roll_back o s =
      let files = rollback_user q.name none s.files in
      if not ans.undoes_passwd
      then (rollback_failed, s)
      else if not ans.undoes_shadow
      then (rollback_failed, record s { files = record s.files { accounts = files.accounts } })
      else if not ans.undoes_group
      then (rollback_failed, record s { files = record files { groups = s.files.groups } })
      else (o, record s { files = files })

  write_sudoers : ℕ → State → Creation × State
  unfolding roll_back
  write_sudoers uid s =
      if not set.sudoers
      then (created uid, s)
      else if ans.writes_sudoers
      then (created uid, record s { files = record s.files { sudoers = q.name ∷ s.files.sudoers } })
      else roll_back sudoers_create_failed s

  write_shadow : ℕ → State → Creation × State
  unfolding write_sudoers roll_back
  write_shadow uid s =
      if ans.writes_shadow
      then write_sudoers uid
          (record s { files = record s.files { shadows = s.files.shadows ++ entry q.name ∷ [] } })
      else roll_back shadow_write_failed s

  unfoldable pub groups_joined : ℕ → State → Bool × Joining → Creation × State
  unfolding write_shadow roll_back
  groups_joined uid s (ok, j) =
      let s' = record s { issued = j.issued } in
      if ok && ans.writes_group
      then write_shadow uid (record s' { files = record s.files { groups = j.lines } })
      else roll_back group_write_failed s'

  unfoldable pub write_groups : ℕ → State → Creation × State
  unfolding groups_joined primary_exists with_primary join_groups roll_back
  write_groups uid s = elim (primary_exists uid q.pg_name s.files.groups) [
    | none ↦ roll_back group_write_failed s
    | some there ↦ groups_joined uid s (
        join_groups ans.writes_issued set.shared_gid_min q.name q.supp_groups
          (record { issued = s.issued; lines = with_primary q.pg_name uid there s.files.groups }))
  ]

  write_passwd : ℕ → State → Creation × State
  unfolding write_groups
  write_passwd uid s =
      if ans.writes_passwd
      then write_groups uid (record s {
        files = record s.files { accounts = s.files.accounts ++ entry (new_account q uid) ∷ [] };
      })
      else (passwd_write_failed, s)

  mark : ℕ → Checkpoint → State → Creation × State
  unfolding write_passwd
  mark uid no_checkpoint s = write_passwd uid s
  mark uid marked s = write_passwd uid s
  mark uid loses_lease s = (lease_lost, s)
  mark uid mark_raises s = (checkpoint_failed, s)

  record_uid : Chosen → State → Creation × State
  unfolding mark record_issued_id
  record_uid (refused o) s = (o, s)
  record_uid (chosen uid) s = elim (record_issued_id ans.writes_issued IdKind.uid uid s.issued) [
    | none ↦ (passwd_write_failed, s)
    | some file ↦ mark uid ans.checkpoint (record s { issued = file })
  ]

  unfoldable pub locked : Option (ℕ × List String) → State → Creation × State
  unfolding record_uid choose_uid has_account
  locked returning s =
      if has_account q.name s.files.accounts
      then (user_already_exists, s)
      else record_uid (choose_uid set q returning s) s

  -- `step_create_account`
  unfoldable pub step_create_account : State → Creation × State
  unfolding locked returning_owner_uid
  step_create_account s = elim (returning_owner_uid ans q s.files.accounts) [
    | none ↦ (nas_ssh_failed, s)
    | some returning ↦ locked returning s
  ]
