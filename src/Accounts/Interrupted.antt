-- ===== src/Accounts/Interrupted.antt =====
-- What the judgement of an interrupted account step finds, and what its rollback leaves.
use admin_infra_proposed.Base.{
  ℕ, String, ◌≡◌, refl, inl, inr, ◌∙◌, Bool, true, false, not, ◌&&◌, ◌||◌, Option, none, some, List,
  [], ◌∷◌, arith, ◌=ℕ◌, ◌==◌, eq_iff, contains, without, contains-without, Option-cases,
  if◌then◌else◌,
}
use admin_infra_proposed.Ledger.{Account, GroupEntry, Line, entry, unparsed}
use admin_infra_proposed.Accounts.{
  AccountFiles, AccountJob, drop_account, drop_shadow, clean_groups, rollback_user, has_shadow,
  first_account, counts_as_done, judge_interrupted_account, judge_marked, judge_entry, judge_parts,
  account_missing_parts, is_member, no_members,
}

pub first_account-drop_account :
    (n name : String) (lines : List (Line Account))
    → first_account n (drop_account name lines)
      ≡ (if n == name then none else first_account n lines)
unfolding first_account drop_account
first_account-drop_account n name [] = ground arith
first_account-drop_account n name (entry a ∷ lines) = ground (
  arith,
  first_account-drop_account n name lines,
  eq_iff a.name n,
  eq_iff a.name name,
  eq_iff n name,
)
first_account-drop_account n name (unparsed t ∷ lines) = first_account-drop_account n name lines

pub has_shadow-drop_shadow :
    (n name : String) (lines : List (Line String))
    → has_shadow n (drop_shadow name lines) ≡ has_shadow n lines && not (n == name)
unfolding has_shadow drop_shadow
has_shadow-drop_shadow n name [] = refl
has_shadow-drop_shadow n name (entry s ∷ lines) =
    ground (arith, has_shadow-drop_shadow n name lines, eq_iff s n, eq_iff s name, eq_iff n name)
has_shadow-drop_shadow n name (unparsed t ∷ lines) = has_shadow-drop_shadow n name lines

pub none_of_none : (n : String) (ms : List String) → no_members ms ≡ true → contains n ms ≡ false
unfolding contains
none_of_none n [] h = refl
none_of_none n (m ∷ ms) h = ground (arith, h)

pub left_members :
    (n name : String) (ms : List String)
    → contains n (without (name ∷ []) ms) ≡ contains n ms && not (n == name)
unfolding contains
left_members n name ms = ground (arith, contains-without n (name ∷ []) ms)

-- A line that is kept or dropped as `gone` says, where only a line without members is dropped.
pub clean_line :
    (gid : ℕ) (n : String) (e : GroupEntry) (gone : Bool) (rest : List (Line GroupEntry))
    → (gone ≡ true → contains n e.members ≡ false)
    → is_member gid n (if gone then rest else entry e ∷ rest)
      ≡ ((e.gid =ℕ gid && contains n e.members) || is_member gid n rest)
unfolding is_member
clean_line gid n e true rest h = ground (arith, h refl)
clean_line gid n e false rest h = refl

pub member_left : (a b c d : Bool) → (a && (b && d)) || (c && d) ≡ ((a && b) || c) && d
member_left a b c d = ground arith

pub and_right : (a b : Bool) → a && b ≡ true → b ≡ true
and_right a b h = ground (arith, h)

pub is_member-clean_groups :
    (gid : ℕ) (n name : String) (own : Option ℕ) (lines : List (Line GroupEntry))
    → is_member gid n (clean_groups name own lines) ≡ is_member gid n lines && not (n == name)
unfolding is_member clean_groups
is_member-clean_groups gid n name own [] = refl
is_member-clean_groups gid n name own (entry g ∷ lines) =
    let members = without (name ∷ []) g.members in
    clean_line gid n (record g { members = members }) _ (clean_groups name own lines)
      (λ p. none_of_none n members (and_right _ _ p))
    ∙ rw (left_members n name g.members) (
        rw (is_member-clean_groups gid n name own lines) (
          member_left (g.gid =ℕ gid) (contains n g.members) (is_member gid n lines)
            (not (n == name))))
is_member-clean_groups gid n name own (unparsed t ∷ lines) =
    is_member-clean_groups gid n name own lines

-- The rollback takes the user out of the account files, from the members of every group too, and
-- leaves the passwd and shadow entries and the memberships of every other user.
pub rollback_user_lem :
    (n name : String) (own : Option ℕ) (files : AccountFiles)
    → let files' = rollback_user name own files in
      (first_account n files'.accounts
        ≡ (if n == name then none else first_account n files.accounts))
      × (has_shadow n files'.shadows ≡ has_shadow n files.shadows && not (n == name))
      × ((gid : ℕ)
          → is_member gid n files'.groups ≡ is_member gid n files.groups && not (n == name))
unfolding rollback_user
rollback_user_lem n name own files = (
  first_account-drop_account n name files.accounts,
  has_shadow-drop_shadow n name files.shadows,
  λ gid. is_member-clean_groups gid n name own files.groups,
)

-- The step counts as done only for the account of its name whose uid is the one that the marker
-- holds and of which no part is missing, and then the files are as they were.
pub judge_interrupted_account_lem :
    (policy : Bool) (job : AccountJob) (files : AccountFiles) (a : Account)
    → (judge_interrupted_account policy job files).0 ≡ counts_as_done a
    → (job.account_write_started ≡ some a.uid)
      × (first_account job.name files.accounts ≡ some a)
      × (account_missing_parts policy job a.gid files ≡ [])
      × ((judge_interrupted_account policy job files).1 ≡ files)
unfolding judge_interrupted_account judge_marked judge_entry judge_parts
judge_interrupted_account_lem policy job files a h = elim (Option-cases job.account_write_started) [
  | inl unmarked ↦ ground (arith, unmarked, h)
  | inr (marker, marked) ↦ elim (Option-cases (first_account job.name files.accounts)) [
    | inl absent ↦ ground (arith, marked, absent, h)
    | inr (b, found) ↦ ground (arith, marked, found, h)
  ]
]
