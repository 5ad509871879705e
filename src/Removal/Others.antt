-- ===== src/Removal/Others.antt =====
-- What a removal leaves of the other users and of the shared groups, whatever fails.
use admin_infra_proposed.Base.{
  ℕ, String, ◌≡◌, refl, sym, ap, inl, inr, ◌∙◌, ◌⊎◌, Bool, true, false, not, ◌&&◌, Option, none,
  some, List, [], ◌∷◌, arith, ◌=ℕ◌, ◌==◌, eq_iff, contains, without, Option-cases, Bool-cases,
}
use admin_infra_proposed.Jobs.Types.{Phase, start}
use admin_infra_proposed.Ledger.{Account, GroupEntry, Line, entry, unparsed}
use admin_infra_proposed.Accounts.{
  AccountFiles, drop_account, drop_shadow, clean_groups, has_shadow, first_account, is_member,
  has_primary,
}
use admin_infra_proposed.Accounts.Interrupted.{
  first_account-drop_account, has_shadow-drop_shadow, is_member-clean_groups, none_of_none,
  left_members, clean_line, member_left, and_right,
}
use admin_infra_proposed.Removal.{
  AccountRow, Records, Answers, log_deletion, removed_user, leave_groups, Leftover,
  remove_leftovers, already, absent, delete_files, written, delete_locked, step_delete_account,
  deletion_evidence,
}

pub is_member-leave_groups :
    (gid : ℕ) (n name : String) (own : ℕ) (lines : List (Line GroupEntry))
    → is_member gid n (leave_groups name own lines) ≡ is_member gid n lines && not (n == name)
unfolding is_member leave_groups
is_member-leave_groups gid n name own [] = refl
is_member-leave_groups gid n name own (entry g ∷ lines) =
    let members = without (name ∷ []) g.members in
    clean_line gid n (record g { members = members }) _ (leave_groups name own lines)
      (λ p. none_of_none n members (and_right _ _ p))
    ∙ rw (left_members n name g.members) (
        rw (is_member-leave_groups gid n name own lines) (
          member_left (g.gid =ℕ gid) (contains n g.members) (is_member gid n lines)
            (not (n == name))))
is_member-leave_groups gid n name own (unparsed t ∷ lines) =
    is_member-leave_groups gid n name own lines

has_primary-leave_groups :
    (gid : ℕ) (g name : String) (own : ℕ) (lines : List (Line GroupEntry))
    → (gid =ℕ own) ≡ false
    → has_primary gid g (leave_groups name own lines) ≡ has_primary gid g lines
unfolding has_primary leave_groups
has_primary-leave_groups gid g name own [] h = refl
has_primary-leave_groups gid g name own (entry e ∷ lines) h =
    ground (arith, h, has_primary-leave_groups gid g name own lines)
has_primary-leave_groups gid g name own (unparsed t ∷ lines) h =
    has_primary-leave_groups gid g name own lines h

has_primary-clean_groups :
    (gid : ℕ) (g name : String) (lines : List (Line GroupEntry))
    → (g == name) ≡ false
    → has_primary gid g (clean_groups name none lines) ≡ has_primary gid g lines
unfolding has_primary clean_groups
has_primary-clean_groups gid g name [] h = refl
has_primary-clean_groups gid g name (entry e ∷ lines) h =
    ground
      (arith, h, has_primary-clean_groups gid g name lines, eq_iff e.name g, eq_iff e.name name)
has_primary-clean_groups gid g name (unparsed t ∷ lines) h =
    has_primary-clean_groups gid g name lines h

-- Each file is as it was, or without the user.
abbrev pub Cleaned : String → List (Line GroupEntry) → AccountFiles → AccountFiles → Type 0
Cleaned name groups files files' =
    ((files'.accounts ≡ files.accounts) ⊎ (files'.accounts ≡ drop_account name files.accounts))
    × ((files'.shadows ≡ files.shadows) ⊎ (files'.shadows ≡ drop_shadow name files.shadows))
    × ((files'.groups ≡ files.groups) ⊎ (files'.groups ≡ groups))

delete_files-Cleaned :
    (ans : Answers) (name : String) (gid : ℕ) (files : AccountFiles)
    → Cleaned name (leave_groups name gid files.groups) files (delete_files ans name gid files).1
unfolding delete_files
delete_files-Cleaned ans name gid files = ground arith

remove_leftovers-Cleaned :
    (ans : Answers) (name : String) (files : AccountFiles)
    → Cleaned name (clean_groups name none files.groups) files (remove_leftovers ans name files).1
unfolding remove_leftovers
remove_leftovers-Cleaned ans name files = ground arith

abbrev pub is_own : ℕ → Option Account → Bool
is_own gid none = false
is_own gid (some a) = gid =ℕ a.gid

-- What stays of another user, and of a group that is not the removed user's own.
abbrev pub Spared : String → Option Account → String → AccountFiles → AccountFiles → Type 0
Spared name own n files files' =
    (first_account n files'.accounts ≡ first_account n files.accounts)
    × (has_shadow n files'.shadows ≡ has_shadow n files.shadows)
    × ((gid : ℕ) → is_member gid n files'.groups ≡ is_member gid n files.groups)
    × ((gid : ℕ) (g : String)
        → (g == name) ≡ false
        → is_own gid own ≡ false
        → has_primary gid g files'.groups ≡ has_primary gid g files.groups)

same_or {ℓ ℓ'} :
    {A : Type ℓ} {B : Type ℓ'} (f : A → B) (x y z : A) → (x ≡ y) ⊎ (x ≡ z) → f z ≡ f y → f x ≡ f y
same_or f x y z (inl p) h = ap f p
same_or f x y z (inr p) h = ap f p ∙ h

Cleaned-Spared :
    (name n : String) (own : Option Account) (groups : List (Line GroupEntry))
    (files files' : AccountFiles)
    → Cleaned name groups files files'
    → (n == name) ≡ false
    → ((gid : ℕ) → is_member gid n groups ≡ is_member gid n files.groups)
    → ((gid : ℕ) (g : String)
        → (g == name) ≡ false
        → is_own gid own ≡ false
        → has_primary gid g groups ≡ has_primary gid g files.groups)
    → Spared name own n files files'
Cleaned-Spared name n own groups files files' (accounts, shadows, same) other members primary = (
  same_or (first_account n) _ _ _ accounts
      (first_account-drop_account n name files.accounts ∙ ground (arith, other)),
  same_or (has_shadow n) _ _ _ shadows
      (has_shadow-drop_shadow n name files.shadows ∙ ground (arith, other)),
  λ gid. same_or (is_member gid n) _ _ _ same (members gid),
  λ gid g h k. same_or (has_primary gid g) _ _ _ same (primary gid g h k),
)

pub log_deletion-files :
    (b : Bool) (name : String) (phase : Phase) (code : Option String) (absent : Bool) (s : Records)
    → (log_deletion b name phase code absent s).files ≡ s.files
unfolding log_deletion
log_deletion-files true name phase code absent s = refl
log_deletion-files false name phase code absent s = refl

pub written-files :
    (ans : Answers) (name : String) (s : Records) (r : Bool × AccountFiles)
    → (written ans name s r).1.files ≡ r.1
unfolding written
written-files ans name s (true, files) = log_deletion-files ans.logs_end name _ _ _ _
written-files ans name s (false, files) = log_deletion-files ans.logs_end name _ _ _ _

pub already-files :
    (ans : Answers) (name : String) (row : AccountRow) (s : Records)
    (r : Option (List Leftover) × AccountFiles)
    → (already ans name row s r).1.files ≡ r.1
unfolding already
already-files ans name row s (none, files) = refl
already-files ans name row s (some l, files) = log_deletion-files ans.logs_end name _ _ _ _

locked-Spared :
    (goal : Bool) (ans : Answers) (name n : String) (own : Option Account) (s : Records)
    → (n == name) ≡ false
    → Spared name own n s.files (delete_locked goal ans name own s).1.files
unfolding delete_locked absent
locked-Spared goal ans name n (some a) s other =
    rw (written-files ans name s (delete_files ans name a.gid s.files)) (
      Cleaned-Spared name n (some a) (leave_groups name a.gid s.files.groups) s.files
        (delete_files ans name a.gid s.files).1 (delete_files-Cleaned ans name a.gid s.files) other
        (λ gid. is_member-leave_groups gid n name a.gid s.files.groups ∙ ground (arith, other))
        (λ gid g h k. has_primary-leave_groups gid g name a.gid s.files.groups k))
locked-Spared false ans name n none s other =
    rw (log_deletion-files ans.logs_end name _ _ _ s) (refl, refl, λ gid. refl, λ gid g h k. refl)
locked-Spared true ans name n none s other = elim (Bool-cases ans.looks_up) [
  | inr unknown ↦ rw unknown (refl, refl, λ gid. refl, λ gid g h k. refl)
  | inl known ↦ rw known (elim (Option-cases (deletion_evidence name s.log)) [
    | inl unproved ↦ rw unproved (
        rw (log_deletion-files ans.logs_end name _ _ _ s)
          (refl, refl, λ gid. refl, λ gid g h k. refl))
    | inr (row, proved) ↦ rw proved (
        rw (already-files ans name row s (remove_leftovers ans name s.files)) (
          Cleaned-Spared name n none (clean_groups name none s.files.groups) s.files
            (remove_leftovers ans name s.files).1 (remove_leftovers-Cleaned ans name s.files) other
            (λ gid. is_member-clean_groups gid n name none s.files.groups ∙ ground (arith, other))
            (λ gid g h k. has_primary-clean_groups gid g name s.files.groups h)))
  ])
]

Spared-from :
    (name : String) (own : Option Account) (n : String) (files files' files'' : AccountFiles)
    → files ≡ files'
    → Spared name own n files files''
    → Spared name own n files' files''
Spared-from name own n files files' files'' p h = rw (sym p) h

-- Whatever fails in the removal of an account, every other user keeps its passwd entry, its shadow
-- entry and its memberships, and every group is still there that does not have the removed account's
-- gid or its name.
pub others-Spared :
    (goal : Bool) (ans : Answers) (name n : String) (s : Records)
    → (n == name) ≡ false
    → Spared name
        (removed_user name s.files.accounts)
        n
        s.files
        (step_delete_account goal ans name s).1.files
unfolding step_delete_account
others-Spared goal ans name n s other =
    let begun = log_deletion ans.logs_start name start none false s in
    Spared-from name (removed_user name s.files.accounts) n begun.files s.files
      (step_delete_account goal ans name s).1.files
      (log_deletion-files ans.logs_start name start none false s)
      (locked-Spared goal ans name n (removed_user name s.files.accounts) begun other)
