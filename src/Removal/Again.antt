-- ===== src/Removal/Again.antt =====
-- A removal that is repeated after whatever went wrong in the first attempt.
use admin_infra_proposed.Base.{
  ℕ, ◌<◌, String, ◌≡◌, refl, sym, ap, inl, inr, ◌∙◌, Bool, true, false, ◌&&◌, Option, none, some,
  List, [], ◌∷◌, arith, eq_refl, Option-cases,
}
use admin_infra_proposed.Jobs.Types.{start, success, fail}
use admin_infra_proposed.Ledger.{Account, GroupEntry, Line, entry, unparsed}
use admin_infra_proposed.Accounts.{AccountFiles, has_shadow, first_account, is_member}
use admin_infra_proposed.Accounts.Interrupted.{
  first_account-drop_account, has_shadow-drop_shadow, is_member-clean_groups,
}
use admin_infra_proposed.Removal.{
  AccountRow, Records, Answers, log_deletion, removed_user, Leftover, remove_leftovers,
  group_leftovers, already, absent, delete_files, written, delete_locked, step_delete_account,
  deletion_evidence,
}
use admin_infra_proposed.Removal.Others.{
  is_member-leave_groups, log_deletion-files, written-files, already-files,
}
use admin_infra_proposed.Removal.Recorded.{ids_below, is_some}
use admin_infra_proposed.Removal.Evidence.{
  log_deletion-evidence, log_deletion-proves, log_deletion-below, first_account_removed, is_done,
}

-- The user has no passwd entry, no shadow entry and no membership.
abbrev pub Gone : String → AccountFiles → Type 0
Gone name files =
    (first_account name files.accounts ≡ none)
    × (has_shadow name files.shadows ≡ false)
    × ((gid : ℕ) → is_member gid name files.groups ≡ false)

-- The lookup and the three writes succeed.
abbrev pub answers_all : Answers → Bool
answers_all ans = (ans.looks_up && ans.writes_passwd) && (ans.writes_shadow && ans.writes_group)

no_leftovers :
    (gid : ℕ) (name : String) (lines : List (Line GroupEntry))
    → group_leftovers name lines ≡ []
    → is_member gid name lines ≡ false
unfolding group_leftovers is_member
no_leftovers gid name [] h = refl
no_leftovers gid name (entry g ∷ lines) h = ground (arith, h, no_leftovers gid name lines)
no_leftovers gid name (unparsed t ∷ lines) h = no_leftovers gid name lines h

delete_files-Gone :
    (ans : Answers) (name : String) (gid : ℕ) (files : AccountFiles)
    → answers_all ans ≡ true
    → ((delete_files ans name gid files).0 ≡ true) × Gone name (delete_files ans name gid files).1
unfolding delete_files
delete_files-Gone ans name gid files h = (
  ground (arith, h),
  (
    ground (arith, h, first_account-drop_account name name files.accounts, eq_refl name),
    ground (arith, h, has_shadow-drop_shadow name name files.shadows, eq_refl name),
    λ g. ground (arith, h, is_member-leave_groups g name name gid files.groups, eq_refl name),
  ),
)

remove_leftovers-Gone :
    (ans : Answers) (name : String) (files : AccountFiles)
    → answers_all ans ≡ true
    → first_account name files.accounts ≡ none
    → (is_some (remove_leftovers ans name files).0 ≡ true)
      × Gone name (remove_leftovers ans name files).1
unfolding remove_leftovers
remove_leftovers-Gone ans name files h nobody = (
  ground (arith, h),
  (
    ground (arith, h, nobody),
    ground (arith, h, has_shadow-drop_shadow name name files.shadows, eq_refl name),
    λ g. ground (
      arith,
      h,
      no_leftovers g name files.groups,
      is_member-clean_groups g name name none files.groups,
      eq_refl name,
    ),
  ),
)

done-written :
    (ans : Answers) (name : String) (s : Records) (r : Bool × AccountFiles)
    → r.0 ≡ true
    → is_done (written ans name s r).0 ≡ true
unfolding written
done-written ans name s (true, files) h = refl
done-written ans name s (false, files) h = absurd (ground (arith, h))

done-already :
    (ans : Answers) (name : String) (row : AccountRow) (s : Records)
    (r : Option (List Leftover) × AccountFiles)
    → is_some r.0 ≡ true
    → is_done (already ans name row s r).0 ≡ true
unfolding already
done-already ans name row s (some l, files) h = refl
done-already ans name row s (none, files) h = absurd (ground (arith, h))

-- Where the account is there, or its absence is proved, an attempt in which nothing fails ends well.
removes :
    (ans : Answers) (name : String) (s : Records)
    → answers_all ans ≡ true
    → (removed_user name s.files.accounts ≡ none → is_some (deletion_evidence name s.log) ≡ true)
    → let r = step_delete_account true ans name s in (is_done r.0 ≡ true) × Gone name r.1.files
unfolding step_delete_account delete_locked absent
removes ans name s h proved =
    let begun = log_deletion ans.logs_start name start none false s in
    let same = log_deletion-files ans.logs_start name start none false s in
    let still = log_deletion-evidence ans.logs_start name start none false s (ground arith) in
    elim (Option-cases (removed_user name s.files.accounts)) [
      | inr (a, there) ↦
          let (ok, gone) = delete_files-Gone ans name a.gid begun.files h in
          rw there (
            done-written ans name begun (delete_files ans name a.gid begun.files) ok,
            rw (written-files ans name begun (delete_files ans name a.gid begun.files)) gone,
          )
      | inl nothing ↦ elim (Option-cases (deletion_evidence name begun.log)) [
        | inl unproved ↦ absurd (ground (arith, proved nothing, ap is_some (sym still ∙ unproved)))
        | inr (row, found) ↦
            let nobody =
              first_account_removed name begun.files.accounts
                (ap (λ f. removed_user name f.accounts) same ∙ nothing) in
            let (ok, gone) = remove_leftovers-Gone ans name begun.files h nobody in
            let known : ans.looks_up ≡ true = ground (arith, h) in
            rw nothing (
              rw known (
                rw found (
                  done-already ans name row begun (remove_leftovers ans name begun.files) ok,
                  rw (already-files ans name row begun (remove_leftovers ans name begun.files))
                      gone,
                )))
      ]
    ]

-- The first attempt on an account that is there leaves it there or leaves evidence.
written-proves :
    (ans : Answers) (name : String) (s : Records) (r : Bool × AccountFiles)
    → ans.logs_end ≡ true
    → ids_below s.next_id s.log ≡ true
    → 0 < s.next_id
    → is_some (deletion_evidence name (written ans name s r).1.log) ≡ true
unfolding written
written-proves ans name s (true, files) h below k = rw h (
    log_deletion-proves name success none (record s { files = files }) below k
      (ground (arith, eq_refl name)))
written-proves ans name s (false, files) h below k = rw h (
    log_deletion-proves name fail (some "ACCOUNT_FILE_WRITE_FAILED") (record s { files = files })
      below k (ground (arith, eq_refl name, eq_refl "ACCOUNT_FILE_WRITE_FAILED")))

-- For the jobs whose goal is that the account is absent: after an attempt on an account that is there, whichever writes failed in it, a second attempt in
-- which nothing fails counts as done and leaves no passwd entry, no shadow entry and no membership of
-- the user, if the row that ends the first attempt was written.
pub again_removes :
    (first second : Answers) (name : String) (s : Records) (a : Account)
    → removed_user name s.files.accounts ≡ some a
    → first.logs_end ≡ true
    → ids_below s.next_id s.log ≡ true
    → 0 < s.next_id
    → answers_all second ≡ true
    → let r = step_delete_account true second name (step_delete_account true first name s).1 in
      (is_done r.0 ≡ true) × Gone name r.1.files
unfolding step_delete_account delete_locked
again_removes first second name s a there logged below k h =
    let begun = log_deletion first.logs_start name start none false s in
    let (below', k') = log_deletion-below first.logs_start name start none false s below k in
    removes second name (step_delete_account true first name s).1 h (λ x. rw there (
      written-proves first name begun (delete_files first name a.gid begun.files) logged below' k'))
