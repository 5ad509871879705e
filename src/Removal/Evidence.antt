-- ===== src/Removal/Evidence.antt =====
-- What a removal believes of an account that is not there, and what a repeated one reaches.
use admin_infra_proposed.Base.{
  ◌+◌, ◌<◌, String, ◌≡◌, refl, ap, inl, inr, ◌∙◌, Bool, true, false, not, ◌&&◌, Option, none, some,
  List, [], ◌∷◌, ◌++◌, arith, eq_iff, eq_refl, Option-cases, Bool-cases,
}
use admin_infra_proposed.Jobs.Types.{Phase, start, fail}
use admin_infra_proposed.Ledger.{Account, Line, entry, unparsed}
use admin_infra_proposed.Accounts.{drop_account, first_account}
use admin_infra_proposed.Removal.{
  AccountRow, Records, Answers, log_deletion, removed_user, Deletion, deleted, already_gone, absent,
  delete_locked, step_delete_account, deletion_evidence, is_evidence, last_created,
}
use admin_infra_proposed.Removal.Others.{log_deletion-files}
use admin_infra_proposed.Removal.Recorded.{
  ids_below, last_created-append, last_created-below, last_evidence-append, is_some,
  last_evidence-new,
}

pub removed_user-drop_account :
    (name : String) (lines : List (Line Account))
    → removed_user name (drop_account name lines) ≡ none
unfolding removed_user drop_account
removed_user-drop_account name [] = refl
removed_user-drop_account name (entry a ∷ lines) =
    ground (arith, removed_user-drop_account name lines)
removed_user-drop_account name (unparsed t ∷ lines) = removed_user-drop_account name lines

pub first_account_removed :
    (name : String) (lines : List (Line Account))
    → removed_user name lines ≡ none
    → first_account name lines ≡ none
unfolding removed_user first_account
first_account_removed name [] h = refl
first_account_removed name (entry a ∷ lines) h = elim (Option-cases (removed_user name lines)) [
  | inl p ↦ ground (arith, h, p, first_account_removed name lines)
  | inr (b, p) ↦ ground (arith, h, p)
]
first_account_removed name (unparsed t ∷ lines) h = first_account_removed name lines h

-- A row of a deletion that changed nothing leaves the evidence as it was.
pub log_deletion-evidence :
    (b : Bool) (name : String) (phase : Phase) (code : Option String) (absent : Bool) (s : Records)
    → is_evidence name 0 (record {
      id = 1;
      username = name;
      deletes = true;
      phase = phase;
      error_code = code;
      already_absent = absent;
    })
      ≡ false
    → deletion_evidence name (log_deletion b name phase code absent s).log
      ≡ deletion_evidence name s.log
unfolding deletion_evidence log_deletion
log_deletion-evidence false name phase code absent s h = refl
log_deletion-evidence true name phase code absent s h =
    let r : AccountRow = record {
      id = s.next_id;
      username = name;
      deletes = true;
      phase = phase;
      error_code = code;
      already_absent = absent;
    } in
    rw (last_created-append name s.log r (ground arith)) (
      last_evidence-append name (last_created name s.log) s.log r (ground (arith, h, eq_refl name)))

-- The row of a deletion that changed the files is evidence.
pub log_deletion-proves :
    (name : String) (phase : Phase) (code : Option String) (s : Records)
    → ids_below s.next_id s.log ≡ true
    → 0 < s.next_id
    → is_evidence name 0 (record {
      id = 1;
      username = name;
      deletes = true;
      phase = phase;
      error_code = code;
      already_absent = false;
    })
      ≡ true
    → is_some (deletion_evidence name (log_deletion true name phase code false s).log) ≡ true
unfolding deletion_evidence log_deletion
log_deletion-proves name phase code s below k h =
    let r : AccountRow = record {
      id = s.next_id;
      username = name;
      deletes = true;
      phase = phase;
      error_code = code;
      already_absent = false;
    } in
    rw (last_created-append name s.log r (ground arith)) (
      last_evidence-new name (last_created name s.log) s.log r
        (ground (arith, h, last_created-below name s.next_id s.log below k)))

pub log_deletion-below :
    (b : Bool) (name : String) (phase : Phase) (code : Option String) (absent : Bool) (s : Records)
    → ids_below s.next_id s.log ≡ true
    → 0 < s.next_id
    → let s' = log_deletion b name phase code absent s in
      (ids_below s'.next_id s'.log ≡ true) × (0 < s'.next_id)
unfolding log_deletion ids_below
log_deletion-below false name phase code absent s h k = (h, k)
log_deletion-below true name phase code absent s h k = (below s.log h, omega arith)
  where
    below :
        (log : List AccountRow)
        → ids_below s.next_id log ≡ true
        → ids_below (s.next_id + 1) (
            log
            ++ record {
              id = s.next_id;
              username = name;
              deletes = true;
              phase = phase;
              error_code = code;
              already_absent = absent;
            }
              ∷ [])
          ≡ true
    below [] p = ground arith
    below (r ∷ log) p = ground (arith, p, below log)

abbrev pub is_done : Deletion → Bool
is_done deleted = true
is_done (already_gone row leftovers) = true
is_done _ = false

-- Attempts of the removal one after the other, as the job engine and the jobs of other nodes make
-- them: how each ends, and what is there afterwards.
unfoldable pub attempts : List Answers → String → Records → List Deletion × Records
unfolding step_delete_account
attempts [] name s = ([], s)
attempts (ans ∷ rest) name s =
    let (o, s') = step_delete_account true ans name s in
    let (os, s'') = attempts rest name s' in (o ∷ os, s'')

unfoldable pub none_done : List Deletion → Bool
none_done [] = true
none_done (o ∷ os) = not (is_done o) && none_done os

-- The step on an absent account for which nothing proves a deletion.
unproved_step :
    (ans : Answers) (name : String) (s : Records)
    → removed_user name s.files.accounts ≡ none
    → deletion_evidence name s.log ≡ none
    → let r = step_delete_account true ans name s in
      (is_done r.0 ≡ false) × (r.1.files ≡ s.files) × (deletion_evidence name r.1.log ≡ none)
unfolding step_delete_account delete_locked absent
unproved_step ans name s gone unproved =
    let begun = log_deletion ans.logs_start name start none false s in
    let same = log_deletion-files ans.logs_start name start none false s in
    let still =
      log_deletion-evidence ans.logs_start name start none false s (ground arith) ∙ unproved in
    let files =
      log_deletion-files ans.logs_end name fail (some "ACCOUNT_ABSENT_UNVERIFIED") false begun in
    let after =
      log_deletion-evidence ans.logs_end name fail (some "ACCOUNT_ABSENT_UNVERIFIED") false begun
        (ground (arith, eq_iff "ACCOUNT_ABSENT_UNVERIFIED" "ACCOUNT_FILE_WRITE_FAILED")) in
    rw gone (elim (Bool-cases ans.looks_up) [
      | inr unknown ↦ rw unknown (refl, same, still)
      | inl known ↦ rw known (rw still (refl, files ∙ same, after ∙ still))
    ])

-- Where an account is not in the passwd file and no deletion that changed the files is recorded
-- since its last creation, no number of attempts makes the removal count as done: each ends in an
-- error, the files stay as they are, and no attempt becomes the evidence of a later one.
pub never_believed :
    (answers : List Answers) (name : String) (s : Records)
    → removed_user name s.files.accounts ≡ none
    → deletion_evidence name s.log ≡ none
    → let r = attempts answers name s in (none_done r.0 ≡ true) × (r.1.files ≡ s.files)
unfolding attempts none_done
never_believed [] name s gone unproved = (refl, refl)
never_believed (ans ∷ rest) name s gone unproved =
    let (refused, same, still) = unproved_step ans name s gone unproved in
    let (later, files) =
      never_believed rest name (step_delete_account true ans name s).1
        (ap (λ f. removed_user name f.accounts) same ∙ gone) still in
    (ground (arith, refused, later), files ∙ same)
