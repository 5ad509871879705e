-- ===== src/Removal/Tests.antt =====
-- The removal of "kim", whose group "team" stays.
use admin_infra_proposed.Base.{◌≡◌, refl, true, false, none, some, [], ◌∷◌, arith}
use admin_infra_proposed.Ledger.{Account, entry, unparsed}
use admin_infra_proposed.Accounts.{AccountFiles}
use admin_infra_proposed.Removal.{
  Records, Answers, removed_user, step_delete_account, deletion_evidence,
  step_check_account_revocable, other_pods, account_in_use,
}
use admin_infra_proposed.Removal.Others.{Spared, others-Spared}
use admin_infra_proposed.Removal.Recorded.{ids_below}
use admin_infra_proposed.Removal.Evidence.{is_done, attempts, none_done, never_believed}
use admin_infra_proposed.Removal.Again.{Gone, again_removes}

abbrev kim : Account
kim = record { name = "kim"; uid = 20; gid = 20; home = "/home/kim" }

abbrev files : AccountFiles
files = record {
  accounts = entry kim ∷ unparsed "# end" ∷ [];
  groups =
      entry (record { name = "kim"; gid = 20; members = [] })
      ∷ entry (record { name = "team"; gid = 71; members = "kim" ∷ [] })
      ∷ [];
  shadows = entry "kim" ∷ [];
  sudoers = [];
}

abbrev records : Records
records = record { files = files; log = []; next_id = 1 }

abbrev all_well : Answers
all_well = record {
  looks_up = true;
  writes_passwd = true;
  writes_shadow = true;
  writes_group = true;
  logs_start = true;
  logs_end = true;
}

-- The group file of the first attempt cannot be written.
abbrev group_fails : Answers
group_fails = record all_well { writes_group = false }

in_use :
    step_check_account_revocable true (some "farm1") none (some "kim-1") ("kim-1" ∷ "kim-2" ∷ [])
    ≡ account_in_use ("kim-2" ∷ [])
unfolding step_check_account_revocable other_pods
in_use = refl

others-Spared_example :
    Spared "kim"
      (removed_user "kim" files.accounts)
      "lee"
      files
      (step_delete_account true group_fails "kim" records).1.files
others-Spared_example = others-Spared true group_fails "kim" "lee" records refl

nobody : removed_user "lee" files.accounts ≡ none
unfolding removed_user
nobody = refl

unproved : deletion_evidence "lee" [] ≡ none
unfolding deletion_evidence
unproved = refl

never_believed_example :
    let r = attempts (all_well ∷ all_well ∷ []) "lee" records in
    (none_done r.0 ≡ true) × (r.1.files ≡ files)
never_believed_example = never_believed (all_well ∷ all_well ∷ []) "lee" records nobody unproved

somebody : removed_user "kim" files.accounts ≡ some kim
unfolding removed_user
somebody = refl

ids : ids_below 1 [] ≡ true
unfolding ids_below
ids = refl

again_removes_example :
    let r =
      step_delete_account true all_well "kim"
        (step_delete_account true group_fails "kim" records).1 in
    (is_done r.0 ≡ true) × Gone "kim" r.1.files
again_removes_example =
    again_removes group_fails all_well "kim" records kim somebody refl ids (omega arith) refl
