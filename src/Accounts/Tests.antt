-- ===== src/Accounts/Tests.antt =====
-- A user whose account an interrupted attempt wrote to its end, and the rollback of it.
use admin_infra_proposed.Base.{◌≡◌, refl, false, some, [], ◌∷◌, contains}
use admin_infra_proposed.Ledger.{Account, entry}
use admin_infra_proposed.Accounts.{
  AccountFiles, AccountJob, first_account, counts_as_done, judge_interrupted_account,
  account_missing_parts,
}
use admin_infra_proposed.Accounts.Interrupted.{judge_interrupted_account_lem}

abbrev kim : Account
kim = record { name = "kim"; uid = 20; gid = 20; home = "/home/kim" }

abbrev files : AccountFiles
files = record {
  accounts = entry kim ∷ [];
  groups =
      entry (record { name = "kim"; gid = 20; members = [] })
      ∷ entry (record { name = "team"; gid = 71; members = "kim" ∷ "lee" ∷ [] })
      ∷ [];
  shadows = entry "kim" ∷ [];
  sudoers = [];
}

abbrev job : AccountJob
job = record {
  name = "kim";
  pg_name = "kim";
  supp_groups = ("team", 71) ∷ [];
  account_write_started = some 20;
}

complete : (judge_interrupted_account false job files).0 ≡ counts_as_done kim
unfolding judge_interrupted_account first_account account_missing_parts contains
complete = refl

judge_interrupted_account_lem_example :
    (job.account_write_started ≡ some kim.uid)
    × (first_account job.name files.accounts ≡ some kim)
    × (account_missing_parts false job kim.gid files ≡ [])
    × ((judge_interrupted_account false job files).1 ≡ files)
judge_interrupted_account_lem_example = judge_interrupted_account_lem false job files kim complete
