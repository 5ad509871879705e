-- ===== src/HomeCleanup/Tests.antt =====
-- The homes of "kim" and "lee", of whom "lee" has a job without an end.
use admin_infra_proposed.Base.{String, ◌≡◌, ◌≢◌, refl, ◌⊎◌, true, false, some, List, [], ◌∷◌}
use admin_infra_proposed.Jobs.Types.{migrate}
use admin_infra_proposed.Journal.{take}
use admin_infra_proposed.Ledger.{entry}
use admin_infra_proposed.Accounts.{first_account}
use admin_infra_proposed.HomeCleanup.{
  Home, Unfinished, Nas, answered, deleted, home_in_use, job_uses_home, home_unused, owner_of,
  step_delete_expired_home, restored, step_restore_missing_home,
}
use admin_infra_proposed.HomeCleanup.Safe.{OnlyOwn, step_delete_expired_home_lem}

abbrev nas : Nas
nas = record { looks_up = true; root_reachable = true; deletes = answered; creates = true }

abbrev homes : List Home
homes =
    record { user = "kim"; owner = 20; whole = true }
    ∷ record { user = "lee"; owner = 21; whole = true }
    ∷ []

abbrev jobs : List Unfinished
jobs = record { kind = migrate; username = "lee" } ∷ []

deletes_one : (step_delete_expired_home 5 nas "kim" 20 [] jobs homes).0 ≡ deleted
unfolding step_delete_expired_home home_unused take job_uses_home owner_of
deletes_one = refl

-- The list of the jobs is as long as the limit.
cut_off : (step_delete_expired_home 1 nas "kim" 20 [] jobs homes).0 ≡ home_in_use
unfolding step_delete_expired_home home_unused take job_uses_home
cut_off = refl

restores :
    (step_restore_missing_home nas "kim"
      (entry (record { name = "kim"; uid = 20; gid = 20; home = "/home/kim" }) ∷ [])
      []).0
    ≡ restored
unfolding step_restore_missing_home first_account owner_of
restores = refl

step_delete_expired_home_lem_example :
    let r = step_delete_expired_home 5 nas "kim" 20 [] jobs homes in
    ((r.1 ≡ homes) × (r.0 ≢ deleted))
    ⊎ ((◌≡◌ {A = List String} [] [])
        × (job_uses_home "kim" jobs ≡ false)
        × (owner_of "kim" homes ≡ some 20)
        × OnlyOwn "kim" homes r)
step_delete_expired_home_lem_example = step_delete_expired_home_lem 5 nas "kim" 20 [] jobs homes
