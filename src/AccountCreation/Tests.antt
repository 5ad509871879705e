-- ===== src/AccountCreation/Tests.antt =====
-- The creation of "kim", whose own group is new and who joins "team".
use admin_infra_proposed.Base.{ℕ, ◌≤◌, ◌⊎◌, ◌≡◌, refl, true, false, none, some, [], ◌∷◌}
use admin_infra_proposed.Ledger.{
  entry, elem, used_uids, no_file, read_issued_id_max, record_issued_id, allocate_next_uid, max_of,
}
use admin_infra_proposed.Accounts.{first_account}
use admin_infra_proposed.AccountCreation.{
  Request, Settings, Answers, no_checkpoint, State, has_account, returning_owner_uid,
  primary_exists, join_groups, with_primary, choose_uid, write_groups, groups_joined, locked,
  step_create_account,
}
use admin_infra_proposed.AccountCreation.Outcomes.{is_created, LeftOver, failed_creation}
use admin_infra_proposed.AccountCreation.Complete.{Complete, created-Complete}

abbrev settings : Settings
settings = record { uid_min = 3; uid_max = some 9; shared_gid_min = 50; sudoers = true }

abbrev request : Request
request = record { name = "kim"; pg_name = "kim"; supp_groups = ("team", 51) ∷ []; candidates = [] }

abbrev all_well : Answers
all_well = record {
  owner = none;
  sharers = none;
  checkpoint = no_checkpoint;
  writes_issued = true;
  writes_passwd = true;
  writes_group = true;
  writes_shadow = true;
  writes_sudoers = true;
  undoes_passwd = true;
  undoes_shadow = true;
  undoes_group = true;
}

abbrev shadow_fails : Answers
shadow_fails = record all_well { writes_shadow = false }

abbrev state : State
state = record {
  files = record {
    accounts = entry (record { name = "lee"; uid = 3; gid = 3; home = "/home/lee" }) ∷ [];
    groups = entry (record { name = "team"; gid = 51; members = "lee" ∷ [] }) ∷ [];
    shadows = entry "lee" ∷ [];
    sudoers = [];
  };
  issued = no_file;
}

creates : is_created (step_create_account settings all_well request state).0 ≡ true
unfolding step_create_account returning_owner_uid locked has_account choose_uid max_of
    read_issued_id_max allocate_next_uid elem record_issued_id write_groups primary_exists
    with_primary join_groups groups_joined
creates = refl

created-Complete_example :
    let r = step_create_account settings all_well request state in
    (uid : ℕ) × Complete settings all_well request uid (some 4) r
    × (elem uid (used_uids state.files.accounts) ≡ false)
    × (3 ≤ uid)
created-Complete_example = created-Complete settings all_well request state (some 4) creates

fails : is_created (step_create_account settings shadow_fails request state).0 ≡ false
unfolding step_create_account returning_owner_uid locked has_account choose_uid max_of
    read_issued_id_max allocate_next_uid elem record_issued_id write_groups primary_exists
    with_primary join_groups groups_joined
fails = refl

failed_creation_example :
    (first_account "kim" (step_create_account settings shadow_fails request state).1.files.accounts
      ≡ first_account "kim" state.files.accounts)
    ⊎ LeftOver settings shadow_fails request state
        (step_create_account settings shadow_fails request state)
failed_creation_example = failed_creation settings shadow_fails request state "kim" fails
