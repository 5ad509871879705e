-- ===== src/Groups/Tests.antt =====
-- Groups in a ledger with two accounts, one team and a line that is no entry.
use admin_infra_proposed.Base.{◌<◌, ◌≡◌, refl, true, false, none, some, List, [], ◌∷◌, contains}
use admin_infra_proposed.Jobs.Plan.{Group, any_new}
use admin_infra_proposed.Ledger.{
  max_of, Account, GroupEntry, Line, entry, unparsed, allocate_next_gid, holds, read_issued_id_max,
  record_issued_id,
}
use admin_infra_proposed.Groups.{
  Settings, Files, Disk, granted, first_group, shared_group_gid, write_group_line,
  resolve_new_groups, all_in, ledger_group, ledger_user, known_groups, account_names, check_add,
  check_remove, primary_group, check_create, group_name_reserved,
}
use admin_infra_proposed.Groups.History.{Op, Issuer, run, gid_issued_once}
use admin_infra_proposed.Groups.Resolving.{Extends, resolve_new_groups_again}

abbrev set : Settings
set = record { reserved_names = "docker" ∷ []; shared_gid_min = 70; shared_gid_max = some 99 }

abbrev disk : Disk
disk = record { record_writes = true; group_writes = true }

abbrev full_disk : Disk
full_disk = record { record_writes = false; group_writes = false }

abbrev kim : Account
kim = record { name = "kim"; uid = 20; gid = 20; home = "/home/kim" }

abbrev daemon : Account
daemon = record { name = "daemon"; uid = 21; gid = 1; home = "/usr/sbin" }

abbrev group_lines : List (Line GroupEntry)
group_lines =
    entry (record { name = "kim"; gid = 20; members = [] })
    ∷ unparsed "# teams"
    ∷ entry (record { name = "team"; gid = 71; members = "kim" ∷ [] })
    ∷ []

abbrev files : Files
files = record {
  accounts = entry kim ∷ entry daemon ∷ [];
  groups = group_lines;
  issued = holds (record { uid = 20; shared_gid = 74 });
}

abbrev wanted : List Group
wanted = record { name = "team"; gid = some 71 } ∷ record { name = "lab"; gid = none } ∷ []

reserved : check_create set files "docker" none [] ≡ some group_name_reserved
unfolding check_create
reserved = refl

own_group : check_remove files "kim" "kim" ≡ some primary_group
unfolding check_remove ledger_group ledger_user
own_group = refl

may_join : check_add files "kim" ("team" ∷ []) ≡ none
unfolding check_add known_groups contains account_names ledger_group
may_join = refl

lab_given : (shared_group_gid set disk "lab" files).0 ≡ granted 75
unfolding shared_group_gid first_group read_issued_id_max allocate_next_gid max_of
lab_given = refl

abbrev lab_entry : GroupEntry
lab_entry = record { name = "lab"; gid = 75; members = [] }

-- The ledger after the team "lab" was made, deleted by hand, and a new line written.
abbrev later : Files
later =
    run set (Op.edits [] group_lines ∷ Op.issues_uid true 30 ∷ [])
      (shared_group_gid set disk "lab" files).1

lab_absent : first_group "lab" files.groups ≡ none
unfolding first_group
lab_absent = refl

web_absent : first_group "web" later.groups ≡ none
unfolding first_group run record_issued_id shared_group_gid max_of
web_absent = refl

web_given : (shared_group_gid set disk "web" later).0 ≡ granted 76
unfolding shared_group_gid first_group read_issued_id_max allocate_next_gid max_of run
web_given = refl

gid_issued_once_example : 75 < 76
gid_issued_once_example =
    gid_issued_once set Issuer.resolving Issuer.resolving disk disk "lab" "web"
      (Op.edits [] group_lines ∷ Op.issues_uid true 30 ∷ []) files lab_absent lab_given web_absent
      web_given

team_written :
    (write_group_line set disk "team" (some 71) ("lee" ∷ "kim" ∷ []) files).0 ≡ granted 71
unfolding write_group_line first_group all_in contains
team_written = refl

abbrev given_groups : List Group
given_groups = record { name = "team"; gid = some 71 } ∷ record { name = "lab"; gid = some 75 } ∷ []

resolved_first : (resolve_new_groups set disk wanted files).0 ≡ granted given_groups
unfolding resolve_new_groups any_new shared_group_gid first_group read_issued_id_max
    allocate_next_gid max_of check_create
resolved_first = refl

unchanged :
    Extends
      (resolve_new_groups set disk wanted files).1
      (resolve_new_groups set disk wanted files).1
unfolding Extends
unchanged = (refl, λ n e p. p)

resolve_new_groups_again_example :
    resolve_new_groups set full_disk wanted (resolve_new_groups set disk wanted files).1
    ≡ (granted given_groups, (resolve_new_groups set disk wanted files).1)
resolve_new_groups_again_example =
    resolve_new_groups_again set disk full_disk wanted given_groups files
      (resolve_new_groups set disk wanted files).1 resolved_first unchanged
