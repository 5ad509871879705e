-- ===== src/Reclaim/Tests.antt =====
-- A user who comes back to a free uid, and names that are adopted or refused.
use admin_infra_proposed.Base.{◌≡◌, refl, false, none, some, List, [], ◌∷◌}
use admin_infra_proposed.Ledger.{Account, GroupEntry, Line, entry}
use admin_infra_proposed.Reclaim.{reclaim_uid, adoptable_account_uid, username_group_conflict}

abbrev accounts : List (Line Account)
accounts = entry (record { name = "kim"; uid = 20; gid = 20; home = "/home/kim" }) ∷ []

abbrev groups : List (Line GroupEntry)
groups = entry (record { name = "lee"; gid = 25; members = [] }) ∷ []

back : reclaim_uid 20 none 25 ("lee" ∷ []) [] accounts groups ≡ some 25
unfolding reclaim_uid
back = refl

adopted : adoptable_account_uid "kim" (some 20) accounts ≡ some 20
unfolding adoptable_account_uid
adopted = refl

own_group_left : username_group_conflict 20 70 ("docker" ∷ []) "lee" groups ≡ false
unfolding username_group_conflict
own_group_left = refl
