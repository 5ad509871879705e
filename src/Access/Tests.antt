-- ===== src/Access/Tests.antt =====
-- An account with one open and one blocked service, and decisions on it.
use admin_infra_proposed.Base.{◌≡◌, refl, true, false, not, List, [], ◌∷◌, arith, length}
use admin_infra_proposed.Access.{
  Service, Answer, accepted, refused, changed, change_failed, number, absent, superseded,
  set_account_access, access_block_label, is_blocked,
}
use admin_infra_proposed.Access.Decisions.{
  set_account_access-IsDecided, later_decision_lasts, IsDecided, NotEarlier,
}

abbrev open_service : Service
open_service = record { selector = "pod_name" ∷ []; annotation = absent }

abbrev blocked_service : Service
blocked_service = record { selector = access_block_label ∷ "pod_name" ∷ []; annotation = number 5 }

abbrev services : List Service
services = open_service ∷ blocked_service ∷ []

-- The apiserver refuses to patch a service that is blocked.
abbrev refuses_blocked : Service → Answer
refuses_blocked s = elim (is_blocked s) [ true ↦ refused | false ↦ accepted ]

breaks_off : (set_account_access refuses_blocked false 6 services).0 ≡ change_failed
unfolding set_account_access is_blocked
breaks_off = refl

block_again : (set_account_access refuses_blocked true 5 services).0 ≡ changed 2
unfolding set_account_access is_blocked
block_again = refl

set_account_access-IsDecided_example :
    (2 ≡ length services)
    × IsDecided true 5 (set_account_access refuses_blocked true 5 services).1
    × NotEarlier services (set_account_access refuses_blocked true 5 services).1
set_account_access-IsDecided_example =
    set_account_access-IsDecided refuses_blocked true 5 services block_again

not_yet : superseded services true 7 ≡ false
unfolding superseded is_blocked
not_yet = refl

later_decision_lasts_example :
    IsDecided true 7
      (set_account_access
        (λ s. accepted)
        true
        7
        (set_account_access refuses_blocked (not true) 7 services).1).1
    × IsDecided true 7 (set_account_access (λ s. accepted) true 7 services).1
    × ((set_account_access refuses_blocked
          (not true)
          7
          (set_account_access (λ s. accepted) true 7 services).1).1
        ≡ (set_account_access (λ s. accepted) true 7 services).1)
later_decision_lasts_example =
    later_decision_lasts true 7 7 (omega arith) refuses_blocked services not_yet
