-- ===== src/PortChange/Tests.antt =====
-- A pod whose port 3000 goes and that gets 4000.
use admin_infra_proposed.Base.{contains, ℕ, ◌≡◌, refl, true, false, none, some, List, [], ◌∷◌}
use admin_infra_proposed.Ledger.{elem}
use admin_infra_proposed.Requests.{none_protected}
use admin_infra_proposed.NodePorts.{keys, PortRow, Wanted, available, allocate_nodeports}
use admin_infra_proposed.PortChange.{
  Change, Cluster, State, found, allocations, extra_ports, minus, has_service, delete_ports,
  release_ports, added_wanted, given_of, missing_ports, create_services, step_change_ports,
  released, change, services_of, drop_service, add_port, wanted_purpose,
}
use admin_infra_proposed.PortChange.Added.{is_changed}
use admin_infra_proposed.PortChange.Reconciled.{keeps_pod}
use admin_infra_proposed.NodePorts.{remove_stale}
use admin_infra_proposed.PortChange.Converging.{Reached, step_change_ports_lem}

abbrev row : ℕ → ℕ → PortRow
row node internal = record {
  pod_name = "ailab-kim";
  node_port = node;
  internal_port = internal;
  purpose = "custom";
  username = "kim";
  created_at = some 10;
}

abbrev state : State
state = record {
  table = row 300 22 ∷ row 301 3000 ∷ [];
  services =
      record { name = "s22"; ports = 22 ∷ [] } ∷ record { name = "s3000"; ports = 3000 ∷ [] } ∷ [];
}

abbrev up : Cluster
up = record {
  pod = found;
  lists = true;
  deletes = λ n. true;
  creates = λ p. true;
  releases = true;
  live = some ("ailab-kim" ∷ []);
  grace = 5;
}

-- The database refuses the release.
abbrev down : Cluster
down = record up { releases = false }

abbrev wanted : List Wanted
wanted = record { internal_port = 4000; usage_purpose = none } ∷ []

abbrev step : Cluster → State → Change × State
step cluster s =
    step_change_ports (λ r. true) (λ p. "new") "kim" "ailab-kim" 20 300 303 (some []) cluster wanted
      s

changes : is_changed (step up state).0 ≡ true
unfolding step_change_ports released change allocations extra_ports minus keys delete_ports
    release_ports added_wanted allocate_nodeports available elem given_of missing_ports
    create_services has_service services_of drop_service add_port wanted_purpose remove_stale
    contains
changes = refl

has_service_then : keeps_pod up.live "ailab-kim" ≡ true
unfolding keeps_pod contains
has_service_then = refl

unprotected : none_protected (keys wanted) ≡ true
unfolding none_protected keys
unprotected = refl

step_change_ports_lem_example :
    Reached (some ("ailab-kim" ∷ [])) "ailab-kim" wanted state (step up state).1
step_change_ports_lem_example =
    step_change_ports_lem (λ r. true) (λ p. "new") "kim" "ailab-kim" 20 300 303 (some []) up wanted
      state has_service_then unprotected changes
