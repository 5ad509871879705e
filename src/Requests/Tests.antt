-- ===== src/Requests/Tests.antt =====
-- A revocation with a blank node, and a change to two ports.
use admin_infra_proposed.Base.{◌≡◌, refl, true, false, none, some, List, [], ◌∷◌, contains}
use admin_infra_proposed.Jobs.Plan.{Job, create, add}
use admin_infra_proposed.Ledger.{elem}
use admin_infra_proposed.Requests.{
  pod_name_ok, specs_ok, spec_ok, none_protected, RevokeRequest, validate_revoke, PortSpec,
  no_repeat, validate_ports, validate_migrate, validate_group_job,
}

abbrev request : RevokeRequest
request = record {
  pod_name = some "ailab-kim";
  username = none;
  node_name = some "";
  delete_account = false;
}

abbrev stored : RevokeRequest
stored = record {
  pod_name = some "ailab-kim";
  username = none;
  node_name = none;
  delete_account = false;
}

abbrev job : Job
job = record {
  op = create;
  account = none;
  supp_groups_only = [];
  pod_name = some "ailab-kim";
  delete_account = false;
}

is_valid : validate_revoke request ≡ some stored
unfolding validate_revoke pod_name_ok
is_valid = refl

no_nodes :
    validate_migrate
      (record { pod_name = none; recreate = none; keep_changes = none; image = none; nodes = [] })
    ≡ false
unfolding validate_migrate
no_nodes = refl

nothing_to_add :
    validate_group_job (record { op = add; username = some "kim"; name = none; groups = [] })
    ≡ false
unfolding validate_group_job
nothing_to_add = refl

abbrev ports : List PortSpec
ports =
    record { internal_port = 3000; usage_purpose = "web" }
    ∷ record { internal_port = 5000; usage_purpose = "api" }
    ∷ []

ports_valid : validate_ports (λ t. t) (λ t. 3) "ailab-kim" ports ≡ true
unfolding validate_ports specs_ok spec_ok no_repeat none_protected elem contains
ports_valid = refl
