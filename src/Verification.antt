-- ===== src/Verification.antt =====
-- The check that a revocation has blocked the access: `_run_probe`, `step_capture_access_targets` and
-- `step_verify_revoked` of config-server/lifecycle_steps/verify.py, on the table of NodePorts.
pub mod Blocked
mod Tests
use admin_infra_proposed.Base.{
  ℕ, String, Bool, true, false, not, ◌&&◌, Option, none, some, List, [], ◌∷◌, if◌then◌else◌, ◌==◌,
}
use admin_infra_proposed.Ledger.{elem}
use admin_infra_proposed.NodePorts.{PortRow, ports_of, release_nodeports}

-- What a check gives: whether it holds, that there is nothing to check, or an exception, which has
-- lost the answer or not.
pub data ProbeCheck : Type 0 where
  holds : Bool → ProbeCheck
  skipped : ProbeCheck
  tool_failed : Bool → ProbeCheck

-- The rows of a probe in operation_log, and how the step ends.
pub data ProbeRow : Type 0 where
  probe_started : ProbeRow
  probe_success : ProbeRow
  probe_fail : ProbeRow
  probe_unknown : ProbeRow

pub data ProbeEnd : Type 0 where
  probe_passed : ProbeEnd
  verify_failed : ProbeEnd
  verify_tool_failed : ProbeEnd

-- `_run_probe`
unfoldable pub run_probe : ProbeCheck → ProbeEnd × List ProbeRow
run_probe (tool_failed lost) =
    (verify_tool_failed, probe_started ∷ (if lost then probe_unknown else probe_fail) ∷ [])
run_probe skipped = (probe_passed, probe_started ∷ probe_success ∷ [])
run_probe (holds true) = (probe_passed, probe_started ∷ probe_success ∷ [])
run_probe (holds false) = (verify_failed, probe_started ∷ probe_fail ∷ [])

-- The rows of a pod.
unfoldable pub rows_of : String → List PortRow → List PortRow
rows_of pod [] = []
rows_of pod (r ∷ rows) = let rest = rows_of pod rows in if r.pod_name == pod then r ∷ rest else rest

-- `step_capture_access_targets`: the ports to check, read before anything is deleted.
unfoldable pub capture_access_targets : String → List PortRow → List ℕ
unfolding rows_of ports_of
capture_access_targets pod rows = ports_of (rows_of pod rows)

-- The answers of the cluster and of the node: whether the pod is there and how many Services select
-- it (`none` where the call raises), the table (`none` likewise), the node to try, whether its ssh
-- port answers, and which ports take a connection. `knows_node` is whether `_get_farm_node_info`
-- finds the node.
pub record Observations : Type 0 where
  pub pod : Option Bool
  pub services : Option ℕ
  pub table : Option (List PortRow)
  pub has_node : Bool
  pub knows_node : Bool
  pub path_ok : Bool
  pub connects : ℕ → Bool

-- The ports that no other pod has been given since: `_ports_held_by_others`.
unfoldable pub own_ports : String → List PortRow → List ℕ → List ℕ
unfolding elem
own_ports pod rows [] = []
own_ports pod rows (p ∷ ports) =
    let rest = own_ports pod rows ports in
    if elem p (ports_of (release_nodeports pod rows)) then rest else p ∷ rest

unfoldable pub open_ports : (ℕ → Bool) → List ℕ → List ℕ
open_ports connects [] = []
open_ports connects (p ∷ ports) =
    let rest = open_ports connects ports in if connects p then p ∷ rest else rest

abbrev pub is_empty {ℓ} : {A : Type ℓ} → List A → Bool
is_empty [] = true
is_empty (x ∷ xs) = false

abbrev is_zero : ℕ → Bool
is_zero n = elem n (0 ∷ [])

-- With no port or no node to try, the absence of the resources decides.
unfoldable pub ports_blocked : Observations → List ℕ → Bool
unfolding open_ports
ports_blocked o ports =
    if not (is_empty ports) && o.has_node
    then o.path_ok && is_empty (open_ports o.connects ports)
    else true

revoked_check : Bool → Observations → String → List ℕ → Bool → ℕ → List PortRow → ProbeCheck
unfolding own_ports ports_blocked rows_of elem
revoked_check lost o pod ports there services rows =
    let own = own_ports pod rows ports in
    if not (is_empty own) && (o.has_node && not o.knows_node)
    then tool_failed lost
    else holds (not there && is_zero services && is_empty (rows_of pod rows) && ports_blocked o own)

-- `step_verify_revoked`; the flag tells whether an exception lost the answer.
unfoldable pub step_verify_revoked :
    Bool → Observations → String → List ℕ → ProbeEnd × List ProbeRow
unfolding run_probe revoked_check
step_verify_revoked lost o pod ports = run_probe (elim o.pod [
  | none ↦ tool_failed lost
  | some there ↦ elim o.services [
    | none ↦ tool_failed lost
    | some services ↦ elim o.table [
      | none ↦ tool_failed lost
      | some rows ↦ revoked_check lost o pod ports there services rows
    ]
  ]
])
