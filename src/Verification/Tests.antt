-- ===== src/Verification/Tests.antt =====
-- The revocation of the pod "a", which had the ports 31000 and 31001; the second is now the pod "b"'s.
use admin_infra_proposed.Base.{ℕ, String, true, false, none, some, List, [], ◌∷◌, ◌≡◌, refl, ◌=ℕ◌}
use admin_infra_proposed.NodePorts.{PortRow, release_nodeports}
use admin_infra_proposed.Verification.{
  probe_passed, verify_failed, verify_tool_failed, probe_started, probe_success, probe_fail,
  probe_unknown, rows_of, capture_access_targets, Observations, step_verify_revoked,
}
use admin_infra_proposed.Verification.Blocked.{PortsShut, step_verify_revoked_lem}

abbrev port_row : String → ℕ → PortRow
port_row pod port = record {
  pod_name = pod;
  node_port = port;
  internal_port = 22;
  purpose = "ssh";
  username = "kim";
  created_at = none;
}

abbrev before : List PortRow
before = port_row "a" 31000 ∷ port_row "a" 31001 ∷ []

abbrev now : List PortRow
now = port_row "b" 31001 ∷ []

abbrev observations : Observations
observations = record {
  pod = some false;
  services = some 0;
  table = some now;
  has_node = true;
  knows_node = true;
  path_ok = true;
  connects = λ p. p =ℕ 31001;
}

passes :
    step_verify_revoked false observations "a" (capture_access_targets "a" before)
    ≡ (probe_passed, probe_started ∷ probe_success ∷ [])
unfolding step_verify_revoked capture_access_targets release_nodeports
passes = refl

-- No answer on the ports proves nothing where the node itself does not answer.
dead_path :
    step_verify_revoked false
      (record observations { path_ok = false })
      "a"
      (capture_access_targets "a" before)
    ≡ (verify_failed, probe_started ∷ probe_fail ∷ [])
unfolding step_verify_revoked capture_access_targets release_nodeports
dead_path = refl

unknown_node :
    step_verify_revoked false
      (record observations { knows_node = false })
      "a"
      (capture_access_targets "a" before)
    ≡ (verify_tool_failed, probe_started ∷ probe_fail ∷ [])
unfolding step_verify_revoked capture_access_targets release_nodeports
unknown_node = refl

no_answer :
    step_verify_revoked true (record observations { services = none }) "a" []
    ≡ (verify_tool_failed, probe_started ∷ probe_unknown ∷ [])
unfolding step_verify_revoked
no_answer = refl

passed :
    (step_verify_revoked false observations "a" (capture_access_targets "a" before)).0
    ≡ probe_passed
unfolding step_verify_revoked capture_access_targets release_nodeports
passed = refl

step_verify_revoked_lem_example :
    (rows : List PortRow) × (observations.table ≡ some rows)
    × (observations.pod ≡ some false)
    × (observations.services ≡ some 0)
    × (rows_of "a" rows ≡ [])
    × PortsShut observations "a" rows before
step_verify_revoked_lem_example = step_verify_revoked_lem false observations "a" before passed
