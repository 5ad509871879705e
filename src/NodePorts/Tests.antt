-- ===== src/NodePorts/Tests.antt =====
-- Ports of a pod in a range of four, of which one is in the table and one is reserved.
use admin_infra_proposed.Base.{ℕ, ◌≤◌, ◌≡◌, refl, true, false, none, some, List, [], ◌∷◌}
use admin_infra_proposed.Ledger.{elem}
use admin_infra_proposed.NodePorts.{
  PortRow, Wanted, Given, ports_of, release_nodeports, given, not_enough, allocate_nodeports,
  reconcile, available, remove_stale,
}
use admin_infra_proposed.NodePorts.Rows.{Answers, externals, distinct_ports}
use admin_infra_proposed.NodePorts.Allocating.{allocate_nodeports_lem}

abbrev old_row : PortRow
old_row = record {
  pod_name = "ailab-old";
  node_port = 300;
  internal_port = 22;
  purpose = "ssh";
  username = "lee";
  created_at = some 10;
}

abbrev table : List PortRow
table = old_row ∷ []

abbrev wanted : List Wanted
wanted =
    record { internal_port = 22; usage_purpose = some "ssh" }
    ∷ record { internal_port = 3000; usage_purpose = none }
    ∷ []

abbrev answer : List Given
answer =
    record { internal_port = 22; external_port = 301; usage_purpose = "ssh" }
    ∷ record { internal_port = 3000; external_port = 303; usage_purpose = "custom" }
    ∷ []

gives :
    (allocate_nodeports (λ r. true) "kim" "ailab-new" 20 300 303 (some (302 ∷ [])) wanted table).0
    ≡ given answer
unfolding allocate_nodeports available elem
gives = refl

too_small :
    (allocate_nodeports (λ r. true) "kim" "ailab-new" 20 300 302 (some (302 ∷ [])) wanted table).0
    ≡ not_enough
unfolding allocate_nodeports available elem
too_small = refl

removes_stale : (reconcile 5 100 30 (some []) (90, table)).1 ≡ []
unfolding reconcile remove_stale
removes_stale = refl

allocate_nodeports_lem_example :
    let table' =
      (allocate_nodeports
        (λ r. true)
        "kim"
        "ailab-new"
        20
        300
        303
        (some (302 ∷ []))
        wanted
        table).1 in
    Answers wanted answer
    × (distinct_ports (externals answer) ≡ true)
    × ((p : ℕ)
        → elem p (externals answer) ≡ true
        → (300 ≤ p) × (p ≤ 303) × (elem p (ports_of table) ≡ false) × (elem p (302 ∷ []) ≡ false))
    × (distinct_ports (ports_of table) ≡ true → distinct_ports (ports_of table') ≡ true)
    × (release_nodeports "ailab-new" table ≡ table → release_nodeports "ailab-new" table' ≡ table)
allocate_nodeports_lem_example =
    allocate_nodeports_lem (λ r. true) "kim" "ailab-new" 20 300 303 (302 ∷ []) wanted table answer
      gives
