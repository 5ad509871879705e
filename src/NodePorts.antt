-- ===== src/NodePorts.antt =====
-- The node ports of the pods: `reconcile_nodeport_allocations`, `allocate_nodeports` and
-- `release_nodeports` of config-server/lifecycle_steps/provision.py, on the rows of the table
-- nodeport_allocations.
pub mod Rows
pub mod Allocating
mod Tests
use admin_infra_proposed.Base.{
  ℕ, zero, suc, ◌+◌, ◌-◌, String, Bool, true, false, not, ◌&&◌, ◌||◌, Option, none, some, List, [],
  ◌∷◌, ◌++◌, if◌then◌else◌, ltb, ◌==◌, length, contains,
}
use admin_infra_proposed.Ledger.{elem}

pub record PortRow : Type 0 where
  pub pod_name : String
  pub node_port : ℕ
  pub internal_port : ℕ
  pub purpose : String
  pub username : String
  pub created_at : Option ℕ

-- A requested port, whose purpose may be left out.
pub record Wanted : Type 0 where
  pub internal_port : ℕ
  pub usage_purpose : Option String

pub record Given : Type 0 where
  pub internal_port : ℕ
  pub external_port : ℕ
  pub usage_purpose : String

abbrev pub purpose_of : Wanted → String
purpose_of w = elim w.usage_purpose [ none ↦ "custom" | some p ↦ p ]

-- The ports that are asked for.
unfoldable pub keys : List Wanted → List ℕ
keys [] = []
keys (w ∷ ws) = w.internal_port ∷ keys ws

unfoldable pub ports_of : List PortRow → List ℕ
ports_of [] = []
ports_of (r ∷ rows) = r.node_port ∷ ports_of rows

-- The rows of a pod: `DELETE ... WHERE pod_name`.
unfoldable pub release_nodeports : String → List PortRow → List PortRow
release_nodeports pod [] = []
release_nodeports pod (r ∷ rows) =
    let rest = release_nodeports pod rows in if r.pod_name == pod then rest else r ∷ rest

-- Whether a row keeps its pod off the list of those past the grace time.
abbrev is_recent : ℕ → ℕ → Option ℕ → Bool
is_recent now grace created = elim created [ none ↦ false | some t ↦ not (ltb (t + grace) now) ]

recent_pod : ℕ → ℕ → String → List PortRow → Bool
recent_pod now grace pod [] = false
recent_pod now grace pod (r ∷ rows) =
    (r.pod_name == pod && is_recent now grace r.created_at) || recent_pod now grace pod rows

unfoldable pub keep_live : ℕ → ℕ → List String → List PortRow → List PortRow → List PortRow
unfolding contains recent_pod
keep_live now grace live table [] = []
keep_live now grace live table (r ∷ rows) =
    let rest = keep_live now grace live table rows in
    if contains r.pod_name live || recent_pod now grace r.pod_name table then r ∷ rest else rest

-- The reconciliation past its throttle: the rows of pods that are not live and have no recent row
-- go. `none` is a list of the live pods that could not be read; then nothing is removed.
unfoldable pub remove_stale : ℕ → ℕ → Option (List String) → List PortRow → List PortRow
unfolding keep_live
remove_stale now grace none table = table
remove_stale now grace (some live) table = keep_live now grace live table table

-- `reconcile_nodeport_allocations`, with the time of its last run.
unfoldable pub reconcile : ℕ → ℕ → ℕ → Option (List String) → ℕ × List PortRow → ℕ × List PortRow
unfolding remove_stale
reconcile interval now grace live (last, table) =
    if ltb (now - last) interval then (last, table) else (now, remove_stale now grace live table)

-- `[p for p in range(lo, lo + n) if p not in used]`
unfoldable pub available : List ℕ → ℕ → ℕ → List ℕ
unfolding elem
available used zero lo = []
available used (suc n) lo =
    let rest = available used n (lo + 1) in if elem lo used then rest else lo ∷ rest

pub data Allocation : Type 0 where
  given : List Given → Allocation
  not_enough : Allocation
  insert_failed : Allocation

module _ (inserts : PortRow → Bool) (user pod : String) (now : ℕ) where
  row_of : Wanted → ℕ → PortRow
  row_of w port = record {
    pod_name = pod;
    node_port = port;
    internal_port = w.internal_port;
    purpose = purpose_of w;
    username = user;
    created_at = some now;
  }

  with_port : Wanted → ℕ → Option (List PortRow × List Given) → Option (List PortRow × List Given)
  unfolding row_of
  with_port w port none = none
  with_port w port (some (rows, givens)) =
      if inserts (row_of w port)
      then some (
        row_of w port ∷ rows,
        record {
          internal_port = w.internal_port;
          external_port = port;
          usage_purpose = purpose_of w;
        }
            ∷ givens,
      )
      else none

  -- The loop over the ports; `available[idx]` past the end would raise.
  assign : List Wanted → List ℕ → Option (List PortRow × List Given)
  unfolding with_port
  assign [] free = some ([], [])
  assign (w ∷ ws) [] = none
  assign (w ∷ ws) (port ∷ free) = with_port w port (assign ws free)

  commit : List PortRow → Option (List PortRow × List Given) → Allocation × List PortRow
  commit table none = (insert_failed, table)
  commit table (some (rows, givens)) = (given givens, table ++ rows)

  -- `allocate_nodeports` on the reconciled table: `reserved` are the node ports of the cluster, or
  -- nothing where the cluster could not be asked; a failure rolls the transaction back.
  unfoldable pub allocate_nodeports :
      ℕ → ℕ → Option (List ℕ) → List Wanted → List PortRow → Allocation × List PortRow
  unfolding ports_of available assign commit
  allocate_nodeports min max reserved wanted table =
      let used = ports_of table ++ elim reserved [ none ↦ [] | some ports ↦ ports ] in
      let free = available used (max + 1 - min) min in
      if ltb (length free) (length wanted)
      then (not_enough, table)
      else commit table (assign wanted free)
