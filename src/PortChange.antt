-- ===== src/PortChange.antt =====
-- The change of a running pod's extra ports: `step_change_ports` of
-- config-server/lifecycle_steps/port.py, on the table of NodePorts and the services of the pod.
pub mod Rows
pub mod Reconciled
pub mod Services
pub mod Added
pub mod Unwanted
pub mod Converging
mod Tests
use admin_infra_proposed.Base.{
  ℕ, zero, suc, ◌+◌, String, Bool, true, false, not, ◌&&◌, ◌||◌, Option, none, some, List, [], ◌∷◌,
  ◌++◌, if◌then◌else◌, ltb, ◌=ℕ◌, ◌==◌,
}
use admin_infra_proposed.Ledger.{elem}
use admin_infra_proposed.Requests.{protected_ports}
use admin_infra_proposed.NodePorts.{
  keys, PortRow, Wanted, Given, Allocation, given, not_enough, insert_failed, allocate_nodeports,
  remove_stale,
}

-- A service with the ports that it opens.
pub record Service : Type 0 where
  pub name : String
  pub ports : List ℕ

-- What the read of the pod answers.
pub data PodRead : Type 0 where
  found : PodRead
  missing : PodRead
  deleting : PodRead
  read_raised : PodRead

-- What the other calls do: whether the services can be listed, which can be deleted and created,
-- whether the rows can be released; and, for the reconciliation inside the allocation, the pods that
-- have a Service then, with _NODEPORT_STALE_GRACE_SEC. There is no such list where the reconciliation
-- is throttled, cannot ask the cluster, or fails in the database.
pub record Cluster : Type 0 where
  pub pod : PodRead
  pub lists : Bool
  pub deletes : String → Bool
  pub creates : ℕ → Bool
  pub releases : Bool
  pub live : Option (List String)
  pub grace : ℕ

pub record State : Type 0 where
  pub table : List PortRow
  pub services : List Service

-- `_allocations`
unfoldable pub allocations : String → List PortRow → List PortRow
allocations pod [] = []
allocations pod (r ∷ rows) =
    let rest = allocations pod rows in if r.pod_name == pod then r ∷ rest else rest

other_owner : String → List PortRow → Bool
other_owner user [] = false
other_owner user (r ∷ rows) = not (r.username == user) || other_owner user rows

-- The ports of the rows that are not protected.
unfoldable pub extra_ports : List PortRow → List ℕ
unfolding elem
extra_ports [] = []
extra_ports (r ∷ rows) =
    let rest = extra_ports rows in
    if elem r.internal_port protected_ports then rest else r.internal_port ∷ rest

abbrev purpose_or : Option String → String
purpose_or none = "custom"
purpose_or (some p) = if p == "" then "custom" else p

-- `wanted[port]`: the last purpose that was given for the port.
unfoldable pub wanted_purpose : ℕ → List Wanted → Option String
wanted_purpose port [] = none
wanted_purpose port (w ∷ ws) =
    let rest = wanted_purpose port ws in
    elim rest [
      | some p ↦ some p
      | none ↦ if w.internal_port =ℕ port then some (purpose_or w.usage_purpose) else none
    ]

-- `sorted(set(ports))`
unfoldable pub add_port : ℕ → List ℕ → List ℕ
add_port p [] = p ∷ []
add_port p (q ∷ qs) =
    let rest = add_port p qs in if p =ℕ q then q ∷ qs else if ltb p q then p ∷ q ∷ qs else q ∷ rest

-- `sorted(set(ports) - set(others))`
unfoldable pub minus : List ℕ → List ℕ → List ℕ
unfolding elem add_port
minus [] others = []
minus (p ∷ ps) others =
    let rest = minus ps others in if elem p others then rest else add_port p rest

unfoldable pub has_service : ℕ → List Service → Bool
unfolding elem
has_service port [] = false
has_service port (s ∷ services) = elem port s.ports || has_service port services

-- `_services_by_port`, the services of one port.
unfoldable pub services_of : ℕ → List Service → List String
unfolding elem
services_of port [] = []
services_of port (s ∷ services) =
    let rest = services_of port services in if elem port s.ports then s.name ∷ rest else rest

unfoldable pub drop_service : String → List Service → List Service
drop_service name [] = []
drop_service name (s ∷ services) =
    let rest = drop_service name services in if s.name == name then rest else s ∷ rest

-- The deletions one after the other: whether none raised, and the services that are left.
delete_names : (String → Bool) → List String → List Service → Bool × List Service
unfolding drop_service
delete_names deletes [] services = (true, services)
delete_names deletes (name ∷ names) services =
    let rest = delete_names deletes names (drop_service name services) in
    if deletes name then rest else (false, services)

-- The loop over the ports to remove, by the services that were listed at first.
unfoldable pub delete_ports :
    (String → Bool) → List Service → List ℕ → List Service → Bool × List Service
unfolding delete_names services_of
delete_ports deletes listed [] services = (true, services)
delete_ports deletes listed (port ∷ ports) services =
    let (done, left) = delete_names deletes (services_of port listed) services in
    let rest = delete_ports deletes listed ports left in if done then rest else (false, left)

-- `_release`
unfoldable pub release_ports : String → List ℕ → List PortRow → List PortRow
unfolding elem
release_ports pod ports [] = []
release_ports pod ports (r ∷ rows) =
    let rest = release_ports pod ports rows in
    if r.pod_name == pod && elem r.internal_port ports then rest else r ∷ rest

unfoldable pub added_wanted : List Wanted → List ℕ → List Wanted
unfolding wanted_purpose
added_wanted wanted [] = []
added_wanted wanted (p ∷ ps) =
    record { internal_port = p; usage_purpose = wanted_purpose p wanted } ∷ added_wanted wanted ps

unfoldable pub given_of : List PortRow → List Given
given_of [] = []
given_of (r ∷ rows) =
    record {
      internal_port = r.internal_port;
      external_port = r.node_port;
      usage_purpose = purpose_or (some r.purpose);
    }
    ∷ given_of rows

-- The wanted ports of the rows that had no service when the services were listed.
unfoldable pub missing_ports : List ℕ → List Service → List Given → List ℕ
unfolding elem has_service
missing_ports wanted listed [] = []
missing_ports wanted listed (g ∷ gs) =
    let rest = missing_ports wanted listed gs in
    if elem g.internal_port wanted && not (has_service g.internal_port listed)
    then g.internal_port ∷ rest
    else rest

-- `create_nodeport_services`; `names` is for the names that the services get.
unfoldable pub create_services :
    (ℕ → Bool) → (ℕ → String) → List ℕ → List Service → Bool × List Service
create_services creates names [] services = (true, services)
create_services creates names (p ∷ ps) services =
    let rest =
      create_services creates names ps
        (services ++ record { name = names p; ports = p ∷ [] } ∷ []) in
    if creates p then rest else (false, services)

pub data Change : Type 0 where
  changed : List Given → Change
  pod_not_found : Change
  pod_owner_mismatch : Change
  port_change_failed : Change

module _ (inserts : PortRow → Bool) (names : ℕ → String) (user pod : String) (now min max : ℕ)
    (reserved : Option (List ℕ)) (cluster : Cluster) (wanted : List Wanted) where
  -- What follows the allocation.
  fill : List Service → List PortRow → List Service → Change × State
  unfolding missing_ports given_of create_services allocations keys
  fill listed table services =
      let gs = given_of (allocations pod table) in
      let (done, services') =
        create_services cluster.creates names (missing_ports (keys wanted) listed gs) services in
      (
        if done then changed gs else port_change_failed,
        record { table = table; services = services' },
      )

  allocated : List Service → List Service → Allocation × List PortRow → Change × State
  unfolding fill
  allocated listed services (given gs, table) = fill listed table services
  allocated listed services (not_enough, table) =
      (port_change_failed, record { table = table; services = services })
  allocated listed services (insert_failed, table) =
      (port_change_failed, record { table = table; services = services })

  allocate_added : List Service → List ℕ → List PortRow → List Service → Change × State
  unfolding allocated fill added_wanted allocate_nodeports remove_stale
  allocate_added listed [] table services = fill listed table services
  allocate_added listed (p ∷ ps) table services = allocated listed services (
      allocate_nodeports inserts user pod now min max reserved (added_wanted wanted (p ∷ ps))
        (remove_stale now cluster.grace cluster.live table))

  unfoldable pub released :
      List Service → List ℕ → List ℕ → List PortRow → List Service → Change × State
  unfolding allocate_added release_ports
  released listed [] added table services = allocate_added listed added table services
  released listed (p ∷ ps) added table services =
      if cluster.releases
      then allocate_added listed added (release_ports pod (p ∷ ps) table) services
      else (port_change_failed, record { table = table; services = services })

  unfoldable pub change : State → Change × State
  unfolding delete_ports released minus extra_ports allocations keys
  change s =
      let extra = extra_ports (allocations pod s.table) in
      let removed = minus extra (keys wanted) in
      let added = minus (keys wanted) extra in
      let (done, left) = delete_ports cluster.deletes s.services removed s.services in
      if not cluster.lists
      then (port_change_failed, s)
      else if done
      then released s.services removed added s.table left
      else (port_change_failed, record { table = s.table; services = left })

  checked : List PortRow → State → Change × State
  unfolding change other_owner
  checked [] s = (pod_not_found, s)
  checked (r ∷ rows) s = if other_owner user (r ∷ rows) then (pod_owner_mismatch, s) else change s

  read : PodRead → State → Change × State
  unfolding checked allocations
  read found s = checked (allocations pod s.table) s
  read missing s = (pod_not_found, s)
  read deleting s = (pod_not_found, s)
  read read_raised s = (port_change_failed, s)

  -- `step_change_ports`
  unfoldable pub step_change_ports : State → Change × State
  unfolding read
  step_change_ports s = read cluster.pod s
