-- ===== src/PortChange/Rows.antt =====
-- The sets of ports and the rows and services that a change of ports works on.
use admin_infra_proposed.Base.{
  ℕ, ◌≡◌, refl, ap, arith, String, true, false, not, ◌&&◌, ◌||◌, List, [], ◌∷◌, ◌++◌, if◌then◌else◌,
  ◌=ℕ◌, ◌==◌,
}
use admin_infra_proposed.Ledger.{elem}
use admin_infra_proposed.Requests.{protected_ports}
use admin_infra_proposed.NodePorts.{keys, PortRow, Wanted}
use admin_infra_proposed.NodePorts.Rows.{internals, all_of_pod}
use admin_infra_proposed.PortChange.{
  allocations, extra_ports, add_port, minus, release_ports, added_wanted,
}

elem-add_port : (p q : ℕ) (ps : List ℕ) → elem p (add_port q ps) ≡ (p =ℕ q) || elem p ps
unfolding elem add_port
elem-add_port p q [] = ground arith
elem-add_port p q (x ∷ ps) = ground (arith, elem-add_port p q ps)

pub elem-minus :
    (p : ℕ) (ps others : List ℕ) → elem p (minus ps others) ≡ elem p ps && not (elem p others)
unfolding elem minus
elem-minus p [] others = refl
elem-minus p (x ∷ ps) others =
    ground (arith, elem-minus p ps others, elem-add_port p x (minus ps others))

pub minus_covered :
    (ps others : List ℕ)
    → ((p : ℕ) → elem p ps ≡ true → elem p others ≡ true)
    → minus ps others ≡ []
unfolding elem minus
minus_covered [] others h = refl
minus_covered (x ∷ ps) others h =
    ground (arith, h x, minus_covered ps others (λ p k. h p (ground (arith, k))))

pub keys-added_wanted : (wanted : List Wanted) (ps : List ℕ) → keys (added_wanted wanted ps) ≡ ps
unfolding keys added_wanted
keys-added_wanted wanted [] = refl
keys-added_wanted wanted (p ∷ ps) = ap (λ l. p ∷ l) (keys-added_wanted wanted ps)

-- The extra ports of a pod.
abbrev pub extras : String → List PortRow → List ℕ
extras pod table = extra_ports (allocations pod table)

pub elem-extras-release :
    (p : ℕ) (pod : String) (ports : List ℕ) (table : List PortRow)
    → elem p (extras pod (release_ports pod ports table))
      ≡ elem p (extras pod table) && not (elem p ports)
unfolding elem extra_ports allocations release_ports
elem-extras-release p pod ports [] = refl
elem-extras-release p pod ports (r ∷ table) = ground (arith, elem-extras-release p pod ports table)

pub elem-extras-append :
    (p : ℕ) (pod : String) (table rows : List PortRow)
    → elem p (extras pod (table ++ rows)) ≡ elem p (extras pod table) || elem p (extras pod rows)
unfolding elem extra_ports allocations
elem-extras-append p pod [] rows = refl
elem-extras-append p pod (r ∷ table) rows = ground (arith, elem-extras-append p pod table rows)

-- The rows of other pods and those of protected ports.
unfoldable pub untouched : String → List PortRow → List PortRow
unfolding elem
untouched pod [] = []
untouched pod (r ∷ rows) =
    let rest = untouched pod rows in
    if r.pod_name == pod && not (elem r.internal_port protected_ports) then rest else r ∷ rest

pub untouched-release :
    (pod : String) (ports : List ℕ) (table : List PortRow)
    → ((p : ℕ) → elem p ports ≡ true → elem p protected_ports ≡ false)
    → untouched pod (release_ports pod ports table) ≡ untouched pod table
unfolding untouched release_ports
untouched-release pod ports [] h = refl
untouched-release pod ports (r ∷ table) h =
    ground (arith, h r.internal_port, untouched-release pod ports table h)

pub untouched-append :
    (pod : String) (table rows : List PortRow)
    → untouched pod (table ++ rows) ≡ untouched pod table ++ untouched pod rows
unfolding untouched
untouched-append pod [] rows = refl
untouched-append pod (r ∷ table) rows = ground (arith, untouched-append pod table rows)

pub extra_not_protected :
    (p : ℕ) (rows : List PortRow)
    → elem p (extra_ports rows) ≡ true
    → elem p protected_ports ≡ false
unfolding extra_ports
extra_not_protected p [] h = ground (arith, h)
extra_not_protected p (r ∷ rows) h = ground (arith, h, extra_not_protected p rows)

pub allocations_all :
    (pod : String) (rows : List PortRow) → all_of_pod pod rows ≡ true → allocations pod rows ≡ rows
unfolding allocations all_of_pod
allocations_all pod [] h = refl
allocations_all pod (r ∷ rows) h = ground (arith, h, allocations_all pod rows)

pub elem-extra_ports :
    (p : ℕ) (rows : List PortRow)
    → elem p (extra_ports rows) ≡ elem p (internals rows) && not (elem p protected_ports)
unfolding elem extra_ports internals
elem-extra_ports p [] = refl
elem-extra_ports p (r ∷ rows) = ground (arith, elem-extra_ports p rows)

pub untouched_all :
    (pod : String) (rows : List PortRow)
    → all_of_pod pod rows ≡ true
    → ((p : ℕ) → elem p (internals rows) ≡ true → elem p protected_ports ≡ false)
    → untouched pod rows ≡ []
unfolding untouched all_of_pod internals elem
untouched_all pod [] h k = refl
untouched_all pod (r ∷ rows) h k = ground (
  arith,
  h,
  k r.internal_port,
  untouched_all pod rows (ground (arith, h)) (λ p q. k p (ground (arith, q))),
)
