-- ===== src/Verification/Blocked.antt =====
-- A revocation passes its check only where the access is blocked.
use admin_infra_proposed.Base.{
  if◌then◌else◌, ℕ, String, Bool, true, false, some, List, [], ◌∷◌, ◌≡◌, ◌≢◌, refl, ◌∙◌, ap, arith,
  ◌⊎◌, inl, inr, ◌==◌, ◌=ℕ◌, subst, Bool-cases, Option-cases,
}
use admin_infra_proposed.Ledger.{elem}
use admin_infra_proposed.NodePorts.{PortRow, ports_of, release_nodeports}
use admin_infra_proposed.Verification.{
  holds, tool_failed, probe_passed, run_probe, rows_of, capture_access_targets, Observations,
  own_ports, open_ports, is_empty, ports_blocked, revoked_check, step_verify_revoked,
}

-- A row of the table.
abbrev pub HasRow : PortRow → List PortRow → Type 0
HasRow r [] = ⊥
HasRow r (x ∷ rows) = (r ≡ x) ⊎ HasRow r rows

elem-capture :
    (r : PortRow) (pod : String) (rows : List PortRow)
    → HasRow r rows
    → (r.pod_name == pod) ≡ true
    → elem r.node_port (capture_access_targets pod rows) ≡ true
unfolding capture_access_targets elem
elem-capture r pod [] h e = absurd h
elem-capture r pod (x ∷ rows) (inl p) e =
    ground (arith, ap (λ (y : PortRow). y.pod_name) p, ap (λ (y : PortRow). y.node_port) p, e)
elem-capture r pod (x ∷ rows) (inr h) e = ground (arith, elem-capture r pod rows h e)

-- A port that is to be tried takes no connection, where none of those that are tried does.
elem-own_ports :
    (p : ℕ) (pod : String) (rows : List PortRow) (ports : List ℕ)
    → elem p ports ≡ true
    → elem p (ports_of (release_nodeports pod rows)) ≡ false
    → elem p (own_ports pod rows ports) ≡ true
unfolding own_ports elem
elem-own_ports p pod rows [] h n = h
elem-own_ports p pod rows (q ∷ ports) h n = elim (Bool-cases (p =ℕ q)) [
  | inr e ↦ ground (arith, e, h, elem-own_ports p pod rows ports)
  | inl e ↦
      let same : p ≡ q = ground (arith, e) in
      let n' : elem q (ports_of (release_nodeports pod rows)) ≡ false =
        subst (λ x. elem x (ports_of (release_nodeports pod rows)) ≡ false) same n in
      ground (arith, e, n')
]

closed_port :
    (connects : ℕ → Bool) (p : ℕ) (ports : List ℕ)
    → elem p ports ≡ true
    → is_empty (open_ports connects ports) ≡ true
    → connects p ≡ false
unfolding open_ports elem
closed_port connects p [] h e = absurd (ground (arith, h))
closed_port connects p (q ∷ ports) h e = elim (Bool-cases (p =ℕ q)) [
  | inr n ↦ closed_port connects p ports (ground (arith, h, n)) (ground (arith, e))
  | inl same ↦
      let shut : connects q ≡ false = ground (arith, e) in ap connects (ground (arith, same)) ∙ shut
]

tool_failure : (lost : Bool) → (run_probe (tool_failed lost)).0 ≢ probe_passed
unfolding run_probe
tool_failure lost h = cc h

passed_holds :
    (stuck lost b : Bool)
    → (run_probe (if stuck then tool_failed lost else holds b)).0 ≡ probe_passed
    → b ≡ true
unfolding run_probe
passed_holds true lost b h = absurd (tool_failure lost h)
passed_holds false lost true h = refl
passed_holds false lost false h = absurd (cc h)

-- What a check that holds has observed.
check_observed :
    (lost : Bool) (o : Observations) (pod : String) (ports : List ℕ) (there : Bool) (services : ℕ)
    (rows : List PortRow)
    → (run_probe (revoked_check lost o pod ports there services rows)).0 ≡ probe_passed
    → (there ≡ false)
      × (services ≡ 0)
      × (rows_of pod rows ≡ [])
      × (ports_blocked o (own_ports pod rows ports) ≡ true)
unfolding revoked_check elem
check_observed lost o pod ports there services rows p =
    let all = passed_holds _ lost _ p in
    (
      ground (arith, all),
      ground (arith, all),
      empties (rows_of pod rows) (ground (arith, all)),
      ground (arith, all),
    )
  where
    empties : (l : List PortRow) → is_empty l ≡ true → l ≡ []
    empties [] h = refl
    empties (x ∷ xs) h = absurd (ground (arith, h))

blocked_port :
    (o : Observations) (p : ℕ) (ports : List ℕ)
    → elem p ports ≡ true
    → o.has_node ≡ true
    → ports_blocked o ports ≡ true
    → (o.path_ok ≡ true) × (o.connects p ≡ false)
unfolding ports_blocked elem
blocked_port o p [] h n b = absurd (ground (arith, h))
blocked_port o p (q ∷ ports) h n b =
    (ground (arith, n, b), closed_port o.connects p (q ∷ ports) h (ground (arith, n, b)))

-- The port takes no connection while the node's own ssh port does, or it now belongs to another pod.
abbrev pub IsShut : Observations → String → List PortRow → ℕ → Type 0
IsShut o pod now p =
    (elem p (ports_of (release_nodeports pod now)) ≡ true)
    ⊎ ((o.path_ok ≡ true) × (o.connects p ≡ false))

-- Every port that the pod had is shut, if the node is known.
abbrev pub PortsShut : Observations → String → List PortRow → List PortRow → Type 0
PortsShut o pod now [] = Unit {0}
PortsShut o pod now (r ∷ before) =
    (((r.pod_name == pod) ≡ false) ⊎ (o.has_node ≡ false) ⊎ IsShut o pod now r.node_port)
    × PortsShut o pod now before

ports_shut :
    (o : Observations) (pod : String) (now before rows : List PortRow)
    → ports_blocked o (own_ports pod now (capture_access_targets pod before)) ≡ true
    → ((r : PortRow) → HasRow r rows → HasRow r before)
    → PortsShut o pod now rows
ports_shut o pod now before [] shut in_before = tt
ports_shut o pod now before (r ∷ rows) shut in_before = (
  elim (Bool-cases (r.pod_name == pod)) [
    | inr other ↦ inl other
    | inl mine ↦ elim (Bool-cases o.has_node) [
      | inr unknown ↦ inr (inl unknown)
      | inl node ↦ inr (inr (port_shut (Bool-cases (elem r.node_port others)) mine node))
    ]
  ],
  ports_shut o pod now before rows shut (λ x h. in_before x (inr h)),
)
  where
    others : List ℕ
    others = ports_of (release_nodeports pod now)

    ports : List ℕ
    ports = capture_access_targets pod before

    port_shut :
        (elem r.node_port others ≡ true) ⊎ (elem r.node_port others ≡ false)
        → (r.pod_name == pod) ≡ true
        → o.has_node ≡ true
        → IsShut o pod now r.node_port
    port_shut (inl given) mine node = inl given
    port_shut (inr own) mine node = inr (
        blocked_port o r.node_port (own_ports pod now ports)
          (elem-own_ports r.node_port pod now ports
            (elem-capture r pod before (in_before r (inl refl)) mine) own)
          node shut)

-- What a passed check of a revocation has seen: no pod, no Service and no row of the pod; and, if
-- the node is known, of every node port that the pod had before the deletions, either that it takes
-- no connection while the node's own ssh port does, or that it now belongs to another pod. A call
-- that raised lets no check pass.
pub step_verify_revoked_lem :
    (lost : Bool) (o : Observations) (pod : String) (before : List PortRow)
    → (step_verify_revoked lost o pod (capture_access_targets pod before)).0 ≡ probe_passed
    → (now : List PortRow) × (o.table ≡ some now)
      × (o.pod ≡ some false)
      × (o.services ≡ some 0)
      × (rows_of pod now ≡ [])
      × PortsShut o pod now before
unfolding step_verify_revoked
step_verify_revoked_lem lost o pod before p = elim (Option-cases o.pod) [
  | inl e ↦ absurd (tool_failure lost (rw (e, step_verify_revoked) at p))
  | inr (there, e) ↦ elim (Option-cases o.services) [
    | inl e' ↦ absurd (tool_failure lost (rw (e, e', step_verify_revoked) at p))
    | inr (services, e') ↦ elim (Option-cases o.table) [
      | inl e'' ↦ absurd (tool_failure lost (rw (e, e', e'', step_verify_revoked) at p))
      | inr (now, e'') ↦
          let (gone, none_left, no_rows, shut) =
            check_observed lost o pod (capture_access_targets pod before) there services now
              (rw (e, e', e'', step_verify_revoked) at p) in
          (
            now,
            e'',
            e ∙ ap some gone,
            e' ∙ ap some none_left,
            no_rows,
            ports_shut o pod now before before shut (λ r h. h),
          )
    ]
  ]
]
