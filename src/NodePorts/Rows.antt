-- ===== src/NodePorts/Rows.antt =====
-- The rows that an allocation adds to the table, and the ports in them.
use admin_infra_proposed.Base.{
  ◌==◌, ℕ, zero, suc, ◌+◌, ◌-◌, ◌≤◌, ◌<◌, String, ◌≡◌, refl, Bool, true, false, not, ◌&&◌, ◌||◌,
  List, [], ◌∷◌, ◌++◌, arith, ap,
}
use admin_infra_proposed.Ledger.{elem}
use admin_infra_proposed.NodePorts.{
  PortRow, Wanted, Given, ports_of, release_nodeports, available, purpose_of,
}

-- The free ports stand in the range and are not in use.
pub elem-available :
    (p : ℕ) (used : List ℕ) (n lo : ℕ)
    → elem p (available used n lo) ≡ true
    → (lo ≤ p) × (p < lo + n) × (elem p used ≡ false)
unfolding elem available
elem-available p used zero lo h = ground (arith, h)
elem-available p used (suc n) lo h = ground (arith, h, elem-available p used n (lo + 1))

-- No number stands twice.
unfoldable pub distinct_ports : List ℕ → Bool
unfolding elem
distinct_ports [] = true
distinct_ports (p ∷ ps) = not (elem p ps) && distinct_ports ps

pub available-distinct : (used : List ℕ) (n lo : ℕ) → distinct_ports (available used n lo) ≡ true
unfolding available distinct_ports
available-distinct used zero lo = refl
available-distinct used (suc n) lo =
    ground (arith, available-distinct used n (lo + 1), elem-available lo used n (lo + 1))

unfoldable pub externals : List Given → List ℕ
externals [] = []
externals (g ∷ gs) = g.external_port ∷ externals gs

-- The answer is for the ports that were asked for, in their order.
unfoldable pub Answers : List Wanted → List Given → Type 0
Answers [] [] = Unit {0}
Answers [] (g ∷ gs) = ◌≡◌ {A = Bool} true false
Answers (w ∷ ws) [] = ◌≡◌ {A = Bool} true false
Answers (w ∷ ws) (g ∷ gs) =
    ((g.internal_port ≡ w.internal_port) × (g.usage_purpose ≡ purpose_of w)) × Answers ws gs

elem-append : (p : ℕ) (ps qs : List ℕ) → elem p (ps ++ qs) ≡ elem p ps || elem p qs
unfolding elem
elem-append p [] qs = refl
elem-append p (x ∷ ps) qs = ground (arith, elem-append p ps qs)

pub ports_of-append :
    (rows rows' : List PortRow) → ports_of (rows ++ rows') ≡ ports_of rows ++ ports_of rows'
unfolding ports_of
ports_of-append [] rows' = refl
ports_of-append (r ∷ rows) rows' = ap (λ ps. r.node_port ∷ ps) (ports_of-append rows rows')

pub distinct_ports-append :
    (ps qs : List ℕ)
    → distinct_ports ps ≡ true
    → distinct_ports qs ≡ true
    → ((p : ℕ) → elem p qs ≡ true → elem p ps ≡ false)
    → distinct_ports (ps ++ qs) ≡ true
unfolding distinct_ports elem
distinct_ports-append [] qs h k out = k
distinct_ports-append (x ∷ ps) qs h k out = ground (
  arith,
  h,
  elem-append x ps qs,
  out x,
  distinct_ports-append ps qs (ground (arith, h)) k (λ p q. ground (arith, out p q)),
)

pub release-append :
    (pod : String) (rows rows' : List PortRow)
    → release_nodeports pod (rows ++ rows')
      ≡ release_nodeports pod rows ++ release_nodeports pod rows'
unfolding release_nodeports
release-append pod [] rows' = refl
release-append pod (r ∷ rows) rows' = ground (arith, release-append pod rows rows')

pub in_range :
    (p min max : ℕ) (ps qs : List ℕ)
    → (min ≤ p) × (p < min + (max + 1 - min)) × (elem p (ps ++ qs) ≡ false)
    → (min ≤ p) × (p ≤ max) × (elem p ps ≡ false) × (elem p qs ≡ false)
in_range p min max ps qs (low, high, free) = (
  low,
  omega (arith, low, high),
  ground (arith, free, elem-append p ps qs),
  ground (arith, free, elem-append p ps qs),
)

unfoldable pub internals : List PortRow → List ℕ
internals [] = []
internals (r ∷ rows) = r.internal_port ∷ internals rows

unfoldable pub all_of_pod : String → List PortRow → Bool
all_of_pod pod [] = true
all_of_pod pod (r ∷ rows) = r.pod_name == pod && all_of_pod pod rows
