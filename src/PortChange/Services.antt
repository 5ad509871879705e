-- ===== src/PortChange/Services.antt =====
-- The services that a change of ports deletes.
use admin_infra_proposed.Base.{
  Bool-cases, inl, inr, ap, sym, ◌∙◌, contains, ℕ, ◌≡◌, refl, sym, ap, ◌∙◌, inl, inr, arith,
  eq_refl, Bool-cases, String, Bool, true, false, not, ◌&&◌, ◌||◌, List, [], ◌∷◌, ◌=ℕ◌,
}
use admin_infra_proposed.Ledger.{elem}
use admin_infra_proposed.PortChange.{
  Service, has_service, services_of, drop_service, delete_names, delete_ports,
}

-- Every service of the port is one of the names.
unfoldable pub covered : ℕ → List String → List Service → Bool
unfolding elem contains
covered port names [] = true
covered port names (s ∷ services) =
    (not (elem port s.ports) || contains s.name names) && covered port names services

covered_more :
    (port : ℕ) (name : String) (names : List String) (services : List Service)
    → covered port names services ≡ true
    → covered port (name ∷ names) services ≡ true
unfolding covered contains
covered_more port name names [] h = refl
covered_more port name names (s ∷ services) h =
    ground (arith, h, covered_more port name names services)

pub services_of-covered :
    (port : ℕ) (services : List Service) → covered port (services_of port services) services ≡ true
unfolding covered services_of contains
services_of-covered port [] = refl
services_of-covered port (s ∷ services) = ground (
  arith,
  eq_refl s.name,
  services_of-covered port services,
  covered_more port s.name (services_of port services) services,
)

pub has_service-covered :
    (port : ℕ) (services : List Service)
    → covered port [] services ≡ true
    → has_service port services ≡ false
unfolding covered has_service contains
has_service-covered port [] h = refl
has_service-covered port (s ∷ services) h = ground (arith, h, has_service-covered port services)

covered-drop_service :
    (port : ℕ) (name : String) (names : List String) (services : List Service)
    → (covered port names services ≡ true → covered port names (drop_service name services) ≡ true)
      × (covered port (name ∷ names) services ≡ true
          → covered port names (drop_service name services) ≡ true)
unfolding covered drop_service contains
covered-drop_service port name names [] = (λ h. refl, λ h. refl)
covered-drop_service port name names (s ∷ services) =
    let (same, fewer) = covered-drop_service port name names services in
    (λ h. ground (arith, h, same), λ h. ground (arith, h, fewer))

delete_names-covered :
    (deletes : String → Bool) (port : ℕ) (names kept : List String) (services : List Service)
    → covered port kept services ≡ true
    → covered port kept (delete_names deletes names services).1 ≡ true
unfolding delete_names
delete_names-covered deletes port [] kept services h = h
delete_names-covered deletes port (name ∷ names) kept services h = ground (
  arith,
  h,
  delete_names-covered deletes port names kept (drop_service name services),
  covered-drop_service port name kept services,
)

delete_names_all :
    (deletes : String → Bool) (port : ℕ) (names : List String) (services : List Service)
    → covered port names services ≡ true
    → (delete_names deletes names services).0 ≡ true
    → covered port [] (delete_names deletes names services).1 ≡ true
unfolding delete_names
delete_names_all deletes port [] services h k = h
delete_names_all deletes port (name ∷ names) services h k = ground (
  arith,
  h,
  k,
  delete_names_all deletes port names (drop_service name services),
  covered-drop_service port name names services,
)

delete_ports-covered :
    (deletes : String → Bool) (listed : List Service) (port : ℕ) (ports : List ℕ)
    (kept : List String) (services : List Service)
    → covered port kept services ≡ true
    → covered port kept (delete_ports deletes listed ports services).1 ≡ true
unfolding delete_ports
delete_ports-covered deletes listed port [] kept services h = h
delete_ports-covered deletes listed port (p ∷ ports) kept services h =
    let left = delete_names deletes (services_of p listed) services in
    ground (
      arith,
      delete_names-covered deletes port (services_of p listed) kept services h,
      delete_ports-covered deletes listed port ports kept left.1,
    )

-- Where no deletion raised, no service is left of the ports that were to be removed.
pub delete_ports_all :
    (deletes : String → Bool) (listed : List Service) (port : ℕ) (ports : List ℕ)
    (services : List Service)
    → covered port (services_of port listed) services ≡ true
    → (delete_ports deletes listed ports services).0 ≡ true
    → elem port ports ≡ true
    → covered port [] (delete_ports deletes listed ports services).1 ≡ true
unfolding delete_ports elem
delete_ports_all deletes listed port [] services h k e = ground (arith, e)
delete_ports_all deletes listed port (p ∷ ports) services h k e =
    let left = delete_names deletes (services_of p listed) services in
    elim (Bool-cases (port =ℕ p)) [
      | inl here ↦
          let same : port ≡ p = ground (arith, here) in
          let own =
            delete_names_all deletes port (services_of p listed) services
              (ap (λ q. covered port (services_of q listed) services) (sym same) ∙ h) in
          ground (arith, k, own, delete_ports-covered deletes listed port ports [] left.1)
      | inr other ↦ ground (
        arith,
        k,
        e,
        other,
        delete_names-covered deletes port (services_of p listed) (services_of port listed) services
            h,
        delete_ports_all deletes listed port ports left.1,
      )
    ]
