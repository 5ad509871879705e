-- ===== src/PortChange/Unwanted.antt =====
-- The ports that are not wanted get no service.
use admin_infra_proposed.Base.{
  ℕ, ◌≡◌, refl, ◌∙◌, arith, String, Bool, false, ◌||◌, Option, List, [], ◌∷◌, ◌++◌, ◌=ℕ◌,
}
use admin_infra_proposed.Ledger.{elem}
use admin_infra_proposed.NodePorts.{
  keys, PortRow, Wanted, Given, Allocation, given, not_enough, insert_failed, allocate_nodeports,
  remove_stale,
}
use admin_infra_proposed.PortChange.{
  Service, Cluster, allocations, has_service, release_ports, added_wanted, given_of, missing_ports,
  create_services, fill, allocated, allocate_added, released,
}

has_service-append :
    (p : ℕ) (services : List Service) (name : String) (q : ℕ)
    → has_service p (services ++ record { name = name; ports = q ∷ [] } ∷ [])
      ≡ has_service p services || (p =ℕ q)
unfolding has_service elem
has_service-append p [] name q = ground arith
has_service-append p (s ∷ services) name q = ground (arith, has_service-append p services name q)

-- A port that is not created gets no service.
create_services-other :
    (creates : ℕ → Bool) (names : ℕ → String) (p : ℕ) (ps : List ℕ) (services : List Service)
    → elem p ps ≡ false
    → has_service p (create_services creates names ps services).1 ≡ has_service p services
unfolding create_services elem
create_services-other creates names p [] services h = refl
create_services-other creates names p (q ∷ ps) services h = ground (
  arith,
  h,
  create_services-other creates names p ps
      (services ++ record { name = names q; ports = q ∷ [] } ∷ []),
  has_service-append p services (names q) q,
)

elem-missing_ports :
    (p : ℕ) (wanted : List ℕ) (listed : List Service) (gs : List Given)
    → elem p wanted ≡ false
    → elem p (missing_ports wanted listed gs) ≡ false
unfolding missing_ports elem
elem-missing_ports p wanted listed [] h = refl
elem-missing_ports p wanted listed (g ∷ gs) h =
    ground (arith, h, elem-missing_ports p wanted listed gs)

module _ (inserts : PortRow → Bool) (names : ℕ → String) (user pod : String) (now min max : ℕ)
    (reserved : Option (List ℕ)) (cluster : Cluster) (wanted : List Wanted) where
  -- Nothing after the deletions gives a service to a port that is not wanted.
  fill-unwanted :
      (p : ℕ) (listed : List Service) (table : List PortRow) (services : List Service)
      → elem p (keys wanted) ≡ false
      → has_service p services ≡ false
      → has_service p
          (fill inserts names user pod now min max reserved cluster wanted listed table
            services).1.services
        ≡ false
  unfolding fill
  fill-unwanted p listed table services h k =
      create_services-other cluster.creates names p
        (missing_ports (keys wanted) listed (given_of (allocations pod table))) services
        (elem-missing_ports p (keys wanted) listed (given_of (allocations pod table)) h)
      ∙ k

  allocated-unwanted :
      (p : ℕ) (listed services : List Service) (r : Allocation × List PortRow)
      → elem p (keys wanted) ≡ false
      → has_service p services ≡ false
      → has_service p
          (allocated inserts names user pod now min max reserved cluster wanted listed services
            r).1.services
        ≡ false
  unfolding allocated
  allocated-unwanted p listed services (given gs, t) h k = fill-unwanted p listed t services h k
  allocated-unwanted p listed services (not_enough, t) h k = k
  allocated-unwanted p listed services (insert_failed, t) h k = k

  added-unwanted :
      (p : ℕ) (listed : List Service) (added : List ℕ) (table : List PortRow)
      (services : List Service)
      → elem p (keys wanted) ≡ false
      → has_service p services ≡ false
      → has_service p
          (allocate_added inserts names user pod now min max reserved cluster wanted listed added
            table services).1.services
        ≡ false
  unfolding allocate_added
  added-unwanted p listed [] table services h k = fill-unwanted p listed table services h k
  added-unwanted p listed (q ∷ qs) table services h k =
      allocated-unwanted p listed services
        (allocate_nodeports inserts user pod now min max reserved (added_wanted wanted (q ∷ qs))
          (remove_stale now cluster.grace cluster.live table))
        h k

  pub released-unwanted :
      (p : ℕ) (listed : List Service) (removed added : List ℕ) (table : List PortRow)
      (services : List Service)
      → elem p (keys wanted) ≡ false
      → has_service p services ≡ false
      → has_service p
          (released inserts names user pod now min max reserved cluster wanted listed removed added
            table services).1.services
        ≡ false
  unfolding released
  released-unwanted p listed [] added table services h k =
      added-unwanted p listed added table services h k
  released-unwanted p listed (q ∷ qs) added table services h k =
      ground
        (arith, k, added-unwanted p listed added (release_ports pod (q ∷ qs) table) services h k)
