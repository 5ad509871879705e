-- ===== src/PortChange/Added.antt =====
-- The rows after the release and the allocation of a change of ports.
use admin_infra_proposed.Base.{
  ℕ, ◌≡◌, refl, sym, ap, ◌∙◌, inl, inr, arith, Bool-cases, String, Bool, true, false, not, ◌&&◌,
  ◌||◌, Option, List, [], ◌∷◌, ◌++◌, append_nil,
}
use admin_infra_proposed.Ledger.{elem}
use admin_infra_proposed.Requests.{protected_ports, none_protected}
use admin_infra_proposed.NodePorts.{
  PortRow, Wanted, Given, Allocation, given, not_enough, insert_failed, allocate_nodeports,
  remove_stale,
}
use admin_infra_proposed.NodePorts.Rows.{internals, all_of_pod}
use admin_infra_proposed.NodePorts.Allocating.{allocated_rows}
use admin_infra_proposed.PortChange.{
  Service, Cluster, Change, changed, extra_ports, release_ports, added_wanted, fill, allocated,
  allocate_added, released,
}
use admin_infra_proposed.PortChange.Rows.{
  extras, keys-added_wanted, elem-extras-release, elem-extras-append, untouched, untouched-release,
  untouched-append, untouched_all, allocations_all, elem-extra_ports,
}
use admin_infra_proposed.PortChange.Reconciled.{
  keeps_pod, Others, same-Others, Others-trans, remove_stale-allocations, remove_stale-Others,
}
use mathlib.Core.Path.{subst}

abbrev pub is_changed : Change → Bool
is_changed (changed gs) = true
is_changed _ = false

pub not_protected :
    (p : ℕ) (ps : List ℕ)
    → none_protected ps ≡ true
    → elem p ps ≡ true
    → elem p protected_ports ≡ false
unfolding none_protected
not_protected p [] h k = ground (arith, k)
not_protected p (x ∷ ps) h k = ground (arith, h, k, not_protected p ps)

guard_free : (a b : Bool) → (a ≡ true → b ≡ false) → a && not b ≡ a
guard_free a b h = ground (arith, h)

-- The sets after `minus` in both directions.
pub exchanged : (e k : Bool) → (e && not (e && not k)) || (k && not e) ≡ k
exchanged e k = ground arith

module _ (inserts : PortRow → Bool) (names : ℕ → String) (user pod : String) (now min max : ℕ)
    (reserved : Option (List ℕ)) (cluster : Cluster) (wanted : List Wanted) where
  -- Nothing after the allocation changes the table.
  fill-table :
      (listed : List Service) (table : List PortRow) (services : List Service)
      → (fill inserts names user pod now min max reserved cluster wanted listed table
          services).1.table
        ≡ table
  unfolding fill
  fill-table listed table services = refl

  -- A table with the added rows, for ports that are not protected.
  Adds : List ℕ → List PortRow → List PortRow → Type 0
  Adds added table table' =
      ((p : ℕ) → elem p (extras pod table') ≡ elem p (extras pod table) || elem p added)
      × Others cluster.live pod table table'

  Adds-reconciled :
      (added : List ℕ) (table table' : List PortRow)
      → keeps_pod cluster.live pod ≡ true
      → Adds added (remove_stale now cluster.grace cluster.live table) table'
      → Adds added table table'
  unfolding Adds
  Adds-reconciled added table table' keeps h = (
    λ p.
        h.0 p
        ∙ ap (λ l. elem p (extra_ports l) || elem p added)
            (remove_stale-allocations now cluster.grace pod cluster.live table keeps),
    Others-trans cluster.live pod table (remove_stale now cluster.grace cluster.live table) table'
        (remove_stale-Others now cluster.grace pod cluster.live table) h.1,
  )

  rows-Adds :
      (added : List ℕ) (table rows : List PortRow)
      → internals rows ≡ added
      → all_of_pod pod rows ≡ true
      → ((p : ℕ) → elem p added ≡ true → elem p protected_ports ≡ false)
      → Adds added table (table ++ rows)
  unfolding Adds
  rows-Adds added table rows ports pods free = (
    λ p.
        elem-extras-append p pod table rows
        ∙ ap (λ l. elem p (extras pod table) || elem p (extra_ports l))
            (allocations_all pod rows pods)
        ∙ ap (λ b. elem p (extras pod table) || b)
            (elem-extra_ports p rows
              ∙ ap (λ l. elem p l && not (elem p protected_ports)) ports
              ∙ guard_free _ _ (free p)),
    same-Others cluster.live pod table (table ++ rows) (
        untouched-append pod table rows
        ∙ ap (λ l. untouched pod table ++ l)
            (untouched_all pod rows pods (λ p k. free p (ap (elem p) (sym ports) ∙ k)))
        ∙ append_nil (untouched pod table)),
  )

  allocated-Adds :
      (added : List ℕ) (listed : List Service) (table : List PortRow) (services : List Service)
      (r : Allocation × List PortRow)
      → ((gs : List Given) → r.0 ≡ given gs → Adds added table r.1)
      → is_changed
          (allocated inserts names user pod now min max reserved cluster wanted listed services r).0
        ≡ true
      → Adds added table
          (allocated inserts names user pod now min max reserved cluster wanted listed services
            r).1.table
  unfolding allocated fill
  allocated-Adds added listed table services (given gs, t) adds h = adds gs refl
  allocated-Adds added listed table services (not_enough, t) adds h = absurd (ground (arith, h))
  allocated-Adds added listed table services (insert_failed, t) adds h = absurd (ground (arith, h))

  added-Adds :
      (added : List ℕ) (listed : List Service) (table : List PortRow) (services : List Service)
      → keeps_pod cluster.live pod ≡ true
      → ((p : ℕ) → elem p added ≡ true → elem p protected_ports ≡ false)
      → is_changed
          (allocate_added inserts names user pod now min max reserved cluster wanted listed added
            table services).0
        ≡ true
      → Adds added table
          (allocate_added inserts names user pod now min max reserved cluster wanted listed added
            table services).1.table
  unfolding allocate_added fill Adds elem
  added-Adds [] listed table services keeps free h =
      (λ p. ground arith, same-Others cluster.live pod table table refl)
  added-Adds (p ∷ ps) listed table services keeps free h =
      let asked = added_wanted wanted (p ∷ ps) in
      let left = remove_stale now cluster.grace cluster.live table in
      let answer = allocate_nodeports inserts user pod now min max reserved asked left in
      allocated-Adds (p ∷ ps) listed table services answer
        (λ gs q.
          let (rows, stored, ports, pods) =
            allocated_rows inserts user pod now min max reserved asked left gs q in
          Adds-reconciled (p ∷ ps) table answer.1 keeps (
            rw stored
              (rows-Adds (p ∷ ps) left rows (ports ∙ keys-added_wanted wanted (p ∷ ps)) pods free)))
        h

  pub released-lem :
      (removed added : List ℕ) (listed : List Service) (table : List PortRow)
      (services : List Service)
      → keeps_pod cluster.live pod ≡ true
      → ((p : ℕ) → elem p removed ≡ true → elem p protected_ports ≡ false)
      → ((p : ℕ) → elem p added ≡ true → elem p protected_ports ≡ false)
      → let r =
          released inserts names user pod now min max reserved cluster wanted listed removed added
            table services in
        is_changed r.0 ≡ true
        → ((p : ℕ)
            → elem p (extras pod r.1.table)
              ≡ (elem p (extras pod table) && not (elem p removed)) || elem p added)
          × Others cluster.live pod table r.1.table
  unfolding released Adds
  released-lem [] added listed table services keeps gone free h =
      let (ports, same) = added-Adds added listed table services keeps free h in
      (λ p. ports p ∙ ground arith, same)
  released-lem (q ∷ qs) added listed table services keeps gone free h =
      elim (Bool-cases cluster.releases) [
        | inr fails ↦ absurd (ground (arith, h, fails))
        | inl works ↦
            let left = release_ports pod (q ∷ qs) table in
            let h' : is_changed
                  (allocate_added inserts names user pod now min max reserved cluster wanted listed
                    added left services).0
                ≡ true =
              ground (arith, h, works) in
            let same_table : (released inserts names user pod now min max reserved cluster wanted
                  listed (q ∷ qs) added table services).1.table
                ≡ (allocate_added inserts names user pod now min max reserved cluster wanted listed
                    added left services).1.table =
              ground (arith, works) in
            let (ports, same) = added-Adds added listed left services keeps free h' in
            (
              λ p.
                  ap (λ t. elem p (extras pod t)) same_table
                  ∙ ports p
                  ∙ ap (λ b. b || elem p added) (elem-extras-release p pod (q ∷ qs) table),
              subst (Others cluster.live pod table) (sym same_table) (
                  Others-trans cluster.live pod table left _
                    (same-Others cluster.live pod table left
                      (untouched-release pod (q ∷ qs) table gone))
                    same),
            )
      ]
