-- ===== src/NodePorts/Allocating.antt =====
-- What `allocate_nodeports` gives out, and what `release_nodeports` takes back.
use admin_infra_proposed.Base.{
  append_nil, some_inj, ℕ, ◌+◌, ◌-◌, ◌≤◌, String, ◌≡◌, refl, Bool, true, false, some, List, [], ◌∷◌,
  ◌++◌, arith, eq_refl, ap, sym, none, Option, ◌∙◌, Option-cases, inl, inr,
}
use admin_infra_proposed.Ledger.{elem}
use admin_infra_proposed.NodePorts.{
  PortRow, Wanted, Given, ports_of, release_nodeports, available, given, assign, with_port, row_of,
  commit, allocate_nodeports, keys,
}
use admin_infra_proposed.NodePorts.Rows.{
  elem-available, distinct_ports, available-distinct, externals, Answers, ports_of-append,
  distinct_ports-append, release-append, in_range, internals, all_of_pod,
}

module _ (inserts : PortRow → Bool) (user pod : String) (now : ℕ) where
  assign_lem :
      (ws : List Wanted) (free : List ℕ) (rows : List PortRow) (gs : List Given)
      → assign inserts user pod now ws free ≡ some (rows, gs)
      → Answers ws gs
        × (ports_of rows ≡ externals gs)
        × ((p : ℕ) → elem p (externals gs) ≡ true → elem p free ≡ true)
        × (distinct_ports free ≡ true → distinct_ports (externals gs) ≡ true)
        × (release_nodeports pod rows ≡ [])
  unfolding assign with_port row_of Answers ports_of externals elem distinct_ports release_nodeports
  assign_lem [] free rows gs h = rows_none rows gs (ground (arith, h)) (ground (arith, h))
    where
      rows_none :
          (rows : List PortRow) (gs : List Given)
          → rows ≡ []
          → gs ≡ []
          → Answers [] gs
            × (ports_of rows ≡ externals gs)
            × ((p : ℕ) → elem p (externals gs) ≡ true → elem p free ≡ true)
            × (distinct_ports free ≡ true → distinct_ports (externals gs) ≡ true)
            × (release_nodeports pod rows ≡ [])
      rows_none [] [] p q = (tt, refl, λ n k. ground (arith, k), λ k. refl, refl)
      rows_none [] (g ∷ gs) p q = ground (arith, q)
      rows_none (r ∷ rows) gs p q = ground (arith, p)
  assign_lem (w ∷ ws) [] rows gs h = ground (arith, h)
  assign_lem (w ∷ ws) (p ∷ free) [] gs h =
      elim (Option-cases (assign inserts user pod now ws free)) [
        | inl broken ↦ ground (arith, broken, h)
        | inr (rest, done) ↦ ground (arith, done, h)
      ]
  assign_lem (w ∷ ws) (p ∷ free) (r ∷ rows) [] h =
      elim (Option-cases (assign inserts user pod now ws free)) [
        | inl broken ↦ ground (arith, broken, h)
        | inr (rest, done) ↦ ground (arith, done, h)
      ]
  assign_lem (w ∷ ws) (p ∷ free) (r ∷ rows) (g ∷ gs) h =
      elim (Option-cases (assign inserts user pod now ws free)) [
        | inl broken ↦ ground (arith, broken, h)
        | inr (rest, done) ↦
            let (answers, ports, inside, distinct, released) =
              assign_lem ws free rows gs (ground (arith, done, h)) in
            (
              (ground (arith, done, h), answers),
              ground (arith, done, h, ports),
              λ n k. ground (arith, done, h, k, inside n),
              λ k. ground (arith, done, h, k, distinct, inside p),
              ground (arith, done, h, released, eq_refl pod),
            )
      ]

  given_rows :
      (min max : ℕ) (reserved : List ℕ) (wanted : List Wanted) (table : List PortRow)
      (gs : List Given)
      → (allocate_nodeports inserts user pod now min max (some reserved) wanted table).0 ≡ given gs
      → (rows : List PortRow) × (assign inserts user pod now wanted
            (available (ports_of table ++ reserved) (max + 1 - min) min)
          ≡ some (rows, gs))
        × ((allocate_nodeports inserts user pod now min max (some reserved) wanted table).1
            ≡ table ++ rows)
  unfolding allocate_nodeports commit
  given_rows min max reserved wanted table gs h =
      elim (Option-cases (
        assign inserts user pod now wanted
          (available (ports_of table ++ reserved) (max + 1 - min) min))) [
            | inl broken ↦ ground (arith, broken, h)
            | inr ((rows, gs'), done) ↦ (rows, ground (arith, done, h), ground (arith, done, h))
          ]

  -- Where the ports that the cluster reserves could be read and the ports are given, they answer the requests in order, they differ, each stands in the
  -- range and is neither in the table nor reserved; so the table's node ports still differ. What is
  -- released for a pod that had no rows gives the table back.
  pub allocate_nodeports_lem :
      (min max : ℕ) (reserved : List ℕ) (wanted : List Wanted) (table : List PortRow)
      (gs : List Given)
      → (allocate_nodeports inserts user pod now min max (some reserved) wanted table).0 ≡ given gs
      → let table' =
          (allocate_nodeports inserts user pod now min max (some reserved) wanted table).1 in
        Answers wanted gs
        × (distinct_ports (externals gs) ≡ true)
        × ((p : ℕ)
            → elem p (externals gs) ≡ true
            → (min ≤ p) × (p ≤ max) × (elem p (ports_of table) ≡ false) × (elem p reserved ≡ false))
        × (distinct_ports (ports_of table) ≡ true → distinct_ports (ports_of table') ≡ true)
        × (release_nodeports pod table ≡ table → release_nodeports pod table' ≡ table)
  allocate_nodeports_lem min max reserved wanted table gs h =
      let used = ports_of table ++ reserved in
      let free = available used (max + 1 - min) min in
      let (rows, done, stored) = given_rows min max reserved wanted table gs h in
      let (answers, ports, inside, distinct, released) = assign_lem wanted free rows gs done in
      let differ = distinct (available-distinct used (max + 1 - min) min) in
      let bounds : (p : ℕ)
          → elem p (externals gs) ≡ true
          → (min ≤ p) × (p ≤ max) × (elem p (ports_of table) ≡ false) × (elem p reserved ≡ false) =
        λ p k.
          in_range p min max (ports_of table) reserved
            (elem-available p used (max + 1 - min) min (inside p k)) in
      (
        answers,
        differ,
        bounds,
        λ k. rw stored (
            rw (ports_of-append table rows) (
              rw ports (
                distinct_ports-append (ports_of table) (externals gs) k differ
                  (λ p q. (bounds p q).2)))),
        λ k. rw stored (release-append pod table rows ∙ rw released (append_nil _) ∙ k),
      )

  assign_rows :
      (ws : List Wanted) (free : List ℕ) (r : List PortRow × List Given)
      → assign inserts user pod now ws free ≡ some r
      → (internals r.0 ≡ keys ws) × (all_of_pod pod r.0 ≡ true)
  unfolding assign with_port row_of internals keys all_of_pod
  assign_rows [] free r h =
      (ap (λ x. internals x.0) (sym (some_inj h)), ap (λ x. all_of_pod pod x.0) (sym (some_inj h)))
  assign_rows (w ∷ ws) [] r h = absurd (ground (arith, h))
  assign_rows (w ∷ ws) (p ∷ free) (rows, gs) h =
      elim (Option-cases (assign inserts user pod now ws free)) [
        | inl broken ↦ absurd (ground (arith, broken, h))
        | inr (rest, done) ↦
            let (ports, pods) = assign_rows ws free rest done in
            let same : rows ≡ row_of inserts user pod now w p ∷ rest.0 = ground (arith, done, h) in
            (
              ap internals same ∙ ap (λ l. w.internal_port ∷ l) ports,
              ap (all_of_pod pod) same ∙ ground (arith, pods, eq_refl pod),
            )
      ]

  -- The rows that an allocation adds are the pod's, for the ports that were asked for.
  pub allocated_rows :
      (min max : ℕ) (reserved : Option (List ℕ)) (wanted : List Wanted) (table : List PortRow)
      (gs : List Given)
      → (allocate_nodeports inserts user pod now min max reserved wanted table).0 ≡ given gs
      → (rows : List PortRow) × ((allocate_nodeports inserts user pod now min max reserved wanted
            table).1
          ≡ table ++ rows)
        × (internals rows ≡ keys wanted)
        × (all_of_pod pod rows ≡ true)
  unfolding allocate_nodeports commit
  allocated_rows min max reserved wanted table gs h =
      let used = ports_of table ++ elim reserved [ none ↦ [] | some ports ↦ ports ] in
      let free = available used (max + 1 - min) min in
      elim (Option-cases (assign inserts user pod now wanted free)) [
        | inl broken ↦ absurd (ground (arith, broken, h))
        | inr ((rows, gs'), done) ↦
            let (ports, pods) = assign_rows wanted free (rows, gs') done in
            (rows, ground (arith, done, h), ports, pods)
      ]
