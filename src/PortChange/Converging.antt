-- ===== src/PortChange/Converging.antt =====
-- What a change of ports that succeeds leaves, and that a second one changes nothing.
use admin_infra_proposed.Base.{
  ℕ, ◌≡◌, refl, sym, ap, ◌∙◌, inl, inr, arith, Bool-cases, String, Bool, true, false, not, ◌&&◌,
  ◌||◌, Option, List, [], ◌∷◌,
}
use admin_infra_proposed.Ledger.{elem}
use admin_infra_proposed.Requests.{none_protected}
use admin_infra_proposed.NodePorts.{keys, PortRow, Wanted}
use admin_infra_proposed.PortChange.{
  Service, Cluster, State, PodRead, found, missing, deleting, read_raised, allocations, minus,
  has_service, delete_ports, step_change_ports, fill, allocate_added, released, change, checked,
  read, other_owner,
}
use admin_infra_proposed.PortChange.Rows.{extras, elem-minus, minus_covered, extra_not_protected}
use admin_infra_proposed.PortChange.Services.{
  services_of-covered, has_service-covered, delete_ports_all,
}
use admin_infra_proposed.PortChange.Added.{is_changed, not_protected, exchanged, released-lem}
use admin_infra_proposed.PortChange.Unwanted.{released-unwanted}
use admin_infra_proposed.PortChange.Reconciled.{keeps_pod, Others}
use mathlib.Core.Path.{subst}

-- The pod has the wanted extra ports, and what was there besides them is as before, but for what the
-- reconciliation takes.
abbrev pub Reached : Option (List String) → String → List Wanted → State → State → Type 0
Reached live pod wanted s s' =
    ((p : ℕ) → elem p (extras pod s'.table) ≡ elem p (keys wanted))
    × Others live pod s.table s'.table
    × ((p : ℕ)
        → elem p (extras pod s.table) ≡ true
        → elem p (keys wanted) ≡ false
        → has_service p s'.services ≡ false)

module _ (inserts : PortRow → Bool) (names : ℕ → String) (user pod : String) (now min max : ℕ)
    (reserved : Option (List ℕ)) (cluster : Cluster) (wanted : List Wanted) where
  -- The change got past the deletions.
  change_past :
      (s : State)
      → is_changed (change inserts names user pod now min max reserved cluster wanted s).0 ≡ true
      → let extra = extras pod s.table in
        let removed = minus extra (keys wanted) in
        let deletions = delete_ports cluster.deletes s.services removed s.services in
        (deletions.0 ≡ true)
        × (change inserts names user pod now min max reserved cluster wanted s
            ≡ released inserts names user pod now min max reserved cluster wanted s.services removed
                (minus (keys wanted) extra)
                s.table
                deletions.1)
  unfolding change
  change_past s h =
      let deletions =
        delete_ports cluster.deletes s.services (minus (extras pod s.table) (keys wanted))
          s.services in
      elim (Bool-cases cluster.lists) [
        | inr fails ↦ absurd (ground (arith, h, fails))
        | inl works ↦ elim (Bool-cases deletions.0) [
          | inr stops ↦ absurd (ground (arith, h, works, stops))
          | inl done ↦ (done, ground (arith, works, done))
        ]
      ]

  change-Reached :
      (s : State)
      → keeps_pod cluster.live pod ≡ true
      → none_protected (keys wanted) ≡ true
      → is_changed (change inserts names user pod now min max reserved cluster wanted s).0 ≡ true
      → Reached cluster.live pod wanted s
          (change inserts names user pod now min max reserved cluster wanted s).1
  change-Reached s keeps free h =
      let extra = extras pod s.table in
      let removed = minus extra (keys wanted) in
      let added = minus (keys wanted) extra in
      let deletions = delete_ports cluster.deletes s.services removed s.services in
      let (done, same) = change_past s h in
      let (ports, kept) =
        released-lem inserts names user pod now min max reserved cluster wanted removed added
          s.services s.table deletions.1 keeps
          (λ p k.
            extra_not_protected p (allocations pod s.table)
              (ground (arith, k, elem-minus p extra (keys wanted))))
          (λ p k.
            not_protected p (keys wanted) free
              (ground (arith, k, elem-minus p (keys wanted) extra)))
          (ap (λ r. is_changed r.0) (sym same) ∙ h) in
      (
        λ p.
            ap (λ r. elem p (extras pod r.1.table)) same
            ∙ ports p
            ∙ ap (λ b. (elem p extra && not b) || elem p added) (elem-minus p extra (keys wanted))
            ∙ ap (λ b. (elem p extra && not (elem p extra && not (elem p (keys wanted)))) || b)
                (elem-minus p (keys wanted) extra)
            ∙ exchanged (elem p extra) (elem p (keys wanted)),
        subst (λ r. Others cluster.live pod s.table r.1.table) (sym same) kept,
        λ p k u.
            ap (λ r. has_service p r.1.services) same
            ∙ released-unwanted inserts names user pod now min max reserved cluster wanted p
                s.services removed added s.table deletions.1 u
                (has_service-covered p deletions.1 (
                  delete_ports_all cluster.deletes s.services p removed s.services
                    (services_of-covered p s.services) done
                    (elem-minus p extra (keys wanted) ∙ ground (arith, k, u)))),
      )

  checked_past :
      (rows : List PortRow) (s : State)
      → is_changed (checked inserts names user pod now min max reserved cluster wanted rows s).0
        ≡ true
      → checked inserts names user pod now min max reserved cluster wanted rows s
        ≡ change inserts names user pod now min max reserved cluster wanted s
  unfolding checked
  checked_past [] s h = absurd (ground (arith, h))
  checked_past (r ∷ rows) s h = elim (Bool-cases (other_owner user (r ∷ rows))) [
    | inl other ↦ absurd (ground (arith, h, other))
    | inr own ↦ ground (arith, own)
  ]

  read_past :
      (pod_read : PodRead) (s : State)
      → is_changed (read inserts names user pod now min max reserved cluster wanted pod_read s).0
        ≡ true
      → read inserts names user pod now min max reserved cluster wanted pod_read s
        ≡ change inserts names user pod now min max reserved cluster wanted s
  unfolding read
  read_past found s h = checked_past (allocations pod s.table) s h
  read_past missing s h = absurd (ground (arith, h))
  read_past deleting s h = absurd (ground (arith, h))
  read_past read_raised s h = absurd (ground (arith, h))

  -- A change of ports that succeeds leaves the pod with exactly the wanted ports besides the
  -- protected ones, if no protected port is wanted and the pod still has a Service whenever the
  -- allocation reconciles the table. A port that was taken away has no service any more. Of the rows
  -- of other pods and of protected ports none is new, and they are as before, apart from those of
  -- pods without a Service, which a reconciliation may take.
  pub step_change_ports_lem :
      (s : State)
      → keeps_pod cluster.live pod ≡ true
      → none_protected (keys wanted) ≡ true
      → is_changed
          (step_change_ports inserts names user pod now min max reserved cluster wanted s).0
        ≡ true
      → Reached cluster.live pod wanted s
          (step_change_ports inserts names user pod now min max reserved cluster wanted s).1
  unfolding step_change_ports
  step_change_ports_lem s keeps free h =
      let same = read_past cluster.pod s h in
      subst (λ r. Reached cluster.live pod wanted s r.1) (sym same)
        (change-Reached s keeps free (ap (λ r. is_changed r.0) (sym same) ∙ h))

  released-table :
      (removed added : List ℕ) (listed : List Service) (table : List PortRow)
      (services : List Service)
      → removed ≡ []
      → added ≡ []
      → (released inserts names user pod now min max reserved cluster wanted listed removed added
          table services).1.table
        ≡ table
  unfolding released allocate_added fill
  released-table removed added listed table services p q =
      ap
        (λ r.
          (released inserts names user pod now min max reserved cluster wanted listed r added table
            services).1.table)
        p
      ∙ ap
          (λ a.
            (released inserts names user pod now min max reserved cluster wanted listed [] a table
              services).1.table)
          q

  change_settled :
      (s : State)
      → ((p : ℕ) → elem p (extras pod s.table) ≡ elem p (keys wanted))
      → (change inserts names user pod now min max reserved cluster wanted s).1.table ≡ s.table
  unfolding change
  change_settled s reached =
      let extra = extras pod s.table in
      let removed = minus extra (keys wanted) in
      let deletions = delete_ports cluster.deletes s.services removed s.services in
      let nothing =
        released-table removed (minus (keys wanted) extra) s.services s.table deletions.1
          (minus_covered extra (keys wanted) (λ p k. sym (reached p) ∙ k))
          (minus_covered (keys wanted) extra (λ p k. reached p ∙ k)) in
      ground (arith, nothing)

  checked_settled :
      (rows : List PortRow) (s : State)
      → ((p : ℕ) → elem p (extras pod s.table) ≡ elem p (keys wanted))
      → (checked inserts names user pod now min max reserved cluster wanted rows s).1.table
        ≡ s.table
  unfolding checked
  checked_settled [] s reached = refl
  checked_settled (r ∷ rows) s reached = ground (arith, change_settled s reached)

  read_settled :
      (pod_read : PodRead) (s : State)
      → ((p : ℕ) → elem p (extras pod s.table) ≡ elem p (keys wanted))
      → (read inserts names user pod now min max reserved cluster wanted pod_read s).1.table
        ≡ s.table
  unfolding read
  read_settled found s reached = checked_settled (allocations pod s.table) s reached
  read_settled missing s reached = refl
  read_settled deleting s reached = refl
  read_settled read_raised s reached = refl

  step_settled :
      (s : State)
      → ((p : ℕ) → elem p (extras pod s.table) ≡ elem p (keys wanted))
      → (step_change_ports inserts names user pod now min max reserved cluster wanted s).1.table
        ≡ s.table
  unfolding step_change_ports
  step_settled s reached = read_settled cluster.pod s reached

-- After a change of ports that succeeded and whose reconciliation did not take the pod's rows, a
-- repetition for the same ports leaves the table as it
-- is, whatever the cluster and the database answer then.
pub again_settled :
    (inserts inserts' : PortRow → Bool) (names names' : ℕ → String) (user pod : String)
    (now now' min max : ℕ) (reserved reserved' : Option (List ℕ)) (cluster cluster' : Cluster)
    (wanted : List Wanted) (s : State)
    → keeps_pod cluster.live pod ≡ true
    → none_protected (keys wanted) ≡ true
    → is_changed (step_change_ports inserts names user pod now min max reserved cluster wanted s).0
      ≡ true
    → let s' = (step_change_ports inserts names user pod now min max reserved cluster wanted s).1 in
      (step_change_ports inserts' names' user pod now' min max reserved' cluster' wanted s').1.table
      ≡ s'.table
again_settled inserts inserts' names names' user pod now now' min max reserved reserved' cluster
      cluster' wanted s keeps free h =
    step_settled inserts' names' user pod now' min max reserved' cluster' wanted
      (step_change_ports inserts names user pod now min max reserved cluster wanted s).1
      (step_change_ports_lem inserts names user pod now min max reserved cluster wanted s keeps free
        h).0
