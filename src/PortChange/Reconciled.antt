-- ===== src/PortChange/Reconciled.antt =====
-- What the reconciliation inside an allocation leaves of the rows.
use admin_infra_proposed.Base.{
  ℕ, ◌≡◌, refl, sym, ap, ◌∙◌, inl, inr, Bool-cases, arith, String, true, Bool, Option, none, some,
  List, [], ◌∷◌, if◌then◌else◌, contains, ◌==◌, eq_iff,
}
use admin_infra_proposed.Ledger.{elem}
use admin_infra_proposed.NodePorts.{PortRow, ports_of, keep_live, remove_stale}
use admin_infra_proposed.PortChange.{allocations}
use admin_infra_proposed.PortChange.Rows.{untouched}

-- The pod has a Service when the reconciliation lists them, if it does.
unfoldable pub keeps_pod : Option (List String) → String → Bool
keeps_pod none pod = true
keeps_pod (some live) pod = contains pod live

-- The rows of the pods that have a Service then.
unfoldable pub live_rows : List String → List PortRow → List PortRow
live_rows live [] = []
live_rows live (r ∷ rows) =
    let rest = live_rows live rows in if contains r.pod_name live then r ∷ rest else rest

abbrev pub rows_kept : Option (List String) → List PortRow → List PortRow
rows_kept none rows = rows
rows_kept (some live) rows = live_rows live rows

-- Of the rows of other pods and of protected ports, those of pods that have a Service are as before,
-- or all of them where nothing is reconciled; and none is new.
abbrev pub Others : Option (List String) → String → List PortRow → List PortRow → Type 0
Others live pod table table' =
    (rows_kept live (untouched pod table') ≡ rows_kept live (untouched pod table))
    × ((p : ℕ)
        → elem p (ports_of (untouched pod table')) ≡ true
        → elem p (ports_of (untouched pod table)) ≡ true)

pub same-Others :
    (live : Option (List String)) (pod : String) (table table' : List PortRow)
    → untouched pod table' ≡ untouched pod table
    → Others live pod table table'
same-Others live pod table table' h =
    (ap (rows_kept live) h, λ p k. ap (λ l. elem p (ports_of l)) (sym h) ∙ k)

pub Others-trans :
    (live : Option (List String)) (pod : String) (table table' table'' : List PortRow)
    → Others live pod table table'
    → Others live pod table' table''
    → Others live pod table table''
Others-trans live pod table table' table'' h k = (k.0 ∙ h.0, λ p q. h.1 p (k.1 p q))

module _ (now grace : ℕ) (pod : String) where
  keep_live-allocations :
      (live : List String) (all rows : List PortRow)
      → contains pod live ≡ true
      → allocations pod (keep_live now grace live all rows) ≡ allocations pod rows
  unfolding allocations keep_live
  keep_live-allocations live all [] h = refl
  keep_live-allocations live all (r ∷ rows) h = elim (Bool-cases (r.pod_name == pod)) [
    | inl mine ↦
        let there : contains r.pod_name live ≡ true =
          ap (λ n. contains n live) ((eq_iff r.pod_name pod).0 mine) ∙ h in
        ground (arith, mine, there, keep_live-allocations live all rows h)
    | inr other ↦ ground (arith, other, keep_live-allocations live all rows h)
  ]

  keep_live-rows :
      (live : List String) (all rows : List PortRow)
      → live_rows live (untouched pod (keep_live now grace live all rows))
        ≡ live_rows live (untouched pod rows)
  unfolding untouched keep_live live_rows
  keep_live-rows live all [] = refl
  keep_live-rows live all (r ∷ rows) = ground (arith, keep_live-rows live all rows)

  keep_live-old :
      (live : List String) (all rows : List PortRow) (p : ℕ)
      → elem p (ports_of (untouched pod (keep_live now grace live all rows))) ≡ true
      → elem p (ports_of (untouched pod rows)) ≡ true
  unfolding untouched keep_live ports_of elem
  keep_live-old live all [] p h = h
  keep_live-old live all (r ∷ rows) p h = ground (arith, h, keep_live-old live all rows p)

  pub remove_stale-allocations :
      (live : Option (List String)) (table : List PortRow)
      → keeps_pod live pod ≡ true
      → allocations pod (remove_stale now grace live table) ≡ allocations pod table
  unfolding keeps_pod remove_stale
  remove_stale-allocations none table h = refl
  remove_stale-allocations (some live) table h = keep_live-allocations live table table h

  pub remove_stale-Others :
      (live : Option (List String)) (table : List PortRow)
      → Others live pod table (remove_stale now grace live table)
  unfolding remove_stale
  remove_stale-Others none table = (refl, λ p h. h)
  remove_stale-Others (some live) table =
      (keep_live-rows live table table, λ p h. keep_live-old live table table p h)
