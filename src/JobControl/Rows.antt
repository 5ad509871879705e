-- ===== src/JobControl/Rows.antt =====
-- The statements on one row: what a SELECT shows after each of them.
use admin_infra_proposed.Base.{ℕ, ◌≡◌, ◌≢◌, refl, none, some, [], ◌∷◌, arith}
use admin_infra_proposed.JobControl.{Row, Table, select, store, remove}

-- No job has two rows, as the primary key demands.
abbrev pub IsValid : Table → Type 0
IsValid [] = Unit {0}
IsValid ((j, r) ∷ t) = (select j t ≡ none) × IsValid t

pub select-store_self :
    (job : ℕ) (r old : Row) (t : Table)
    → select job t ≡ some old
    → select job (store job r t) ≡ some r
unfolding select store
select-store_self job r old [] h = cc
select-store_self job r old ((j, s) ∷ t) h = ground (arith, select-store_self job r old t)

pub select-store_ne :
    (job k : ℕ) (r : Row) (t : Table) → k ≢ job → select k (store job r t) ≡ select k t
unfolding select store
select-store_ne job k r [] h = refl
select-store_ne job k r ((j, s) ∷ t) h = ground (arith, select-store_ne job k r t)

pub select-remove_ne : (job k : ℕ) (t : Table) → k ≢ job → select k (remove job t) ≡ select k t
unfolding select remove
select-remove_ne job k [] h = refl
select-remove_ne job k ((j, s) ∷ t) h = ground (arith, select-remove_ne job k t)

pub select-remove_self : (job : ℕ) (t : Table) → IsValid t → select job (remove job t) ≡ none
unfolding select remove
select-remove_self job [] v = refl
select-remove_self job ((j, s) ∷ t) v = ground (arith, select-remove_self job t v.1)
