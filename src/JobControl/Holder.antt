-- ===== src/JobControl/Holder.antt =====
-- A live lease against everything that the other controllers do, in any order.
use admin_infra_proposed.Base.{
  ℕ, ◌+◌, ◌<◌, String, ◌≡◌, ◌≢◌, ◌∙◌, inl, inr, Option, none, some, List, [], ◌∷◌, arith, eq_iff,
  Option-cases,
}
use admin_infra_proposed.JobControl.{
  Row, Table, select, claim_seen, record_step, renew, renew_rows, release,
}
use admin_infra_proposed.JobControl.Rows.{select-store_ne, select-remove_ne}
use admin_infra_proposed.JobControl.Claims.{record_step_lem}

-- One statement that reaches the database. A claim carries the row that its SELECT showed.
pub data Op : Type 0 where
  claims : String → ℕ → ℕ → ℕ → Option Row → Op
  records : String → ℕ → List String → String → Op
  renews : String → ℕ → ℕ → List ℕ → Op
  releases : String → ℕ → Op

pub apply : Op → Table → Table
apply (claims owner ttl now job seen) t = (claim_seen owner ttl now job seen t).1
apply (records owner job done saved) t = (record_step owner job done saved t).1
apply (renews owner ttl now jobs) t = renew owner ttl now jobs t
apply (releases owner job) t = release owner job t

pub run : List Op → Table → Table
run [] t = t
run (op ∷ ops) t = run ops (apply op t)

-- The operation is another controller's than `o`, and its clock stands before `until`.
abbrev pub IsForeign : String → ℕ → Op → Type 0
IsForeign o until (claims owner ttl now job seen) = (owner ≢ o) × (now < until)
IsForeign o until (records owner job done saved) = owner ≢ o
IsForeign o until (renews owner ttl now jobs) = owner ≢ o
IsForeign o until (releases owner job) = owner ≢ o

abbrev pub AllForeign : String → ℕ → List Op → Type 0
AllForeign o until [] = Unit {0}
AllForeign o until (op ∷ ops) = IsForeign o until op × AllForeign o until ops

renew_rows-owner :
    (owner : String) (until job : ℕ) (jobs : List ℕ) (row : Row) (t : Table)
    → owner ≢ row.owner
    → select job t ≡ some row
    → select job (renew_rows owner until jobs t) ≡ some row
unfolding select renew_rows
renew_rows-owner owner until job jobs row [] other found = found
renew_rows-owner owner until job jobs row ((j, r) ∷ t) other found =
    ground (arith, found, eq_iff r.owner owner, renew_rows-owner owner until job jobs row t other)

renew-owner :
    (owner : String) (ttl now job : ℕ) (jobs : List ℕ) (row : Row) (t : Table)
    → owner ≢ row.owner
    → select job t ≡ some row
    → select job (renew owner ttl now jobs t) ≡ some row
unfolding renew
renew-owner owner ttl now job [] row t other found = found
renew-owner owner ttl now job (j ∷ jobs) row t other found =
    renew_rows-owner owner (now + ttl) job (j ∷ jobs) row t other found

module _ (o : String) (job : ℕ) (row : Row) (own : row.owner ≡ o) where
  -- A write that stands on any earlier reading of the table misses the row.
  claim-foreign :
      (owner : String) (ttl now job' : ℕ) (seen : Option Row) (t : Table)
      → owner ≢ o
      → now < row.lease_until
      → select job t ≡ some row
      → select job (claim_seen owner ttl now job' seen t).1 ≡ some row
  unfolding claim_seen select
  claim-foreign owner ttl now job' none t other live found = elim (Option-cases (select job' t)) [
    | inl absent ↦ ground (arith, found, absent)
    | inr (r, e) ↦ ground (arith, found, e)
  ]
  claim-foreign owner ttl now job' (some held) t other live found =
      elim (Option-cases (select job' t)) [
        | inl absent ↦ ground (arith, found, absent)
        | inr (r, e) ↦ ground (
          arith,
          found,
          e,
          own,
          eq_iff held.owner owner,
          eq_iff r.owner held.owner,
          select-store_ne job' job (record r { owner = owner; lease_until = now + ttl }) t,
        )
      ]

  apply-foreign :
      (op : Op) (t : Table)
      → IsForeign o row.lease_until op
      → select job t ≡ some row
      → select job (apply op t) ≡ some row
  unfolding apply
  apply-foreign (claims owner ttl now job' seen) t f found =
      claim-foreign owner ttl now job' seen t f.0 f.1 found
  apply-foreign (records owner job' done saved) t f found = elim (Option-cases (select job' t)) [
    | inl absent ↦ unfold record_step in ground (arith, found, absent)
    | inr (r, e) ↦ ground (
      arith,
      record_step_lem owner job' done saved r t e,
      found,
      e,
      own,
      eq_iff r.owner owner,
      select-store_ne job' job (record r { done_steps = done; saved_ctx = saved }) t,
    )
  ]
  apply-foreign (renews owner ttl now jobs) t f found =
      renew-owner owner ttl now job jobs row t (λ e. f (e ∙ own)) found
  apply-foreign (releases owner job') t f found =
      unfold release in
      ground (arith, found, own, eq_iff row.owner owner, select-remove_ne job' job t)

  -- While the lease lives, no sequence of other controllers' claims (with whatever they read
  -- before), records, renewals and releases changes the row of the job.
  pub holder_safe :
      (ops : List Op) (t : Table)
      → AllForeign o row.lease_until ops
      → select job t ≡ some row
      → select job (run ops t) ≡ some row
  unfolding run
  holder_safe [] t f found = found
  holder_safe (op ∷ ops) t f found = holder_safe ops (apply op t) f.1 (apply-foreign op t f.0 found)
