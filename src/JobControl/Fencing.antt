-- ===== src/JobControl/Fencing.antt =====
-- What a controller that lost its job can still do, and what others can do to a live lease.
use admin_infra_proposed.Base.{
  ℕ, ◌≤◌, String, ◌≡◌, ◌≢◌, refl, sym, ap, ◌∙◌, some, List, arith, eq_iff, eq_refl, eq_of_ne,
}
use admin_infra_proposed.JobControl.{
  Row, Table, select, store, won, claim_seen, claim, Recorded, lease_lost, recorded, record_step,
}
use admin_infra_proposed.JobControl.Rows.{select-store_self}
use admin_infra_proposed.JobControl.Claims.{record_step_lem, claim_progress}

module _ (o o' : String) (ttl now job : ℕ) (done : List String) (saved : String) (row : Row)
    (t : Table) (found : select job t ≡ some row) (other : o ≢ o') where
  written : Row
  written = record row { done_steps = done; saved_ctx = saved }

  record_step_own : row.owner ≡ o → record_step o job done saved t ≡ (recorded, store job written t)
  unfolding written
  record_step_own own = record_step_lem o job done saved row t found ∙ rw (own, eq_refl o)

  own_of_recorded : (record_step o job done saved t).0 ≡ recorded → row.owner ≡ o
  own_of_recorded r =
      ground (arith, r, record_step_lem o job done saved row t found, eq_iff row.owner o)

  select-written : select job (store job written t) ≡ some written
  select-written = select-store_self job written row t found

  -- Once another controller has won the job, its old owner's record is refused and changes nothing.
  pub record_step_after_takeover :
      {done' : List String} {saved' : String}
      → (claim o' ttl now job t).0 ≡ won done' saved'
      → record_step o job done saved (claim o' ttl now job t).1
        ≡ (lease_lost, (claim o' ttl now job t).1)
  record_step_after_takeover w =
      let found' = (claim_progress o' ttl now job row t found w).2 in
      record_step_lem o job done saved _ _ found' ∙ rw (eq_of_ne o' o (λ e. other (sym e)))

  -- A controller that takes the job over resumes from the last progress that its owner recorded.
  pub handover :
      {done' : List String} {saved' : String}
      → (record_step o job done saved t).0 ≡ recorded
      → (claim o' ttl now job (record_step o job done saved t).1).0 ≡ won done' saved'
      → (done' ≡ done) × (saved' ≡ saved)
  unfolding written
  handover r w =
      let stored = record_step_own (own_of_recorded r) in
      let p =
        claim_progress o' ttl now job written (store job written t) select-written
          (rw (ap (λ (x : Recorded × Table). (claim o' ttl now job x.1).0) stored) at w) in
      (p.0, p.1)

  -- But a record that arrives between the SELECT and the UPDATE of a take-over of an expired
  -- lease is accepted, and the new owner resumes from the progress before it.
  pub handover_race :
      row.owner ≡ o
      → row.lease_until ≤ now
      → ((record_step o job done saved t).0 ≡ recorded)
        × ((claim_seen o' ttl now job (select job t) (record_step o job done saved t).1).0
            ≡ won row.done_steps row.saved_ctx)
  unfolding claim_seen written
  handover_race own expired = rw (record_step_own own) (
    refl,
    ground
        (arith, found, select-written, eq_refl row.owner, eq_iff row.owner o, eq_iff row.owner o'),
  )
