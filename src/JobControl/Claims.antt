-- ===== src/JobControl/Claims.antt =====
-- Who gets a job: what `claim` returns, and what two controllers can do to one another.
use admin_infra_proposed.Base.{
  ℕ, ◌+◌, ◌<◌, String, ◌≡◌, ◌≢◌, inl, inr, some, List, arith, eq_iff, ◌==◌, eq_refl, eq_of_ne,
  Option-cases, if◌then◌else◌,
}
use admin_infra_proposed.JobControl.{
  Row, Table, select, store, won, refused, recorded, lease_lost, record_step, claim_seen, claim,
}
use admin_infra_proposed.JobControl.Rows.{select-store_self}

-- A job under another controller's live lease is not handed out, and the table stays.
pub claim_live :
    (owner : String) (ttl now job : ℕ) (row : Row) (t : Table)
    → select job t ≡ some row
    → row.owner ≢ owner
    → now < row.lease_until
    → claim owner ttl now job t ≡ (refused, t)
unfolding claim
claim_live owner ttl now job row t found other live =
    rw found (ground (arith, eq_of_ne row.owner owner))

-- A claim that wins a job that has a row gives back exactly the progress of that row, and leaves
-- the row with its progress under the new owner and a lease of `ttl`.
pub claim_progress :
    (owner : String) (ttl now job : ℕ) (row : Row) (t : Table) {done : List String} {saved : String}
    → select job t ≡ some row
    → (claim owner ttl now job t).0 ≡ won done saved
    → (done ≡ row.done_steps)
      × (saved ≡ row.saved_ctx)
      × (select job (claim owner ttl now job t).1
          ≡ some (record row { owner = owner; lease_until = now + ttl }))
unfolding claim
claim_progress owner ttl now job row t found w = ground (
  arith,
  found,
  eq_refl row.owner,
  select-store_self job (record row { owner = owner; lease_until = now + ttl }) row t,
)

-- Of two controllers that read the same table, at most one wins, whichever write arrives first:
-- the later one finds another owner or lease than it read, or a row that was not there.
pub race_one_winner :
    (job : ℕ) (t : Table) (o o' : String) (ttl now ttl' now' : ℕ) {done done' : List String}
    {saved saved' : String}
    → (claim_seen o ttl now job (select job t) t).0 ≡ won done saved
    → (claim_seen o' ttl' now' job (select job t) (claim_seen o ttl now job (select job t) t).1).0
      ≢ won done' saved'
unfolding claim_seen select
race_one_winner job t o o' ttl now ttl' now' first second = elim (Option-cases (select job t)) [
  | inl absent ↦ ground (arith, absent)
  | inr (row, found) ↦ ground (
    arith,
    found,
    eq_iff row.owner o,
    eq_iff o row.owner,
    eq_refl row.owner,
    select-store_self job (record row { owner = o; lease_until = now + ttl }) row t,
  )
]

-- A controller that still finds its own row in the table records its progress, also where the
-- row already holds it; any other controller is told that the job is lost and changes nothing.
pub record_step_lem :
    (owner : String) (job : ℕ) (done : List String) (saved : String) (row : Row) (t : Table)
    → select job t ≡ some row
    → record_step owner job done saved t ≡ (
        if row.owner == owner
        then (recorded, store job (record row { done_steps = done; saved_ctx = saved }) t)
        else (lease_lost, t))
unfolding record_step
record_step_lem owner job done saved row t found = ground (
  arith,
  found,
  select-store_self job (record row { done_steps = done; saved_ctx = saved }) row t,
)
