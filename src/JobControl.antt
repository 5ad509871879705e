-- ===== src/JobControl.antt =====
-- config-server/adapters/job_control.py: the lease and the progress record of a job.
--
-- The table `job_control` of infra-sql/operation_log.sql is an association list from its primary
-- key. Times are numbers of ticks; the JSON texts of `done_steps` and `saved_ctx` are the list of
-- names and an opaque text. `UPDATE` counts the rows that it changed, as MySQL does for this client.
pub mod Rows
pub mod Claims
pub mod Fencing
pub mod Holder
mod Tests
use admin_infra_proposed.Base.{
  ℕ, ◌+◌, String, Bool, true, false, not, ◌&&◌, Option, none, some, List, [], ◌∷◌, ltb, ◌=ℕ◌, ◌==◌,
  if◌then◌else◌,
}

-- A row, without its key `job_id`.
pub record Row : Type 0 where
  pub owner : String
  pub lease_until : ℕ
  pub done_steps : List String
  pub saved_ctx : String

abbrev pub Table : Type 0
Table = List (ℕ × Row)

-- SELECT ... WHERE job_id=%s
unfoldable pub select : ℕ → Table → Option Row
select job [] = none
select job ((j, r) ∷ t) = if j =ℕ job then some r else select job t

-- the columns of the row of `job` after `UPDATE ... WHERE job_id=%s`
pub store : ℕ → Row → Table → Table
store job r [] = []
store job r ((j, s) ∷ t) = if j =ℕ job then (j, r) ∷ t else (j, s) ∷ store job r t

-- DELETE ... WHERE job_id=%s, for a key that stands once
pub remove : ℕ → Table → Table
remove job [] = []
remove job ((j, s) ∷ t) = if j =ℕ job then t else (j, s) ∷ remove job t

-- What `claim` returns or raises.
pub data Claim : Type 0 where
  won : List String → String → Claim
  refused : Claim
  duplicate_key : Claim

-- What the SELECT of `claim` shows, and what is done next.
pub data Decision : Type 0 where
  insert_row : Decision
  give_up : Decision
  take_over : Row → Decision

pub decide_claim : String → ℕ → Option Row → Decision
decide_claim owner now none = insert_row
decide_claim owner now (some row) =
    if not (row.owner == owner) && ltb now row.lease_until then give_up else take_over row

-- INSERT: a second row for a job breaks the primary key.
pub insert_claim : String → ℕ → ℕ → ℕ → Option Row → Table → Claim × Table
insert_claim owner ttl now job (some _) t = (duplicate_key, t)
insert_claim owner ttl now job none t = (
  won [] "{}",
  (job, record { owner = owner; lease_until = now + ttl; done_steps = []; saved_ctx = "{}" }) ∷ t,
)

-- UPDATE ... WHERE job_id, owner and lease_until are those of the row that was read.
pub update_claim : String → ℕ → ℕ → ℕ → Row → Option Row → Table → Claim × Table
update_claim owner ttl now job held none t = (refused, t)
update_claim owner ttl now job held (some row) t =
    if row.owner == held.owner && row.lease_until =ℕ held.lease_until
    then (
      if row.owner == owner && row.lease_until =ℕ now + ttl
          then refused
          else won held.done_steps held.saved_ctx,
      store job (record row { owner = owner; lease_until = now + ttl }) t,
    )
    else (refused, t)

-- The second half of `claim`, on the table as it stands when the write arrives.
pub write_claim : String → ℕ → ℕ → ℕ → Decision → Table → Claim × Table
unfolding insert_claim update_claim select store
write_claim owner ttl now job give_up t = (refused, t)
write_claim owner ttl now job insert_row t = insert_claim owner ttl now job (select job t) t
write_claim owner ttl now job (take_over held) t =
    update_claim owner ttl now job held (select job t) t

-- `claim` by a controller whose SELECT showed `seen`, with its write on the table `t`.
unfoldable pub claim_seen : String → ℕ → ℕ → ℕ → Option Row → Table → Claim × Table
unfolding decide_claim write_claim
claim_seen owner ttl now job seen t = write_claim owner ttl now job (decide_claim owner now seen) t

-- `claim`, with nothing between its two halves.
unfoldable pub claim : String → ℕ → ℕ → ℕ → Table → Claim × Table
unfolding claim_seen select
claim owner ttl now job t = claim_seen owner ttl now job (select job t) t

pub data Recorded : Type 0 where
  recorded lease_lost : Recorded

pub same_names : List String → List String → Bool
same_names [] [] = true
same_names (x ∷ xs) (y ∷ ys) = x == y && same_names xs ys
same_names _ _ = false

-- UPDATE ... WHERE job_id and owner: whether a row was changed, and the table. A row that held
-- the same values is not counted.
pub update_progress : String → ℕ → List String → String → Option Row → Table → Bool × Table
unfolding same_names store
update_progress owner job done saved none t = (false, t)
update_progress owner job done saved (some row) t =
    if row.owner == owner
    then (
      not (same_names row.done_steps done && row.saved_ctx == saved),
      store job (record row { done_steps = done; saved_ctx = saved }) t,
    )
    else (false, t)

-- `row is None or row[0] != owner`, after an UPDATE that changed no row
pub is_lost : String → Option Row → Recorded
is_lost owner none = lease_lost
is_lost owner (some row) = if row.owner == owner then recorded else lease_lost

unfoldable pub record_step : String → ℕ → List String → String → Table → Recorded × Table
unfolding update_progress is_lost select
record_step owner job done saved t =
    let (changed, t') = update_progress owner job done saved (select job t) t in
    (if changed then recorded else is_lost owner (select job t'), t')

pub in_jobs : ℕ → List ℕ → Bool
in_jobs job [] = false
in_jobs job (j ∷ js) = if j =ℕ job then true else in_jobs job js

pub renew_rows : String → ℕ → List ℕ → Table → Table
renew_rows owner until jobs [] = []
renew_rows owner until jobs ((j, r) ∷ t) =
    (j, if r.owner == owner && in_jobs j jobs then record r { lease_until = until } else r)
    ∷ renew_rows owner until jobs t

-- `renew`; the count that it returns is not used by its caller
pub renew : String → ℕ → ℕ → List ℕ → Table → Table
unfolding renew_rows in_jobs
renew owner ttl now [] t = t
renew owner ttl now (j ∷ jobs) t = renew_rows owner (now + ttl) (j ∷ jobs) t

release_found : String → ℕ → Option Row → Table → Table
release_found owner job none t = t
release_found owner job (some row) t = if row.owner == owner then remove job t else t

unfoldable pub release : String → ℕ → Table → Table
unfolding release_found
release owner job t = release_found owner job (select job t) t
