-- ===== src/Journal/Registered.antt =====
-- A registered job is found until a row ends it: any operations on the log and the inputs.
use admin_infra_proposed.Base.{
  append_nil, append_assoc, ℕ, ◌≤◌, ◌<◌, String, ◌≡◌, refl, ap, sym, ◌∙◌, ◌⊎◌, Bool, true, false,
  ◌&&◌, List, [], ◌∷◌, ◌++◌, arith, ◌==◌, contains, Option-cases, inl, inr,
}
use admin_infra_proposed.Jobs.Types.{Phase, start}
use admin_infra_proposed.Journal.{
  LogRow, Board, Stores, accepted, has_end, ends_job, is_unfinished, find_unfinished_jobs,
  job_actions, append_row, register_job, saved, save_job_input, log_start, record_end,
  mark_job_running, load_job_input,
}
use admin_infra_proposed.Journal.Found.{
  has_end-append, ids_below, no_end_yet, has_id, place, place-append, stands, stands-has_id,
  stands-append, stands-take, stands-new,
}

-- An operation: a registration, the end of a job, the mark that a job runs, and a row of a retry or
-- of a step. A step's rows have actions that are not a job's.
pub data Op : Type 0 where
  registers : Stores → String → String → Op
  ends : Bool → Bool → Bool → String → String → Phase → Op
  runs : String → String → Op
  logs : String → String → Phase → Op

unfoldable pub apply : Op → Board → Board
apply (registers stores action request) b = (register_job stores action request b).1
apply (ends writes deletes marks action request phase) b =
    record_end writes deletes marks action request phase b
apply (runs action request) b = record b { inputs = mark_job_running action request b.inputs }
apply (logs action request phase) b = append_row action request phase b

unfoldable pub run : List Op → Board → Board
run [] b = b
run (op ∷ ops) b = run ops (apply op b)

-- The operation is none that ends the job, and a row of a step is no job's row.
unfoldable pub Spares : String → String → Op → Type 0
Spares a r (registers stores action request) = Unit {0}
Spares a r (ends writes deletes marks action request phase) = (request == r && action == a) ≡ false
Spares a r (runs action request) = Unit {0}
Spares a r (logs action request phase) = ((request == r && action == a) && ends_job phase) ≡ false

unfoldable pub AllSpare : String → String → List Op → Type 0
AllSpare a r [] = Unit {0}
AllSpare a r (op ∷ ops) = Spares a r op × AllSpare a r ops

-- The new log: what was there, then rows of which none ends the job.
unfoldable pub Grows : String → String → Board → Board → Type 0
Grows a r b b' =
    (more : List LogRow) × (b'.log ≡ b.log ++ more) × ((id : ℕ) → has_end a r id more ≡ false)

stays-Grows : (a r : String) (b b' : Board) → b'.log ≡ b.log → Grows a r b b'
unfolding Grows has_end
stays-Grows a r b b' p = ([], p ∙ sym (append_nil b.log), λ id. refl)

appends-Grows :
    (a r action request : String) (phase : Phase) (b b' : Board)
    → b'.log ≡ (append_row action request phase b).log
    → ((request == r && action == a) && ends_job phase) ≡ false
    → Grows a r b b'
unfolding Grows has_end append_row
appends-Grows a r action request phase b b' p h = (
  record { id = b.next_id; action = action; request_id = request; phase = phase } ∷ [],
  p,
  λ id. ground (arith, h),
)

register_log :
    (stores : Stores) (action request : String) (b : Board)
    → ((register_job stores action request b).1.log ≡ b.log)
      ⊎ ((register_job stores action request b).1.log ≡ (append_row action request start b).log)
unfolding register_job save_job_input saved log_start append_row
register_log stores action request b =
    elim (Option-cases (load_job_input action request b.inputs)) [
      | inl absent ↦ ground (arith, absent)
      | inr (st, there) ↦ ground (arith, there)
    ]

register_job-Grows :
    (a r : String) (stores : Stores) (action request : String) (b : Board)
    → Grows a r b (register_job stores action request b).1
register_job-Grows a r stores action request b = elim (register_log stores action request b) [
  | inl same ↦ stays-Grows a r b _ same
  | inr new ↦ appends-Grows a r action request start b _ new (ground arith)
]

record_end-Grows :
    (a r : String) (w d m : Bool) (action request : String) (phase : Phase) (b : Board)
    → (request == r && action == a) ≡ false
    → Grows a r b (record_end w d m action request phase b)
unfolding record_end
record_end-Grows a r true d m action request phase b h =
    appends-Grows a r action request phase b _ (ground arith) (ground (arith, h))
record_end-Grows a r false d m action request phase b h = stays-Grows a r b _ (ground arith)

apply-Grows : (a r : String) (op : Op) (b : Board) → Spares a r op → Grows a r b (apply op b)
unfolding Spares apply
apply-Grows a r (registers stores action request) b h =
    register_job-Grows a r stores action request b
apply-Grows a r (ends w d m action request phase) b h =
    record_end-Grows a r w d m action request phase b h
apply-Grows a r (runs action request) b h = stays-Grows a r b _ refl
apply-Grows a r (logs action request phase) b h = appends-Grows a r action request phase b _ refl h

Grows-trans :
    (a r : String) (b b' b'' : Board) → Grows a r b b' → Grows a r b' b'' → Grows a r b b''
unfolding Grows
Grows-trans a r b b' b'' (more, p, h) (more', q, k) = (
  more ++ more',
  q ∙ ap (λ l. l ++ more') p ∙ append_assoc b.log more more',
  λ id. has_end-append a r id more more' ∙ ground (arith, h id, k id),
)

pub run-Grows :
    (a r : String) (ops : List Op) (b : Board) → AllSpare a r ops → Grows a r b (run ops b)
unfolding run AllSpare
run-Grows a r [] b h = stays-Grows a r b b refl
run-Grows a r (op ∷ ops) b (h, k) =
    Grows-trans a r b (apply op b) (run ops (apply op b)) (apply-Grows a r op b h)
      (run-Grows a r ops (apply op b) k)

register_accepted :
    (stores : Stores) (action request : String) (b : Board) {id : ℕ}
    → (register_job stores action request b).0 ≡ accepted id
    → (id ≡ b.next_id)
      × ((register_job stores action request b).1.log ≡ (append_row action request start b).log)
unfolding register_job save_job_input saved log_start append_row
register_accepted stores action request b h =
    elim (Option-cases (load_job_input action request b.inputs)) [
      | inl absent ↦ ground (arith, absent, h)
      | inr (st, there) ↦ ground (arith, there, h)
    ]

new_stands :
    (action request : String) (b : Board)
    → ids_below b.next_id b.log ≡ true
    → contains action job_actions ≡ true
    → let log = (append_row action request start b).log in
      stands log action request b.next_id log ≡ true
unfolding append_row is_unfinished has_end
new_stands action request b below job =
    let row : LogRow = record {
      id = b.next_id;
      action = action;
      request_id = request;
      phase = start;
    } in
    stands-new (b.log ++ row ∷ []) row b.log below (
      ground (
        arith,
        job,
        has_end-append action request b.next_id b.log (row ∷ []),
        no_end_yet action request b.next_id b.log below,
      ))

kept_place :
    (a r : String) (id limit : ℕ) (b b' : Board)
    → Grows a r b b'
    → stands b.log a r id b.log ≡ true
    → (place b'.log id b'.log ≤ place b.log id b.log)
      × (place b'.log id b'.log < limit → has_id id (find_unfinished_jobs limit b'.log) ≡ true)
unfolding Grows find_unfinished_jobs
kept_place a r id limit b b' (more, p, h) st =
    let still : stands b'.log a r id b'.log ≡ true =
      rw p (stands-append b.log more a r id b.log more st (h id)) in
    (
      rw p (place-append b.log more id b.log more (stands-has_id b.log a r id b.log st)),
      λ k. stands-take b'.log a r id limit b'.log still k,
    )

-- A registered job is found in every poll until a row ends it: whatever is registered, ended, run
-- or logged in between, never more unfinished jobs stand before it than at first, and it is among
-- the `limit` jobs that the poll gets once fewer than that do.
pub registered_until_end :
    (stores : Stores) (a r : String) (b : Board) (ops : List Op) (limit : ℕ) {id : ℕ}
    → ids_below b.next_id b.log ≡ true
    → contains a job_actions ≡ true
    → (register_job stores a r b).0 ≡ accepted id
    → AllSpare a r ops
    → let first = (register_job stores a r b).1.log in
      let later = (run ops (register_job stores a r b).1).log in
      (place later id later ≤ place first id first)
      × (place later id later < limit → has_id id (find_unfinished_jobs limit later) ≡ true)
registered_until_end stores a r b ops limit below job h spare =
    let (same, log) = register_accepted stores a r b h in
    kept_place a r _ limit (register_job stores a r b).1 (run ops (register_job stores a r b).1)
      (run-Grows a r ops (register_job stores a r b).1 spare)
      (rw same (rw log (new_stands a r b below job)))
