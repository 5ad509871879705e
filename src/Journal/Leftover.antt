-- ===== src/Journal/Leftover.antt =====
-- What remains of a job whose input could not be deleted after its end was written.
use admin_infra_proposed.Base.{
  ℕ, ◌<◌, String, ◌≡◌, ap, ◌∙◌, Bool, true, false, ◌&&◌, none, some, List, [], ◌∷◌, ◌++◌, arith,
  if◌then◌else◌, ◌==◌, eq_iff, eq_refl, Option-cases, Bool-cases, inl, inr,
}
use admin_infra_proposed.Jobs.Types.{Phase}
use admin_infra_proposed.Journal.{
  LogRow, Board, Stores, job_already_registered, has_end, ends_job, job_end_exists, append_row,
  register_job, saved, save_job_input, log_start, record_end, mark_job_running, load_job_input,
  set_input, delete_job_input, Input, mark_job_done, InputState, queued, running, done,
}
use admin_infra_proposed.Journal.Found.{has_end-append}
use admin_infra_proposed.Journal.Registered.{
  Op, registers, ends, runs, logs, apply, run, Spares, AllSpare, Grows, run-Grows,
}

load-delete :
    (a r a' r' : String) (inputs : List Input)
    → load_job_input a r (delete_job_input a' r' inputs)
      ≡ (if a' == a && r' == r then none else load_job_input a r inputs)
unfolding load_job_input delete_job_input
load-delete a r a' r' [] = ground arith
load-delete a r a' r' (i ∷ inputs) = ground (
  arith,
  load-delete a r a' r' inputs,
  eq_iff i.action a,
  eq_iff i.action a',
  eq_iff i.request_id r,
  eq_iff i.request_id r',
  eq_iff a' a,
  eq_iff r' r,
)

load-set_input :
    (a r a' r' : String) (st : InputState) (inputs : List Input)
    → load_job_input a r (set_input a' r' st inputs)
      ≡ (if a' == a && r' == r then some st else load_job_input a r inputs)
unfolding load_job_input set_input
load-set_input a r a' r' st inputs = ground (arith, load-delete a r a' r' inputs)

-- The job has an input.
abbrev pub HasInput : String → String → Board → Type 0
HasInput a r b = (st : InputState) × (load_job_input a r b.inputs ≡ some st)

set-HasInput :
    (a r a' r' : String) (st : InputState) (b b' : Board)
    → b'.inputs ≡ set_input a' r' st b.inputs
    → HasInput a r b
    → HasInput a r b'
set-HasInput a r a' r' st b b' p (old, h) = elim (Bool-cases (a' == a && r' == r)) [
  | inl self ↦
      (st, ap (load_job_input a r) p ∙ ground (arith, self, load-set_input a r a' r' st b.inputs))
  | inr other ↦ (
    old,
    ap (load_job_input a r) p ∙ ground (arith, h, other, load-set_input a r a' r' st b.inputs),
  )
]

register_inputs :
    (stores : Stores) (a r a' r' : String) (b : Board)
    → HasInput a r b
    → load_job_input a r (register_job stores a' r' b).1.inputs ≡ load_job_input a r b.inputs
unfolding register_job save_job_input saved log_start append_row
register_inputs stores a r a' r' b (st, h) = elim (Option-cases (load_job_input a' r' b.inputs)) [
  | inl absent ↦ ground (
    arith,
    h,
    absent,
    eq_iff a' a,
    eq_iff r' r,
    load-set_input a r a' r' queued b.inputs,
    load-delete a r a' r' (set_input a' r' queued b.inputs),
  )
  | inr (old, there) ↦ ground (arith, there)
]

end_inputs :
    (w d m : Bool) (a r a' r' : String) (phase : Phase) (b : Board)
    → (r' == r && a' == a) ≡ false
    → load_job_input a r (record_end w d m a' r' phase b).inputs ≡ load_job_input a r b.inputs
unfolding record_end append_row mark_job_done
end_inputs w d m a r a' r' phase b h =
    ground
      (arith, h, load-delete a r a' r' b.inputs, load-set_input a r a' r' (done phase) b.inputs)

running-HasInput :
    (a r a' r' : String) (b : Board)
    → HasInput a r b
    → HasInput a r (record b { inputs = mark_job_running a' r' b.inputs })
unfolding mark_job_running
running-HasInput a r a' r' b (st, k) = elim (Option-cases (load_job_input a' r' b.inputs)) [
  | inl absent ↦ (st, ground (arith, absent, k))
  | inr (old, there) ↦
      set-HasInput a r a' r' running b (record b { inputs = mark_job_running a' r' b.inputs })
        (ground (arith, there)) (st, k)
]

apply-HasInput :
    (a r : String) (op : Op) (b : Board)
    → Spares a r op
    → HasInput a r b
    → HasInput a r (apply op b)
unfolding Spares apply append_row
apply-HasInput a r (registers stores a' r') b h (st, k) =
    (st, register_inputs stores a r a' r' b (st, k) ∙ k)
apply-HasInput a r (ends w d m a' r' phase) b h (st, k) =
    (st, end_inputs w d m a r a' r' phase b h ∙ k)
apply-HasInput a r (runs a' r') b h k = running-HasInput a r a' r' b k
apply-HasInput a r (logs a' r' phase) b h k = k

run-HasInput :
    (a r : String) (ops : List Op) (b : Board)
    → AllSpare a r ops
    → HasInput a r b
    → HasInput a r (run ops b)
unfolding run AllSpare
run-HasInput a r [] b h k = k
run-HasInput a r (op ∷ ops) b (h, hs) k =
    run-HasInput a r ops (apply op b) hs (apply-HasInput a r op b h k)

kept_input :
    (marks : Bool) (a r : String) (phase : Phase) (b : Board)
    → HasInput a r b
    → HasInput a r (record_end true false marks a r phase b)
unfolding record_end append_row
kept_input marks a r phase b h = h

grown :
    (a r : String) (b b' : Board) → Grows a r b b' → (more : List LogRow) × (b'.log ≡ b.log ++ more)
unfolding Grows
grown a r b b' (more, p, h) = (more, p)

refused :
    (stores : Stores) (a r : String) (b : Board) (st : InputState)
    → load_job_input a r b.inputs ≡ some st
    → stores.saves ≡ true
    → (register_job stores a r b).0 ≡ job_already_registered
unfolding register_job save_job_input saved
refused stores a r b st there saves = ground (arith, there, saves)

ended :
    (marks : Bool) (a r : String) (phase : Phase) (b : Board)
    → ends_job phase ≡ true
    → (id : ℕ) → id < b.next_id
    → has_end a r id (record_end true false marks a r phase b).log ≡ true
unfolding record_end append_row has_end
ended marks a r phase b e id k =
    has_end-append a r id b.log
      (record { id = b.next_id; action = a; request_id = r; phase = phase } ∷ [])
    ∙ ground (arith, e, k, eq_refl a, eq_refl r)

-- Where the end of a job is written and its input could not be deleted, the job counts as ended in
-- every later poll, while every later registration of it is refused as not finished.
pub leftover_input :
    (stores : Stores) (marks : Bool) (a r : String) (phase : Phase) (b : Board) (ops : List Op)
    → HasInput a r b
    → ends_job phase ≡ true
    → stores.saves ≡ true
    → AllSpare a r ops
    → let later = run ops (record_end true false marks a r phase b) in
      ((register_job stores a r later).0 ≡ job_already_registered)
      × ((id : ℕ) → id < b.next_id → job_end_exists a r id later.log ≡ true)
unfolding job_end_exists
leftover_input stores marks a r phase b ops input e saves spare =
    let b' = record_end true false marks a r phase b in
    let (st, there) = run-HasInput a r ops b' spare (kept_input marks a r phase b input) in
    let (more, p) = grown a r b' (run ops b') (run-Grows a r ops b' spare) in
    (
      refused stores a r (run ops b') st there saves,
      λ id k.
          rw p (has_end-append a r id b'.log more ∙ ground (arith, ended marks a r phase b e id k)),
    )
