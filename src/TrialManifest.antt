-- ===== src/TrialManifest.antt =====
-- The rows of trials and the journal rows that belong to each: harness/trial.py, on the columns of
-- trial_manifest and operation_log that its statements read. trial_id is the primary key
-- (infra-sql/trial_manifest.sql); times are those of the database's clock.
pub mod Calls
pub mod Windows
mod Tests
use admin_infra_proposed.Base.{
  ℕ, String, Bool, true, false, not, ◌&&◌, ◌||◌, Option, none, some, List, [], ◌∷◌, if◌then◌else◌,
  leb, ltb, ◌=ℕ◌, ◌==◌,
}

pub record TrialRow : Type 0 where
  pub trial_id : String
  pub request_id : Option String
  pub started_at : ℕ
  pub ended_at : Option ℕ

-- A row of operation_log.
pub record LogEvent : Type 0 where
  pub id : ℕ
  pub request_id : String
  pub created_at : ℕ

-- TrialStateError, by its reason, and the refusal of a second row of a primary key.
pub data Refusal : Type 0 where
  no_trial_row : Refusal
  bound_to_another : Refusal
  closed_already : Refusal
  trial_id_taken : Refusal

pub data Written : Type 0 where
  written_rows : List TrialRow → Written
  refused : Refusal → Written

-- `_one`
unfoldable pub one : String → List TrialRow → Option TrialRow
one trial [] = none
one trial (r ∷ rows) = let rest = one trial rows in if r.trial_id == trial then some r else rest

-- `UPDATE trial_manifest SET request_id`
unfoldable pub set_request : String → String → List TrialRow → List TrialRow
set_request trial request [] = []
set_request trial request (r ∷ rows) =
    let rest = set_request trial request rows in
    if r.trial_id == trial then record r { request_id = some request } ∷ rest else r ∷ rest

-- `UPDATE trial_manifest SET ended_at`
unfoldable pub set_end : String → ℕ → List TrialRow → List TrialRow
set_end trial now [] = []
set_end trial now (r ∷ rows) =
    let rest = set_end trial now rows in
    if r.trial_id == trial then record r { ended_at = some now } ∷ rest else r ∷ rest

add_row : Option TrialRow → String → ℕ → List TrialRow → Written
add_row (some r) trial now rows = refused trial_id_taken
add_row none trial now rows =
    written_rows
      (record { trial_id = trial; request_id = none; started_at = now; ended_at = none } ∷ rows)

unfoldable pub open_trial : String → ℕ → List TrialRow → Written
unfolding one add_row
open_trial trial now rows = add_row (one trial rows) trial now rows

bind_row : Option TrialRow → String → String → List TrialRow → Written
unfolding set_request
bind_row none trial request rows = refused no_trial_row
bind_row (some r) trial request rows = elim r.request_id [
  | none ↦ written_rows (set_request trial request rows)
  | some current ↦
      if current == request
      then written_rows (set_request trial request rows)
      else refused bound_to_another
]

unfoldable pub bind_request : String → String → List TrialRow → Written
unfolding one bind_row
bind_request trial request rows = bind_row (one trial rows) trial request rows

close_row : Option TrialRow → String → ℕ → List TrialRow → Written
unfolding set_end
close_row none trial now rows = refused no_trial_row
close_row (some r) trial now rows = elim r.ended_at [
  | none ↦ written_rows (set_end trial now rows)
  | some t ↦ refused closed_already
]

unfoldable pub close_trial : String → ℕ → List TrialRow → Written
unfolding one close_row
close_trial trial now rows = close_row (one trial rows) trial now rows

-- `created_at <= ended_at`, where the trial has ended
abbrev pub by_end : ℕ → Option ℕ → Bool
by_end created none = true
by_end created (some t) = leb created t

abbrev pub in_window : String → TrialRow → LogEvent → Bool
in_window request r e =
    e.request_id == request && (leb r.started_at e.created_at && by_end e.created_at r.ended_at)

unfoldable pub events_in : String → TrialRow → List LogEvent → List LogEvent
events_in request r [] = []
events_in request r (e ∷ log) =
    let rest = events_in request r log in if in_window request r e then e ∷ rest else rest

-- `ORDER BY created_at ASC, id ASC`
unfoldable pub insert_event : LogEvent → List LogEvent → List LogEvent
insert_event e [] = e ∷ []
insert_event e (x ∷ xs) =
    let rest = insert_event e xs in
    if ltb x.created_at e.created_at || (x.created_at =ℕ e.created_at && ltb x.id e.id)
    then x ∷ rest
    else e ∷ x ∷ xs

unfoldable pub order_events : List LogEvent → List LogEvent
unfolding insert_event
order_events [] = []
order_events (e ∷ es) = insert_event e (order_events es)

events_of_row : Option TrialRow → List LogEvent → Option (List LogEvent)
unfolding events_in order_events
events_of_row none log = none
events_of_row (some r) log = elim r.request_id [
  | none ↦ some []
  | some request ↦ some (order_events (events_in request r log))
]

-- `events_of`; `none` where it raises.
unfoldable pub events_of : String → List TrialRow → List LogEvent → Option (List LogEvent)
unfolding one events_of_row
events_of trial rows log = events_of_row (one trial rows) log
