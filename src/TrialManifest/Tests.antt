-- ===== src/TrialManifest/Tests.antt =====
-- A creation trial and the revocation trial of the same request.
use admin_infra_proposed.Base.{ℕ, none, some, List, [], ◌∷◌, ◌≡◌, refl, inl, arith}
use admin_infra_proposed.TrialManifest.{
  TrialRow, LogEvent, refused, bound_to_another, closed_already, trial_id_taken, one, open_trial,
  bind_request, close_trial, events_of,
}
use admin_infra_proposed.TrialManifest.Calls.{Call, opens, binds, closes, calls, closed}
use admin_infra_proposed.TrialManifest.Windows.{In, later_trial_apart}

abbrev creation : List TrialRow
creation = closed "create" "7" 10 20 ∷ []

abbrev afterwards : List Call
afterwards =
    binds "create" "8"
    ∷ closes "create" 30
    ∷ opens "revoke" 25
    ∷ binds "revoke" "7"
    ∷ closes "revoke" 40
    ∷ []

abbrev log_event : ℕ → ℕ → LogEvent
log_event n t = record { id = n; request_id = "7"; created_at = t }

abbrev log : List LogEvent
log = log_event 3 26 ∷ log_event 2 20 ∷ log_event 1 20 ∷ log_event 0 9 ∷ []

rebinding_refused : bind_request "create" "8" creation ≡ refused bound_to_another
unfolding bind_request
rebinding_refused = refl

closing_again_refused : close_trial "create" 30 creation ≡ refused closed_already
unfolding close_trial
closing_again_refused = refl

opening_again_refused : open_trial "create" 30 creation ≡ refused trial_id_taken
unfolding open_trial
opening_again_refused = refl

creation_listed :
    events_of "create" (calls afterwards creation) log ≡ some (log_event 1 20 ∷ log_event 2 20 ∷ [])
unfolding events_of calls open_trial bind_request close_trial
creation_listed = refl

revocation_listed : events_of "revoke" (calls afterwards creation) log ≡ some (log_event 3 26 ∷ [])
unfolding events_of calls open_trial bind_request close_trial
revocation_listed = refl

revocation_is_new : one "revoke" creation ≡ none
unfolding one
revocation_is_new = refl

creation_is_closed : one "create" creation ≡ some (closed "create" "7" 10 20)
unfolding one
creation_is_closed = refl

later_trial_apart_example :
    (events_of "create" creation log ≡ some (log_event 1 20 ∷ log_event 2 20 ∷ []))
    × ¬ In (log_event 1 20) (log_event 3 26 ∷ [])
later_trial_apart_example =
    later_trial_apart afterwards "create" "revoke" "7" 10 20 creation log
      (log_event 1 20 ∷ log_event 2 20 ∷ []) (log_event 3 26 ∷ []) (log_event 1 20)
      creation_is_closed revocation_is_new (omega arith) creation_listed revocation_listed
      (inl refl)
