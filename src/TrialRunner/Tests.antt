-- ===== src/TrialRunner/Tests.antt =====
-- A system that declares "done" at 12, and that passes every check from 20 on; the world is its time.
use admin_infra_proposed.Base.{
  ℕ, ◌+◌, ◌≤◌, String, true, false, Option, none, some, List, [], ◌∷◌, ◌≡◌, refl, arith,
  if◌then◌else◌, leb, some_inj, ap,
}
use admin_infra_proposed.Evaluator.{pass, fail, answered}
use admin_infra_proposed.TrialManifest.{TrialRow, one, open_trial, bind_request, close_trial}
use admin_infra_proposed.TrialManifest.Calls.{closed}
use admin_infra_proposed.TrialRunner.{
  create, revoke, clean, Setup, TrialRecord, is_refused, Ports, ran, raised, value_error, run_trial,
  pair_ran, run_pair, evaluate, watch, observe, same_request,
}
use admin_infra_proposed.TrialRunner.Watching.{IsObserved}
use admin_infra_proposed.TrialRunner.Observed.{run_trial_lem}
use admin_infra_proposed.TrialRunner.Returns.{IsLive, run_trial_returns}
use admin_infra_proposed.TrialRunner.Pairs.{PairTold, run_pair_lem}

abbrev evidence : List (String × String)
evidence = ("backend_pod_uid", "p") ∷ ("pod_uid", "p") ∷ ("mount_source", "nas:/home/kim") ∷ []

abbrev ports : Ports ℕ
ports = record {
  clock = λ w. w;
  database_clock = λ w. w;
  submit = λ w. some ("7", w + 1);
  advance = λ w. some (w + 5);
  rests = λ w. w + 1;
  declaration = λ w. if leb 12 w then some "done" else none;
  collect = λ w check. if leb 20 w then answered pass evidence else answered fail evidence;
  saves = λ r. true;
}

abbrev setup : Setup
setup = record {
  trial_id = "create";
  operation = create;
  horizon = 20;
  sample_every = none;
  start_state = none;
  expected = record { home_suffix = some "/kim"; uid = none };
}

abbrev trial_record : TrialRecord
trial_record = record {
  trial_id = "create";
  operation = create;
  request_id = "7";
  submitted = 4;
  declared = some ("done", 16);
  verified = some 29;
  horizon_end = 29;
  at_declaration = some fail;
  at_horizon = pass;
  samples = [];
  environment = clean;
  start_state = none;
}

trial_returns :
    run_trial ports setup clean 21 [] 3 ≡ ran trial_record (closed "create" "7" 4 30 ∷ []) 31
unfolding run_trial watch observe evaluate open_trial bind_request close_trial
trial_returns = refl

no_start_state :
    run_trial ports
      (record setup {
        start_state = some (record { creation_trial_id = "c"; creation_verdict = pass });
      })
      clean
      21
      []
      3
    ≡ raised value_error []
unfolding run_trial
no_start_state = refl

advance_rises : (w w' : ℕ) → ports.advance w ≡ some w' → w ≤ w'
advance_rises w w' e = omega (arith, some_inj e)

rests_on : (w : ℕ) → w ≤ ports.rests w
rests_on w = omega arith

second_of : Option (String × ℕ) → ℕ
second_of none = 0
second_of (some (request, w)) = w

submit_rises : (w w' : ℕ) (request : String) → ports.submit w ≡ some (request, w') → w ≤ w'
unfolding second_of
submit_rises w w' request e = omega (arith, ap second_of e)

ports-IsLive : IsLive ports
ports-IsLive = record {
  submits = λ w. ("7", w + 1, refl, omega arith);
  advances = λ w. (w + 5, refl, omega arith);
  saves = λ r. refl;
  goes_on = λ w. omega arith;
}

setup_valid : is_refused setup ≡ false
unfolding is_refused
setup_valid = refl

id_is_new : one "create" [] ≡ none
unfolding one
id_is_new = refl

run_trial_lem_example :
    (start at_end : ℕ) × (ports.submit 4 ≡ some ("7", start))
    × IsObserved ports setup 4 start trial_record at_end
    × (at_end ≤ 31)
run_trial_lem_example =
    run_trial_lem ports advance_rises rests_on submit_rises setup clean 21 []
      (closed "create" "7" 4 30 ∷ []) 3 31 trial_record trial_returns

run_trial_returns_example :
    (r : TrialRecord) × (rows : List TrialRow) × (w : ℕ) × (run_trial ports setup clean 21 [] 3
      ≡ ran r rows (w + 1))
    × (one "create" rows ≡ some (closed "create" r.request_id 4 w))
run_trial_returns_example =
    run_trial_returns ports ports-IsLive setup clean [] 3 setup_valid id_is_new

-- The revocation answers the request that it is asked for.
abbrev resubmit : String → ℕ → Option (String × ℕ)
resubmit request w = some (request, w + 1)

abbrev gone : ℕ → Option String
gone w = if leb 30 w then some "gone" else none

resubmit_rises :
    (w w' : ℕ) (asked request : String) → resubmit asked w ≡ some (request, w') → w ≤ w'
unfolding second_of
resubmit_rises w w' asked request e = omega (arith, ap second_of e)

abbrev revoked_record : TrialRecord
revoked_record = record {
  trial_id = "revoke";
  operation = revoke;
  request_id = "7";
  submitted = 32;
  declared = some ("gone", 38);
  verified = some 38;
  horizon_end = 57;
  at_declaration = some pass;
  at_horizon = pass;
  samples = [];
  environment = clean;
  start_state = some (record { creation_trial_id = "create"; creation_verdict = pass });
}

abbrev both_closed : List TrialRow
both_closed = closed "revoke" "7" 32 58 ∷ closed "create" "7" 4 30 ∷ []

pair_returns :
    run_pair ports resubmit gone setup "revoke" clean clean 21 [] 3
    ≡ pair_ran trial_record revoked_record both_closed 59
unfolding run_pair run_trial watch observe evaluate open_trial bind_request close_trial same_request
pair_returns = refl

run_pair_lem_example :
    PairTold ports resubmit gone advance_rises rests_on submit_rises resubmit_rises setup "revoke" 3
      (pair_ran trial_record revoked_record both_closed 59)
    × (revoked_record.start_state
        ≡ some (record { creation_trial_id = "create"; creation_verdict = pass }))
run_pair_lem_example =
    run_pair_lem ports resubmit gone advance_rises rests_on submit_rises resubmit_rises setup
      "revoke" clean clean 21 [] both_closed 3 59 trial_record revoked_record pair_returns
