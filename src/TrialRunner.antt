-- ===== src/TrialRunner.antt =====
-- One trial and a pair of trials: `run_trial` and `run_pair` of harness/trial_runner.py. The ports
-- are arguments: what they read is a function of the world, and what they do may raise. The fault
-- injector polls inside `advance`. Snapshots and bystanders, which the record only passes on, are left
-- out.
mod Types
pub mod Watching
pub mod Observed
pub mod Returns
pub mod Pairs
mod Tests
unfoldable pub use Types.*
use Prim.Native.Nat.{◌%◌}
use admin_infra_proposed.Base.{
  ℕ, zero, suc, ◌+◌, String, Bool, true, false, not, ◌&&◌, Option, none, some, List, [], ◌∷◌, ◌++◌,
  if◌then◌else◌, leb, ltb, ◌=ℕ◌, ◌==◌,
}
use admin_infra_proposed.Evaluator.{
  Verdict, pass, fail, unknown, Collected, Expected, evaluate_creation, evaluate_reclamation,
}
use admin_infra_proposed.TrialManifest.{
  TrialRow, Refusal, Written, written_rows, refused, open_trial, bind_request, close_trial,
}

module _ {W : Type 0} (ports : Ports W) where
  unfoldable pub evaluate : Operation → Expected → W → Verdict
  unfolding evaluate_creation evaluate_reclamation
  evaluate create expected w = evaluate_creation (ports.collect w) expected
  evaluate revoke expected w = evaluate_reclamation (ports.collect w)

  declares : Setup → Option String → W → Seen → Seen
  unfolding evaluate
  declares setup none w seen = seen
  declares setup (some value) w seen = record seen {
    declared = some (value, ports.clock w, evaluate setup.operation setup.expected w);
  }

  samples_after : Setup → Option ℕ → W → Seen → Seen
  unfolding evaluate
  samples_after setup none w seen = seen
  samples_after setup (some n) w seen =
      let steps = seen.steps_after + 1 in
      if steps % n =ℕ 0
      then record seen {
        samples = seen.samples ++ (ports.clock w, evaluate setup.operation setup.expected w) ∷ [];
        steps_after = steps;
      }
      else record seen { steps_after = steps }

  observe_from : Setup → Option (String × ℕ × Verdict) → W → Seen → Seen
  unfolding declares samples_after
  observe_from setup none w seen = declares setup (ports.declaration w) w seen
  observe_from setup (some d) w seen = samples_after setup setup.sample_every w seen

  -- What a round does after `advance`.
  unfoldable pub observe : Setup → W → Seen → Seen
  unfolding observe_from
  observe setup w seen = observe_from setup seen.declared w seen

  -- `while clock() - t_submitted < horizon_sec`
  unfoldable pub watch : Setup → ℕ → ℕ → W → Seen → Looped W
  unfolding observe
  watch setup zero start w seen = loop_out_of_fuel
  watch setup (suc fuel) start w seen = elim (ltb (ports.clock w) (start + setup.horizon)) [
    | false ↦ horizon_reached w seen
    | true ↦ elim (ports.advance w) [
      | none ↦ loop_raised
      | some w' ↦ watch setup fuel start (ports.rests w') (observe setup w' seen)
    ]
  ]

  unfoldable pub record_of : Setup → Judged → String → ℕ → W → Seen → TrialRecord
  unfolding evaluate verified_at judge_environment
  record_of setup judged request start w seen =
      let at_horizon = evaluate setup.operation setup.expected w in
      record {
        trial_id = setup.trial_id;
        operation = setup.operation;
        request_id = request;
        submitted = start;
        declared = declared_of seen.declared;
        verified = verified_at seen.declared (ports.clock w) at_horizon;
        horizon_end = ports.clock w;
        at_declaration = verdict_of seen.declared;
        at_horizon = at_horizon;
        samples = seen.samples;
        environment = judge_environment judged;
        start_state = setup.start_state;
      }

  saved : TrialRecord → List TrialRow → W → Run W
  saved r rows w = if ports.saves r then ran r rows (ports.rests w) else raised save_raised rows

  closed_run : Setup → TrialRecord → Written → List TrialRow → W → Run W
  unfolding saved
  closed_run setup r (refused why) rows w = raised (trial_state why) rows
  closed_run setup r (written_rows rows') rows w = saved r rows' w

  watched : Setup → Judged → String → ℕ → Looped W → List TrialRow → Run W
  unfolding record_of closed_run
  watched setup judged request start loop_raised rows = raised advance_raised rows
  watched setup judged request start loop_out_of_fuel rows = raised out_of_fuel rows
  watched setup judged request start (horizon_reached w seen) rows =
      closed_run setup (record_of setup judged request start w seen)
        (close_trial setup.trial_id (ports.database_clock (ports.rests w)) rows) rows
        (ports.rests w)

  bound_run : Setup → Judged → ℕ → String → ℕ → Written → List TrialRow → W → Run W
  unfolding watch watched
  bound_run setup judged fuel request start (refused why) rows w = raised (trial_state why) rows
  bound_run setup judged fuel request start (written_rows rows') rows w =
      watched setup judged request start (watch setup fuel start w nothing_seen) rows'

  submitted_run : Setup → Judged → ℕ → ℕ → Option (String × W) → List TrialRow → Run W
  unfolding bound_run
  submitted_run setup judged fuel start none rows = raised submit_raised rows
  submitted_run setup judged fuel start (some (request, w)) rows =
      bound_run setup judged fuel request start (bind_request setup.trial_id request rows) rows w

  opened_run : Setup → Judged → ℕ → Written → List TrialRow → W → Run W
  unfolding submitted_run
  opened_run setup judged fuel (refused why) rows w = raised (trial_state why) rows
  opened_run setup judged fuel (written_rows rows') rows w =
      submitted_run setup judged fuel (ports.clock w) (ports.submit w) rows'

  unfoldable pub run_trial : Setup → Judged → ℕ → List TrialRow → W → Run W
  unfolding is_refused opened_run
  run_trial setup judged fuel rows w =
      if is_refused setup
      then raised value_error rows
      else opened_run setup judged fuel
          (open_trial setup.trial_id (ports.database_clock (ports.rests w)) rows) rows
          (ports.rests w)

-- The `submit` of the second trial raises where another request comes back.
unfoldable pub same_request : {W : Type 0} → String → Option (String × W) → Option (String × W)
same_request request none = none
same_request request (some (returned, w)) = if returned == request then some (returned, w) else none

module _ {W : Type 0} (ports : Ports W) (revoke_submit : String → W → Option (String × W))
    (revoke_declaration : W → Option String) where
  -- The setup and the ports of the second trial.
  unfoldable pub revoke_setup : Setup → String → TrialRecord → Setup
  revoke_setup setup trial created = record setup {
    trial_id = trial;
    operation = revoke;
    start_state =
        some (record { creation_trial_id = setup.trial_id; creation_verdict = created.at_horizon });
  }

  unfoldable pub revoke_ports : String → Ports W
  unfolding same_request
  revoke_ports request = record ports {
    submit = λ w. same_request request (revoke_submit request w);
    declaration = revoke_declaration;
  }

  paired : TrialRecord → Run W → Pair W
  paired created (raised why rows) = pair_raised why rows
  paired created (ran revoked rows w) = pair_ran created revoked rows w

  created_run : Setup → String → Judged → ℕ → Run W → Pair W
  unfolding run_trial revoke_setup revoke_ports paired
  created_run setup trial judged fuel (raised why rows) = pair_raised why rows
  created_run setup trial judged fuel (ran created rows w) = paired created (
      run_trial (revoke_ports created.request_id) (revoke_setup setup trial created) judged fuel
        rows w)

  -- `run_pair`; the setup is that of the creation trial, without samples.
  unfoldable pub run_pair : Setup → String → Judged → Judged → ℕ → List TrialRow → W → Pair W
  unfolding created_run
  run_pair setup trial judged judged' fuel rows w =
      created_run setup trial judged' fuel (run_trial ports setup judged fuel rows w)
