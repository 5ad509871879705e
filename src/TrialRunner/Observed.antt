-- ===== src/TrialRunner/Observed.antt =====
-- What the record of a trial tells of the run.
use admin_infra_proposed.Base.{
  ℕ, ◌+◌, ◌≤◌, String, some, List, ◌≡◌, refl, subst, arith, inl, inr, Bool-cases, Option-cases,
}
use admin_infra_proposed.TrialManifest.{
  TrialRow, Written, written_rows, refused, open_trial, bind_request, close_trial,
}
use admin_infra_proposed.TrialRunner.{
  Judged, Setup, TrialRecord, is_refused, Seen, nothing_seen, Ports, Looped, horizon_reached,
  loop_raised, loop_out_of_fuel, Run, ran, raised, evaluate, watch, record_of, saved, closed_run,
  watched, bound_run, submitted_run, opened_run, run_trial,
}
use admin_infra_proposed.TrialRunner.Watching.{
  verified_lem, IsSeen, IsObserved, Ended, watch-Ended, IsSeen-Within, here,
}

module _ {W : Type 0} (ports : Ports W) where
  module _ (rises : (w w' : W) → ports.advance w ≡ some w' → ports.clock w ≤ ports.clock w')
      (on : (w : W) → ports.clock w ≤ ports.clock (ports.rests w)) where
    record_of-IsObserved :
        (setup : Setup) (judged : Judged) (request : String) (before start after : W) (seen : Seen)
        → ports.clock before ≤ ports.clock start
        → IsSeen ports setup start after seen.declared
          × (ports.clock before + setup.horizon ≤ ports.clock after)
        → IsObserved ports setup before start
            (record_of ports setup judged request (ports.clock before) after seen)
            after
    unfolding record_of
    record_of-IsObserved setup judged request before start after seen l (h, long) =
        let r = record_of ports setup judged request (ports.clock before) after seen in
        record {
          started_from = refl;
          submitted_at = refl;
          ended_at = refl;
          lasted = long;
          seen = seen.declared;
          declared = (refl, refl);
          first = h;
          at_horizon = refl;
          verified =
              verified_lem r seen.declared (evaluate ports setup.operation setup.expected after)
                refl refl refl (omega (arith, long))
                (IsSeen-Within ports rises on setup (ports.clock before) start after seen.declared l
                  h);
        }

    -- What a run that returned tells, by the world before its submission.
    abbrev Told : Setup → W → Run W → Type 0
    Told setup before (raised why rows) = Unit {0}
    Told setup before (ran r rows after) =
        (start at_end : W) × (ports.submit before ≡ some (r.request_id, start))
        × IsObserved ports setup before start r at_end
        × (ports.clock at_end ≤ ports.clock after)

    saved-Told :
        (setup : Setup) (before w : W) (r : TrialRecord) (rows : List TrialRow)
        → Told setup before (ran r rows w)
        → Told setup before (saved ports r rows w)
    unfolding saved
    saved-Told setup before w r rows (start, at_end, s, o, l) = elim (Bool-cases (ports.saves r)) [
      | inl e ↦ rw e (start, at_end, s, o, omega (arith, l, on w))
      | inr e ↦ rw e tt
    ]

    closed_run-Told :
        (setup : Setup) (before w : W) (r : TrialRecord) (c : Written) (rows : List TrialRow)
        → Told setup before (ran r rows w)
        → Told setup before (closed_run ports setup r c rows w)
    unfolding closed_run
    closed_run-Told setup before w r (refused why) rows h = tt
    closed_run-Told setup before w r (written_rows rows') rows h =
        saved-Told setup before w r rows' h

    watched-Told :
        (setup : Setup) (judged : Judged) (request : String) (before start : W) (l : Looped W)
        (rows : List TrialRow)
        → ports.submit before ≡ some (request, start)
        → ports.clock before ≤ ports.clock start
        → Ended ports rises on setup (ports.clock before) start l
        → Told setup before (watched ports setup judged request (ports.clock before) l rows)
    unfolding watched record_of
    watched-Told setup judged request before start loop_raised rows s l h = tt
    watched-Told setup judged request before start loop_out_of_fuel rows s l h = tt
    watched-Told setup judged request before start (horizon_reached w seen) rows s l h =
        closed_run-Told setup before (ports.rests w)
          (record_of ports setup judged request (ports.clock before) w seen)
          (close_trial setup.trial_id (ports.database_clock (ports.rests w)) rows) rows
          (start, w, s, record_of-IsObserved setup judged request before start w seen l h, on w)

    bound_run-Told :
        (setup : Setup) (judged : Judged) (fuel : ℕ) (request : String) (before start : W)
        (b : Written) (rows : List TrialRow)
        → ports.submit before ≡ some (request, start)
        → ports.clock before ≤ ports.clock start
        → Told setup before
            (bound_run ports setup judged fuel request (ports.clock before) b rows start)
    unfolding bound_run
    bound_run-Told setup judged fuel request before start (refused why) rows s l = tt
    bound_run-Told setup judged fuel request before start (written_rows rows') rows s l =
        watched-Told setup judged request before start
          (watch ports setup fuel (ports.clock before) start nothing_seen) rows' s l
          (watch-Ended ports rises on setup fuel (ports.clock before) start start nothing_seen here)

    module _
        (submits : (w w' : W) (request : String)
          → ports.submit w ≡ some (request, w')
          → ports.clock w ≤ ports.clock w') where
      opened_run-Told :
          (setup : Setup) (judged : Judged) (fuel : ℕ) (o : Written) (rows : List TrialRow) (w : W)
          → Told setup w (opened_run ports setup judged fuel o rows w)
      unfolding opened_run submitted_run
      opened_run-Told setup judged fuel (refused why) rows w = tt
      opened_run-Told setup judged fuel (written_rows rows') rows w =
          elim (Option-cases (ports.submit w)) [
            | inl e ↦ rw e tt
            | inr ((request, start), e) ↦ rw e (
                bound_run-Told setup judged fuel request w start
                  (bind_request setup.trial_id request rows') rows' e (submits w start request e))
          ]

      run_trial-Told :
          (setup : Setup) (judged : Judged) (fuel : ℕ) (rows : List TrialRow) (w : W)
          → Told setup (ports.rests w) (run_trial ports setup judged fuel rows w)
      unfolding run_trial
      run_trial-Told setup judged fuel rows w = elim (Bool-cases (is_refused setup)) [
        | inl e ↦ rw e tt
        | inr e ↦ rw e (
            opened_run-Told setup judged fuel
              (open_trial setup.trial_id (ports.database_clock (ports.rests w)) rows) rows
              (ports.rests w))
      ]

      -- Where no call turns the clock back, the record of a trial that returned is true to it: it
      -- covers the horizon; it holds the first declaration after the submission, with the time and
      -- the independent verdict of that very round, or there was none; the verdict at the horizon is
      -- that of the end; and it counts as verified at the time of the declaration where the verdict
      -- was PASS then, else at the horizon's end where it was PASS there, and never without a
      -- declaration.
      pub run_trial_lem :
          (setup : Setup) (judged : Judged) (fuel : ℕ) (rows rows' : List TrialRow) (w after : W)
          (r : TrialRecord)
          → run_trial ports setup judged fuel rows w ≡ ran r rows' after
          → (start at_end : W) × (ports.submit (ports.rests w) ≡ some (r.request_id, start))
            × IsObserved ports setup (ports.rests w) start r at_end
            × (ports.clock at_end ≤ ports.clock after)
      run_trial_lem setup judged fuel rows rows' w after r p =
          subst (Told setup (ports.rests w)) p (run_trial-Told setup judged fuel rows w)
