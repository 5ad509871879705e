-- ===== src/TrialRunner/Returns.antt =====
-- A trial in which no port raises returns its record, and leaves its row in the manifest closed.
use admin_infra_proposed.Base.{
  ℕ, zero, suc, ◌+◌, ◌<◌, ◌≤◌, String, true, false, none, some, List, ◌∷◌, ◌≡◌, refl, arith, inl,
  inr, ltb, Bool-cases, eq_refl,
}
use admin_infra_proposed.TrialManifest.{
  TrialRow, written_rows, one, set_request, set_end, open_trial, bind_request, close_trial,
}
use admin_infra_proposed.TrialManifest.Calls.{closed}
use admin_infra_proposed.TrialRunner.{
  Judged, Setup, TrialRecord, is_refused, Seen, nothing_seen, Ports, horizon_reached, ran, observe,
  watch, record_of, saved, closed_run, watched, bound_run, submitted_run, opened_run, run_trial,
}

-- The manifest through a trial whose id is new.
module _ (trial request : String) (from to : ℕ) (rows : List TrialRow) where
  abbrev opened : List TrialRow
  opened = record { trial_id = trial; request_id = none; started_at = from; ended_at = none } ∷ rows

  opens_new : one trial rows ≡ none → open_trial trial from rows ≡ written_rows opened
  unfolding open_trial
  opens_new h = ground (arith, h)

  binds_new : bind_request trial request opened ≡ written_rows (set_request trial request opened)
  unfolding bind_request one
  binds_new = ground (arith, eq_refl trial)

  closes_new :
      close_trial trial to (set_request trial request opened)
      ≡ written_rows (set_end trial to (set_request trial request opened))
  unfolding close_trial one set_request
  closes_new = ground (arith, eq_refl trial)

  closed_new :
      one trial (set_end trial to (set_request trial request opened))
      ≡ some (closed trial request from to)
  unfolding one set_request set_end
  closed_new = ground (arith, eq_refl trial)

-- No port raises, and the clock goes on.
pub record IsLive {W : Type 0} (ports : Ports W) : Type 0 where
  pub submits :
      (w : W)
      → (request : String) × (w' : W) × (ports.submit w ≡ some (request, w'))
        × (ports.clock w ≤ ports.clock w')
  pub advances : (w : W) → (w' : W) × (ports.advance w ≡ some w') × (ports.clock w < ports.clock w')
  pub saves : (r : TrialRecord) → ports.saves r ≡ true
  pub goes_on : (w : W) → ports.clock w ≤ ports.clock (ports.rests w)

module _ {W : Type 0} (ports : Ports W) (live : IsLive ports) where
  watch_returns :
      (setup : Setup) (left t : ℕ) (w : W) (seen : Seen)
      → t + setup.horizon ≤ ports.clock w + left
      → (w' : W) × (seen' : Seen) × (watch ports setup (suc left) t w seen
          ≡ horizon_reached w' seen')
  unfolding watch
  watch_returns setup zero t w seen h = (w, seen, rw (late, watch) refl)
    where
      late : ltb (ports.clock w) (t + setup.horizon) ≡ false
      late = ground (arith, h)
  watch_returns setup (suc left) t w seen h =
      elim (Bool-cases (ltb (ports.clock w) (t + setup.horizon))) [
        | inr late ↦ (w, seen, rw (late, watch) refl)
        | inl early ↦
            let (v, e, later) = live.advances w in
            let (w', seen', p) =
              watch_returns setup left t (ports.rests v) (observe ports setup v seen)
                (omega (arith, h, later, live.goes_on v)) in
            (w', seen', rw (early, e, watch) p)
      ]

  -- Where no port raises, that is, every submission, every wait and every writing of the record
  -- succeeds, and the clock goes on with every wait and is never turned back: a trial of valid
  -- arguments, whose id is new, returns its record within one round more than the horizon is long;
  -- its row in the manifest is then bound to the record's request and closed, between the
  -- database's times of its beginning and its end.
  pub run_trial_returns :
      (setup : Setup) (judged : Judged) (rows : List TrialRow) (w : W)
      → is_refused setup ≡ false
      → one setup.trial_id rows ≡ none
      → (r : TrialRecord) × (rows' : List TrialRow) × (w' : W) × (run_trial ports setup judged
            (suc setup.horizon)
            rows
            w
          ≡ ran r rows' (ports.rests w'))
        × (one setup.trial_id rows'
            ≡ some (
                closed setup.trial_id r.request_id
                  (ports.database_clock (ports.rests w))
                  (ports.database_clock w')))
  unfolding run_trial opened_run submitted_run bound_run watched closed_run saved record_of
  run_trial_returns setup judged rows w valid new =
      let before = ports.rests w in
      let (request, start, submitted, l) = live.submits before in
      let (w', seen, watched_to) =
        watch_returns setup setup.horizon (ports.clock before) start nothing_seen
          (omega (arith, l)) in
      let trial = setup.trial_id in
      let from = ports.database_clock before in
      let to = ports.database_clock (ports.rests w') in
      let r = record_of ports setup judged request (ports.clock before) w' seen in
      (
        r,
        set_end trial to (set_request trial request (opened trial request from to rows)),
        ports.rests w',
        rw
            (
              valid,
              opens_new trial request from to rows new,
              submitted,
              binds_new trial request from to rows,
              watched_to,
              closes_new trial request from to rows,
              live.saves r,
            )
            refl,
        closed_new trial request from to rows,
      )
