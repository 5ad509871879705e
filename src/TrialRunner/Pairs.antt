-- ===== src/TrialRunner/Pairs.antt =====
-- A creation trial and the revocation trial that follows it.
use admin_infra_proposed.Base.{
  ℕ, ◌≤◌, String, Option, none, some, List, ◌≡◌, refl, sym, ◌∙◌, ap, subst, arith, inl, inr, ◌==◌,
  eq_iff, Bool-cases, some_inj,
}
use admin_infra_proposed.TrialManifest.{TrialRow}
use admin_infra_proposed.TrialRunner.{
  Judged, Setup, TrialRecord, Ports, Run, ran, raised, run_trial, Pair, pair_ran, pair_raised,
  same_request, revoke_setup, revoke_ports, paired, created_run, run_pair,
}
use admin_infra_proposed.TrialRunner.Watching.{IsObserved}
use admin_infra_proposed.TrialRunner.Observed.{run_trial_lem}

same_request_lem :
    {W : Type 0} (request : String) (o : Option (String × W)) {got : String} {w : W}
    → same_request request o ≡ some (got, w)
    → (got ≡ request) × (o ≡ some (got, w))
unfolding same_request
same_request_lem request none h = absurd (cc h)
same_request_lem request (some (returned, v)) h = elim (Bool-cases (returned == request)) [
  | inl same ↦
      let k : some (returned, v) ≡ some (_, _) = rw same at h in
      (ap (λ p. p.0) (sym (some_inj k)) ∙ (eq_iff returned request).0 same, k)
  | inr other ↦ absurd (ground (arith, h, other))
]

module _ {W : Type 0} (ports : Ports W) (revoke_submit : String → W → Option (String × W))
    (revoke_declaration : W → Option String)
    (rises : (w w' : W) → ports.advance w ≡ some w' → ports.clock w ≤ ports.clock w')
    (on : (w : W) → ports.clock w ≤ ports.clock (ports.rests w))
    (submits : (w w' : W) (request : String)
      → ports.submit w ≡ some (request, w')
      → ports.clock w ≤ ports.clock w')
    (resubmits : (w w' : W) (asked request : String)
      → revoke_submit asked w ≡ some (request, w')
      → ports.clock w ≤ ports.clock w') where
  -- The ports of the second trial.
  abbrev pub second : String → Ports W
  second = revoke_ports ports revoke_submit revoke_declaration

  abbrev pub second_setup : Setup → String → TrialRecord → Setup
  second_setup = revoke_setup ports revoke_submit revoke_declaration

  -- What the two records tell, with the worlds between.
  abbrev pub PairTold : Setup → String → W → Pair W → Type 0
  PairTold setup trial w (pair_raised why rows) = Unit {0}
  PairTold setup trial w (pair_ran created revoked rows after) =
      (start at_end between start' at_end' : W) × IsObserved ports setup (ports.rests w) start
        created at_end
      × IsObserved (second created.request_id) (second_setup setup trial created) between start'
          revoked at_end'
      × (revoked.request_id ≡ created.request_id)
      × (revoke_submit created.request_id between ≡ some (created.request_id, start'))
      × (created.horizon_end ≤ revoked.submitted)
      × (ports.clock at_end' ≤ ports.clock after)

  paired-PairTold :
      (setup : Setup) (trial : String) (judged : Judged) (fuel : ℕ) (created : TrialRecord)
      (rows : List TrialRow) (w start at_end between : W) (run : Run W)
      → IsObserved ports setup (ports.rests w) start created at_end
      → ports.clock at_end ≤ ports.clock between
      → run_trial
          (second created.request_id)
          (second_setup setup trial created)
          judged
          fuel
          rows
          between
        ≡ run
      → PairTold setup trial w (paired ports revoke_submit revoke_declaration created run)
  unfolding paired revoke_ports
  paired-PairTold setup trial judged fuel created rows w start at_end between (raised why rows') o l
        p =
      tt
  paired-PairTold setup trial judged fuel created rows w start at_end between
        (ran revoked rows' after) o l p =
      let (start', at_end', got, o', l') =
        run_trial_lem (second created.request_id) rises on
          (λ v v' request q.
            resubmits v v' created.request_id request
              (same_request_lem created.request_id (revoke_submit created.request_id v) q).1)
          (second_setup setup trial created) judged fuel rows rows' between after revoked p in
      let (same, back) =
        same_request_lem created.request_id (revoke_submit created.request_id (ports.rests between))
          got in
      (
        start,
        at_end,
        ports.rests between,
        start',
        at_end',
        o,
        o',
        same,
        back ∙ ap (λ x. some (x, start')) same,
        omega (arith, o'.submitted_at, o.ended_at, l, on between),
        l',
      )

  created_run-PairTold :
      (setup : Setup) (trial : String) (judged judged' : Judged) (fuel : ℕ) (rows : List TrialRow)
      (w : W) (run : Run W)
      → run_trial ports setup judged fuel rows w ≡ run
      → PairTold setup trial w
          (created_run ports revoke_submit revoke_declaration setup trial judged' fuel run)
  unfolding created_run
  created_run-PairTold setup trial judged judged' fuel rows w (raised why rows') p = tt
  created_run-PairTold setup trial judged judged' fuel rows w (ran created rows' between) p =
      let (start, at_end, got, o, l) =
        run_trial_lem ports rises on submits setup judged fuel rows rows' w between created p in
      paired-PairTold setup trial judged' fuel created rows' w start at_end between
        (run_trial (second created.request_id) (second_setup setup trial created) judged' fuel rows'
          between)
        o l refl

  -- Where no call turns the clock back, and a pair returned: both records are true to their trials,
  -- as run_trial_lem states; the second trial is of the same request as the first, it is submitted
  -- no earlier than the first one's horizon ends, and it carries the first one's id and verdict at
  -- the horizon.
  pub run_pair_lem :
      (setup : Setup) (trial : String) (judged judged' : Judged) (fuel : ℕ)
      (rows rows' : List TrialRow) (w after : W) (created revoked : TrialRecord)
      → run_pair ports revoke_submit revoke_declaration setup trial judged judged' fuel rows w
        ≡ pair_ran created revoked rows' after
      → PairTold setup trial w (pair_ran created revoked rows' after)
        × (revoked.start_state
            ≡ some (record {
              creation_trial_id = setup.trial_id;
              creation_verdict = created.at_horizon;
            }))
  unfolding run_pair revoke_setup
  run_pair_lem setup trial judged judged' fuel rows rows' w after created revoked p =
      let told = subst (PairTold setup trial w) p (
        created_run-PairTold setup trial judged judged' fuel rows w
          (run_trial ports setup judged fuel rows w) refl) in
      (told, told.6.started_from)
