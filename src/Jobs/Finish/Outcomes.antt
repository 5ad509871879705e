-- ===== src/Jobs/Finish/Outcomes.antt =====
-- What the result row of a job says about what was done.
use admin_infra_proposed.Base.{
  String, ◌≡◌, ◌≢◌, ◌∙◌, refl, ◌⊎◌, Bool, true, not, ◌&&◌, Option, none, some, List, [], ◌∷◌,
  contains, Bool-cases, arith, inl, inr,
}
use admin_infra_proposed.Jobs.Types.{
  Mode, is_baseline, Kind, Phase, success, fail, Failure, is_unknown,
}
use admin_infra_proposed.Jobs.Plan.{Job, job_steps}
use admin_infra_proposed.Jobs.Execute.{Env, Limits}
use admin_infra_proposed.Jobs.Loop.{completed, lease_left, handed_over, broke, fuel_spent, Result}
use admin_infra_proposed.Jobs.Loop.Complete.{Settles, Covers}
use admin_infra_proposed.Jobs.Loop.Planned.{AsksAsWritten, run_steps-plan}
use admin_infra_proposed.Jobs.Finish.{
  Undone, ResultRow, present, Store, Event, result_written, result_refused, compensate, make_call,
  record_result, release_lease, finish, finish_undone, conclude, interrupt, run_loop, run_input,
  is_fresh, end_phase, error_code_of, is_provision,
}

-- The result row that a run tried to write.
unfoldable pub row_of : List Event → Option ResultRow
row_of [] = none
row_of (result_written row ∷ events) = some row
row_of (result_refused row ∷ events) = some row
row_of (e ∷ events) = row_of events

module _ {W : Type 0} (store : Store W) where
  row_of-finish :
      (tracked : Bool) (row : ResultRow) (w : W) → row_of (finish store tracked row w).0 ≡ some row
  unfolding finish record_result release_lease make_call row_of
  row_of-finish tracked row w = ground arith

  row_of-finish_undone :
      (tracked : Bool) (phase : Phase) (code : String) (u : Option Undone × W)
      → row_of (finish_undone store tracked phase code u).0
        ≡ some (record { phase = phase; error_code = some code; undone = u.0 })
  unfolding finish_undone
  row_of-finish_undone tracked phase code (u, w) = row_of-finish tracked _ w

  end_phase-ne-success : (mode : Mode) (u : Bool) → end_phase mode u ≢ success
  unfolding end_phase
  end_phase-ne-success mode u h = ground arith

  conclude_success :
      (mode : Mode) (kind : Kind) (tracked : Bool) (r : Result W) (row : ResultRow)
      → row_of (conclude store mode kind tracked r).0 ≡ some row
      → row.phase ≡ success
      → r.0 ≡ completed
  unfolding conclude row_of
  conclude_success mode kind tracked (completed, done, s) row h p = refl
  conclude_success mode kind tracked (lease_left, done, s) row h p = cc
  conclude_success mode kind tracked (handed_over step reason e u, done, s) row h p =
      ground (arith, row_of-finish tracked _ s.world ∙ refl, h)
  conclude_success mode kind tracked (broke e, done, s) row h p = absurd (
      end_phase-ne-success mode (is_unknown e) (
        cc (
          h,
          p,
          row_of-finish_undone tracked (end_phase mode (is_unknown e)) (error_code_of e)
              (compensate store kind done s.world),
        )))
  conclude_success mode kind tracked (fuel_spent, done, s) row h p = cc

  -- What an undone account says of the run that undid it.
  pub conclude_undone :
      (mode : Mode) (kind : Kind) (tracked : Bool) (r : Result W) (row : ResultRow) (u : Undone)
      → row_of (conclude store mode kind tracked r).0 ≡ some row
      → row.undone ≡ some u
      → (is_provision store kind ≡ true)
        × (contains "step_create_krb5_principal" r.1 ≡ true)
        × ((e : Failure) × (r.0 ≡ broke e))
  unfolding conclude row_of compensate
  conclude_undone mode kind tracked (completed, done, s) row u h p =
      ground (arith, row_of-finish tracked _ s.world ∙ refl, h)
  conclude_undone mode kind tracked (lease_left, done, s) row u h p = cc
  conclude_undone mode kind tracked (handed_over step reason e u', done, s) row u h p =
      ground (arith, row_of-finish tracked _ s.world ∙ refl, h)
  conclude_undone mode kind tracked (broke e, done, s) row u h p =
      let q =
        row_of-finish_undone tracked (end_phase mode (is_unknown e)) (error_code_of e)
          (compensate store kind done s.world) in
      (ground (arith, q, h, p), ground (arith, q, h, p), (e, refl))
  conclude_undone mode kind tracked (fuel_spent, done, s) row u h p = cc

  interrupt_fails :
      (kind : Kind) (tracked : Bool) (done : List String) (w : W) (row : ResultRow)
      → row_of (interrupt store kind tracked done w).0 ≡ some row
      → row.phase ≢ success
  unfolding interrupt
  interrupt_fails kind tracked done w row h p = cc (
    h,
    p,
    row_of-finish_undone tracked fail "INTERRUPTED"
        (compensate store kind done (store.forget_place w)),
  )

  module _ (env : Env W) (limits : Limits) (mode : Mode) (kind : Kind) (tracked : Bool) where
    -- A SUCCESS row of a job whose input is there means that the loop ended by its test, and that
    -- the job was skipped, or every step of its plan is recorded as done, those apart that run again
    -- in every run (ALWAYS_RERUN) and step_build_pod_spec, which is recorded with the step after it.
    -- The steps may do and raise anything, but those that ask for a restart ask for the one that the
    -- source names.
    pub success_means_done :
        (done : List String) (job : Job) (w : W) (row : ResultRow)
        → AsksAsWritten env
        → row_of (run_input store env limits mode kind tracked done (present job, w)).0 ≡ some row
        → row.phase ≡ success
        → let (end, done', s) =
            run_loop store env limits mode kind tracked job done
              (store.prepare (store.mark_running w).1) in
          (end ≡ completed)
          × ((env.skipped s.world ≡ true) ⊎ Settles (job_steps mode kind job) done')
    unfolding run_input row_of
    success_means_done done job w row asks h p =
        let w' = store.prepare (store.mark_running w).1 in
        let r = run_loop store env limits mode kind tracked job done w' in
        elim (Bool-cases (store.mark_running w).0) [
          | inr stops ↦ absurd (ground (arith, h, stops))
          | inl goes ↦
              elim (Bool-cases
                (not (is_fresh store env limits mode kind tracked done) && is_baseline mode)) [
                  | inl cut ↦
                      absurd (interrupt_fails kind tracked done w' row (rw (goes, cut) at h) p)
                  | inr on ↦
                      let end = conclude_success mode kind tracked r row (rw (goes, on) at h) p in
                      (
                        end,
                        covered r end (
                            unfold run_loop in
                            run_steps-plan env limits mode tracked kind job asks done
                              (record { world = w'; rows = [] })),
                      )
                ]
        ]
      where
        covered :
            (r : Result W)
            → r.0 ≡ completed
            → Covers env limits mode tracked (job_steps mode kind job) r
            → (env.skipped r.2.world ≡ true) ⊎ Settles (job_steps mode kind job) r.1
        covered (completed, done', s) e c = c
        covered (lease_left, done', s) e c = cc
        covered (handed_over n x y z, done', s) e c = cc
        covered (broke x, done', s) e c = cc
        covered (fuel_spent, done', s) e c = cc
