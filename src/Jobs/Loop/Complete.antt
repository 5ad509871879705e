-- ===== src/Jobs/Loop/Complete.antt =====
-- When the loop ends by its test, no step of the plan is missing.
use mathlib.Core.List.{append_assoc, append-nil}
use mathlib.Core.Path.{subst}
use admin_infra_proposed.Base.{
  ℕ, zero, suc, ◌+◌, ◌-◌, ◌<◌, String, ◌≡◌, ◌≢◌, ◌∙◌, refl, sym, ◌⊎◌, inl, inr, Bool, true, not,
  ◌&&◌, ◌||◌, some, List, [], ◌∷◌, ◌++◌, arith, contains, contains-append, distinct, up_to, from,
  before, without, before-from, before-not-from, before_earlier, contains-without, eq_iff, eq_refl,
  Bool-cases, ◌==◌,
}
use admin_infra_proposed.Jobs.Types.{Mode, is_baseline, Failure, restart_of}
use admin_infra_proposed.Jobs.Execute.{
  Env, Limits, State, RetryRow, raised, Ended, finished, lease_gone, failed, degraded, rewind,
  Judgement, already_done, not_done, judge_raised, execute_step,
}
use admin_infra_proposed.Jobs.Execute.Restarts.{Asked, execute_step-Asked}
use admin_infra_proposed.Jobs.Loop.{
  always_rerun, is_deferred, mark_of, LoopEnd, completed, lease_left, handed_over, broke,
  fuel_spent, Mark, kept, quit, Visit, break_off, marked, go_back, Result, remember, mark_done,
  after, run_marked, judged, run_unmarked, visit, restart, follow, next, loop, run_steps,
}

-- The step is one that leaves no mark, or its mark is set.
abbrev pub is_settled : String → List String → Bool
is_settled name done = contains name always_rerun || is_deferred name || contains name done

-- Every step of `plan` is settled.
abbrev pub Settles : List String → List String → Type 0
Settles plan done = (m : String) → contains m plan ≡ true → is_settled m done ≡ true

abbrev pub Keeps : List String → List String → Type 0
Keeps done done' = (m : String) → contains m done ≡ true → contains m done' ≡ true

-- The ends of an exception.
abbrev pub IsQuit : LoopEnd → Type 0
IsQuit e = (e ≢ completed) × (e ≢ fuel_spent)

-- What a mark after the step `name` says of the steps done.
abbrev pub Marked : String → List String → Mark → Type 0
Marked name done (kept done') = Keeps done done' × (is_settled name done' ≡ true)
Marked name done (quit e done') = IsQuit e

module _ {W : Type 0} (env : Env W) (limits : Limits) (mode : Mode) (tracked : Bool) where
  abbrev pub Visited : String → List String → Visit × State W → Type 0
  Visited name done (break_off, s) = env.skipped s.world ≡ true
  Visited name done (marked m, s) = Marked name done m
  Visited name done (go_back step point e, s) =
      (w : W) × ((env.step name w).0 ≡ raised e) × (restart_of e ≡ some point)

  Keeps-snoc : (name : String) (done : List String) → Keeps done (done ++ name ∷ [])
  Keeps-snoc name done m h = rw (contains-append m done (name ∷ []), h)

  settled-snoc : (name : String) (done : List String) → is_settled name (done ++ name ∷ []) ≡ true
  unfolding contains
  settled-snoc name done = ground (arith, contains-append name done (name ∷ []), eq_refl name)

  pub remember-kept :
      (done d : List String) (s : State W)
      → (remember env limits mode tracked done s).0 ≡ kept d
      → d ≡ done
  unfolding remember
  remember-kept done d s h = ground arith

  remember-quit :
      (done d : List String) (end : LoopEnd) (s : State W)
      → (remember env limits mode tracked done s).0 ≡ quit end d
      → IsQuit end
  unfolding remember
  remember-quit done d end s h = ground arith

  Marked-kept :
      (name : String) (done done' : List String) (m : Mark)
      → ((d : List String) → m ≡ kept d → d ≡ done')
      → ((end : LoopEnd) (d : List String) → m ≡ quit end d → IsQuit end)
      → Keeps done done'
      → is_settled name done' ≡ true
      → Marked name done m
  Marked-kept name done done' (kept d) e q k h =
      subst (λ (l : List String). Keeps done l × (is_settled name l ≡ true)) (sym (e d refl)) (k, h)
  Marked-kept name done done' (quit end d) e q k h = q end d refl

  mark_done-Visited :
      (name : String) (done : List String) (s : State W)
      → Visited name done (mark_done env limits mode tracked name done s)
  unfolding mark_done
  mark_done-Visited name done s = elim (Bool-cases (is_deferred name)) [
    | inl late ↦ rw late ((λ m h. h), ground arith)
    | inr now ↦ rw now (
        Marked-kept name done (done ++ name ∷ []) _ (λ d. remember-kept (done ++ name ∷ []) d s)
          (λ end d. remember-quit (done ++ name ∷ []) d end s) (Keeps-snoc name done)
          (settled-snoc name done))
  ]

  after-Visited :
      (name : String) (done : List String) (ok : State W → Visit × State W) (r : Ended × State W)
      → ((s : State W) → Visited name done (ok s))
      → Asked env name r.0
      → Visited name done (after env limits mode tracked done ok r)
  unfolding after
  after-Visited name done ok (finished, s) k a = k s
  after-Visited name done ok (lease_gone, s) k a = ((λ p. cc), (λ p. cc))
  after-Visited name done ok (failed e, s) k a = ((λ p. cc), (λ p. cc))
  after-Visited name done ok (degraded n r e u, s) k a = ((λ p. cc), (λ p. cc))
  after-Visited name done ok (rewind n point e, s) k a = a

  run_marked-Visited :
      (name : String) (done : List String) (s : State W)
      → Visited name done (run_marked env limits mode tracked name done s)
  unfolding run_marked
  run_marked-Visited name done s =
      after-Visited name done _ (execute_step env limits mode name s) (mark_done-Visited name done)
        (execute_step-Asked env limits mode name s)

  judged-Visited :
      (name : String) (done : List String) (j : Judgement × W) (rows : List RetryRow)
      → Visited name done (judged env limits mode tracked name done j rows)
  unfolding judged
  judged-Visited name done (already_done, w) rows = mark_done-Visited name done _
  judged-Visited name done (not_done, w) rows = run_marked-Visited name done _
  judged-Visited name done (judge_raised e, w) rows = ((λ p. cc), (λ p. cc))

  run_unmarked-Visited :
      (name : String) (done : List String) (s : State W)
      → Visited name done (run_unmarked env limits mode tracked name done s)
  unfolding run_unmarked
  run_unmarked-Visited name done s =
      elim (Bool-cases (not (is_baseline mode) && name == "step_create_account")) [
        | inl look ↦ rw look (judged-Visited name done (env.judge name s.world) s.rows)
        | inr run ↦ rw run (run_marked-Visited name done s)
      ]

  pub visit-Visited :
      (name : String) (done : List String) (s : State W)
      → Visited name done (visit env limits mode tracked name done s)
  unfolding visit
  visit-Visited name done s = elim (Bool-cases (env.skipped s.world)) [
    | inl skip ↦ rw skip skip
    | inr stay ↦ rw stay (elim (Bool-cases (contains name always_rerun)) [
      | inl rerun ↦ rw rerun (
          after-Visited name done (λ s'. (marked (kept done), s'))
            (execute_step env limits mode name s) (λ s'. ((λ m h. h), rw rerun))
            (execute_step-Asked env limits mode name s))
      | inr once ↦ rw once (elim (Bool-cases (contains (mark_of name) done)) [
        | inl old ↦ rw old ((λ m h. h), ground (arith, old))
        | inr new ↦ rw new (run_unmarked-Visited name done s)
      ])
    ])
  ]

  module _ (names : List String) where
    pub restart-kept :
        (step point : String) (e : Failure) (rewinds : ℕ) (done d : List String) (s : State W)
        → (restart env limits mode tracked names step point e rewinds done s).0 ≡ kept d
        → (contains point names ≡ true)
          × (d ≡ without (from point names) done)
          × (rewinds < limits.step_max - 1)
    unfolding restart remember
    restart-kept step point e rewinds done d s h = ground arith

    pub restart-quit :
        (step point : String) (e : Failure) (rewinds : ℕ) (done d : List String) (end : LoopEnd)
        (s : State W)
        → (restart env limits mode tracked names step point e rewinds done s).0 ≡ quit end d
        → IsQuit end
    unfolding restart remember
    restart-quit step point e rewinds done d end s h = ground arith

  -- What the loop's end says of the plan.
  abbrev pub Covers : List String → Result W → Type 0
  Covers names (completed, done, s) = (env.skipped s.world ≡ true) ⊎ Settles names done
  Covers names (lease_left, done, s) = Unit {0}
  Covers names (handed_over n r e u, done, s) = Unit {0}
  Covers names (broke e, done, s) = Unit {0}
  Covers names (fuel_spent, done, s) = Unit {0}

  module _ (names : List String) (distinct_names : distinct names ≡ true)
      (backward : (name point : String) (e : Failure) (w : W)
        → (env.step name w).0 ≡ raised e
        → restart_of e ≡ some point
        → contains point names ≡ true
        → contains point (up_to name names) ≡ true) where
    Settles-without :
        (pre rest : List String) (name point : String) (done : List String)
        → names ≡ pre ++ name ∷ rest
        → contains point (up_to name names) ≡ true
        → Settles pre done
        → Settles (before point names) (without (from point names) done)
    Settles-without pre rest name point done split u h m b =
        let earlier : contains m pre ≡ true =
          before_earlier m point name pre rest (rw split at distinct_names) (rw split at u)
            (rw split at b) in
        ground (
          arith,
          h m earlier,
          contains-without m (from point names) done,
          before-not-from m point names distinct_names b,
        )

    quit-Covers :
        (end : LoopEnd) (done : List String) (s : State W)
        → IsQuit end
        → Covers names (end, done, s)
    quit-Covers completed done s h = absurd (h.0 refl)
    quit-Covers lease_left done s h = tt
    quit-Covers (handed_over n r e u) done s h = tt
    quit-Covers (broke e) done s h = tt
    quit-Covers fuel_spent done s h = tt

    follow-Covers :
        (P : List String → Type 0) (go : List String → State W → Result W) (m : Mark) (s : State W)
        → ((d : List String) → m ≡ kept d → P d)
        → ((end : LoopEnd) (d : List String) → m ≡ quit end d → IsQuit end)
        → ((d : List String) (s : State W) → P d → Covers names (go d s))
        → Covers names (follow env limits mode tracked names go (m, s))
    unfolding follow
    follow-Covers P go (kept d) s h q k = k d s (h d refl)
    follow-Covers P go (quit end d) s h q k = quit-Covers end d s (q end d refl)

    Settles-snoc :
        (pre : List String) (name : String) (done d : List String)
        → Settles pre done
        → Keeps done d
        → is_settled name d ≡ true
        → Settles (pre ++ name ∷ []) d
    unfolding contains
    Settles-snoc pre name done d h k n m i =
        ground (arith, contains-append m pre (name ∷ []), h m, k m, eq_iff m name)

    module _ (pre rest : List String) (name : String) (done : List String)
        (split : names ≡ pre ++ name ∷ rest) (settled : Settles pre done) where
      next-Covers :
          (on : List String → State W → Result W) (back : String → List String → State W → Result W)
          (rewinds : ℕ) (v : Visit × State W)
          → Visited name done v
          → ((d : List String) (s : State W) → Settles (pre ++ name ∷ []) d → Covers names (on d s))
          → ((point : String) (d : List String) (s : State W)
              → Settles (before point names) d
              → Covers names (back point d s))
          → Covers names (next env limits mode tracked names on back rewinds done v)
      unfolding next follow
      next-Covers on back rewinds (break_off, s) v ko kb = inl v
      next-Covers on back rewinds (marked (kept d), s) v ko kb =
          ko d s (Settles-snoc pre name done d settled v.0 v.1)
      next-Covers on back rewinds (marked (quit end d), s) v ko kb = quit-Covers end d s v
      next-Covers on back rewinds (go_back step point e, s) (w, r, a) ko kb =
          follow-Covers (Settles (before point names)) (back point)
            (restart env limits mode tracked names step point e rewinds done s).0
            (restart env limits mode tracked names step point e rewinds done s).1
            (λ d k.
              let p = restart-kept names step point e rewinds done d s k in
              subst (Settles (before point names)) (sym p.1) (
                Settles-without pre rest name point done split (backward name point e w r a p.0)
                  settled))
            (λ end d. restart-quit names step point e rewinds done d end s) (kb point)

    loop-Covers :
        (fuel : ℕ) (pre rest : List String) (rewinds : ℕ) (done : List String) (s : State W)
        → names ≡ pre ++ rest
        → Settles pre done
        → Covers names (loop env limits mode tracked names fuel rest rewinds done s)
    unfolding loop
    loop-Covers fuel pre [] rewinds done s split h =
        inr (subst (λ (l : List String). Settles l done) (sym (split ∙ append-nil pre)) h)
    loop-Covers zero pre (name ∷ rest) rewinds done s split h =
        next-Covers pre rest name done split h
          (loop env limits mode tracked names zero rest rewinds)
          (λ point done' s'. (fuel_spent, done', s')) rewinds
          (visit env limits mode tracked name done s) (visit-Visited name done s)
          (λ d s' k.
            loop-Covers zero (pre ++ name ∷ []) rest rewinds d s'
              (split ∙ sym (append_assoc pre (name ∷ []) rest)) k)
          (λ point d s' k. tt)
    loop-Covers (suc fuel) pre (name ∷ rest) rewinds done s split h =
        next-Covers pre rest name done split h
          (loop env limits mode tracked names (suc fuel) rest rewinds)
          (λ point. loop env limits mode tracked names fuel (from point names) (rewinds + 1))
          rewinds (visit env limits mode tracked name done s) (visit-Visited name done s)
          (λ d s' k.
            loop-Covers (suc fuel) (pre ++ name ∷ []) rest rewinds d s'
              (split ∙ sym (append_assoc pre (name ∷ []) rest)) k)
          (λ point d s' k.
            loop-Covers fuel (before point names) (from point names) (rewinds + 1) d s'
              (sym (before-from point names)) k)

    -- A loop that ends by its test, and not because a migration has no reason to move, leaves every
    -- step of the plan settled, if every restart goes back in the plan.
    pub run_steps-Covers :
        (done : List String) (s : State W)
        → Covers names (run_steps env limits mode tracked names done s)
    unfolding run_steps contains
    run_steps-Covers done s = loop-Covers limits.step_max [] names 0 done s refl (λ m h. cc)
