-- ===== src/Jobs/Loop/Bounded.antt =====
-- The loop always ends, and the fuel that it is given is enough.
use admin_infra_proposed.Base.{
  ℕ, zero, suc, ◌+◌, ◌-◌, ◌≤◌, ◌<◌, String, ◌≡◌, ◌≢◌, refl, Bool, List, [], ◌∷◌, from, arith,
}
use admin_infra_proposed.Jobs.Types.{Mode}
use admin_infra_proposed.Jobs.Execute.{Env, Limits, State}
use admin_infra_proposed.Jobs.Loop.{
  LoopEnd, fuel_spent, Mark, kept, quit, Visit, break_off, marked, go_back, Result, visit, restart,
  follow, next, loop, run_steps,
}
use admin_infra_proposed.Jobs.Loop.Complete.{
  IsQuit, Visited, visit-Visited, restart-kept, restart-quit,
}

module _ {W : Type 0} (env : Env W) (limits : Limits) (mode : Mode) (tracked : Bool)
    (names : List String) where
  abbrev Ends : Result W → Type 0
  Ends r = r.0 ≢ fuel_spent

  follow-Ends :
      (P : Type 0) (go : List String → State W → Result W) (m : Mark) (s : State W)
      → ((d : List String) → m ≡ kept d → P)
      → ((end : LoopEnd) (d : List String) → m ≡ quit end d → IsQuit end)
      → ((d : List String) (s : State W) → P → Ends (go d s))
      → Ends (follow env limits mode tracked names go (m, s))
  unfolding follow
  follow-Ends P go (kept d) s h q k = k d s (h d refl)
  follow-Ends P go (quit end d) s h q k = (q end d refl).1

  next-Ends :
      (on : List String → State W → Result W) (back : String → List String → State W → Result W)
      (rewinds : ℕ) (name : String) (done : List String) (v : Visit × State W)
      → Visited env limits mode tracked name done v
      → ((d : List String) (s : State W) → Ends (on d s))
      → ((point : String) (d : List String) (s : State W)
          → rewinds < limits.step_max - 1
          → Ends (back point d s))
      → Ends (next env limits mode tracked names on back rewinds done v)
  unfolding next follow
  next-Ends on back rewinds name done (break_off, s) v ko kb = λ p. cc
  next-Ends on back rewinds name done (marked (kept d), s) v ko kb = ko d s
  next-Ends on back rewinds name done (marked (quit end d), s) v ko kb = v.1
  next-Ends on back rewinds name done (go_back step point e, s) v ko kb =
      follow-Ends (rewinds < limits.step_max - 1) (back point)
        (restart env limits mode tracked names step point e rewinds done s).0
        (restart env limits mode tracked names step point e rewinds done s).1
        (λ d k. (restart-kept env limits mode tracked names step point e rewinds done d s k).2)
        (λ end d. restart-quit env limits mode tracked names step point e rewinds done d end s)
        (kb point)

  loop-Ends :
      (fuel : ℕ) (rest : List String) (rewinds : ℕ) (done : List String) (s : State W)
      → limits.step_max ≤ fuel + rewinds + 1
      → Ends (loop env limits mode tracked names fuel rest rewinds done s)
  unfolding loop
  loop-Ends fuel [] rewinds done s h = λ p. cc
  loop-Ends zero (name ∷ rest) rewinds done s h =
      next-Ends (loop env limits mode tracked names zero rest rewinds) _ rewinds name done
        (visit env limits mode tracked name done s)
        (visit-Visited env limits mode tracked name done s)
        (λ d s'. loop-Ends zero rest rewinds d s' h) (λ point d s' few. absurd (omega arith))
  loop-Ends (suc fuel) (name ∷ rest) rewinds done s h =
      next-Ends (loop env limits mode tracked names (suc fuel) rest rewinds) _ rewinds name done
        (visit env limits mode tracked name done s)
        (visit-Visited env limits mode tracked name done s)
        (λ d s'. loop-Ends (suc fuel) rest rewinds d s' h)
        (λ point d s' few. loop-Ends fuel (from point names) (rewinds + 1) d s' (omega arith))

  -- Whatever the steps do, and however often they ask for a restart, the loop over the steps ends
  -- by one of the ways that the source has, within the fuel that it is given.
  pub run_steps-ends :
      (done : List String) (s : State W)
      → (run_steps env limits mode tracked names done s).0 ≢ fuel_spent
  unfolding run_steps
  run_steps-ends done s = loop-Ends limits.step_max names 0 done s (omega arith)
