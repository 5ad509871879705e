-- ===== src/StackLock/Holding.antt =====
-- A run that holds the lock keeps it, and gives it back.
use admin_infra_proposed.Base.{
  String, Bool, true, false, Option, none, some, List, [], ◌∷◌, ◌≡◌, refl, ap, inl, inr, arith,
  Option-cases, eq_refl,
}
use admin_infra_proposed.StackLock.{
  LockData, Outcome, returned, lock_held, lock_unknown, e2e_trace_found, same_run, System,
  read_lock, release_seen, acquire, release_lock, release_after, hold, hold_acquired, release_held,
  ended,
}
use admin_infra_proposed.StackLock.Mutex.{
  Laws, lock_of, Acquires, took, was_held, was_traced, unsure, read_lock_lem, delete_lock_lem,
  acquire-Acquires,
}
use admin_infra_proposed.StackLock.Interleaved.{
  Op, Shared, step, steps, Exclusive, idle, all_spare, step-Exclusive, step-kept,
}

abbrev pub returns : Outcome (Unit {0}) → Bool
returns (returned u) = true
returns _ = false

module _ {W : Type 0} (system : System W) (stored : W → Option LockData)
    (laws : Laws system stored) where
  steps-kept :
      (ops : List Op) (s : Shared W) (d : LockData)
      → Exclusive (stored s.world) s.pending
      → stored s.world ≡ some d
      → all_spare d ops ≡ true
      → stored (steps system ops s).world ≡ some d
  unfolding steps all_spare
  steps-kept [] s d e there spared = there
  steps-kept (op ∷ ops) s d e there spared =
      steps-kept ops (step system op s) d (step-Exclusive system stored laws op s e).1
        (step-kept system stored laws op s d e there (ground (arith, spared)))
        (ground (arith, spared))

  taken :
      (owner run_id now : String) (w : W) (d : LockData)
      → stored w ≡ some d
      → returns (acquire system owner run_id now w).0 ≡ false
  taken owner run_id now w d there = elim (acquire-Acquires system stored laws owner run_id now w) [
    | took o free mine ↦ absurd (ground (arith, free, there))
    | was_held d' o was same ↦ ap returns o
    | was_traced e o same ↦ ap returns o
    | unsure o either ↦ ap returns o
  ]

  -- Once a run holds the lock, no commands of other runs, in whatever order, take it away or change
  -- its data, and no acquisition succeeds in the meantime.
  pub held_until_release :
      (ops : List Op) (w : W) (d : LockData) (owner run_id now : String)
      → stored w ≡ some d
      → all_spare d ops ≡ true
      → let s = steps system ops (record { world = w; pending = [] }) in
        (stored s.world ≡ some d) × (returns (acquire system owner run_id now s.world).0 ≡ false)
  held_until_release ops w d owner run_id now there spared =
      let s : Shared W = record { world = w; pending = [] } in
      let kept = steps-kept ops s d (idle refl) there spared in
      (kept, taken owner run_id now (steps system ops s).world d kept)

  -- A release of one's own lock that returns has removed it.
  release_own :
      (run_id : String) (w : W) (d : LockData)
      → stored w ≡ some d
      → same_run d.run run_id ≡ true
      → (release_lock system run_id w).0 ≡ returned tt
      → stored (release_lock system run_id w).1 ≡ none
  unfolding release_lock release_after release_seen
  release_own run_id w d there own h =
      let (keeps, shows) = read_lock_lem system stored laws w in
      elim (Option-cases (read_lock system w).0) [
        | inl p ↦ absurd (ground (arith, h, p))
        | inr (m, p) ↦ elim (Option-cases m) [
          | inl q ↦ absurd (ground (arith, shows m p, q, there))
          | inr (d', q) ↦ ground (
            arith,
            h,
            p,
            q,
            own,
            shows m p,
            there,
            delete_lock_lem system stored laws (read_lock system w).1,
          )
        ]
      ]

  -- `hold`, where the body leaves the lock alone: a body that ran to its end, and whose lock could be
  -- released, ran with the lock that was taken, on a stack that was free before and is free again.
  pub hold_lem {ℓ} :
      {B : Type ℓ} (owner run_id now : String) (body : W → B × W) (w : W) {b : B}
      → ((v : W)
          → stored v ≡ some (lock_of owner run_id now)
          → stored (body v).1 ≡ some (lock_of owner run_id now))
      → (hold system owner run_id now body w).0 ≡ ended b
      → (stored w ≡ none)
        × (stored (hold system owner run_id now body w).1 ≡ none)
        × ((v : W) × (stored v ≡ some (lock_of owner run_id now)) × ((body v).0 ≡ b))
  unfolding hold same_run
  hold_lem {B = B} owner run_id now body w {b} keeps h =
      after (acquire system owner run_id now w)
        (acquire-Acquires system stored laws owner run_id now w) h
    where
      released :
          (x : B) (r : Outcome (Unit {0}) × W)
          → (r.0 ≡ returned tt → stored r.1 ≡ none)
          → (release_held system x r).0 ≡ ended b
          → (stored (release_held system x r).1 ≡ none) × (x ≡ b)
      released x (returned u, v) gone e = (gone refl, ground (arith, e))
      released x (lock_held d, v) gone e = absurd (ground (arith, e))
      released x (lock_unknown, v) gone e = absurd (ground (arith, e))
      released x (e2e_trace_found t, v) gone e = absurd (ground (arith, e))

      after :
          (r : Outcome (Unit {0}) × W)
          → Acquires (lock_of owner run_id now) (stored w) r.0 (stored r.1)
          → (hold_acquired system run_id body r).0 ≡ ended b
          → (stored w ≡ none)
            × (stored (hold_acquired system run_id body r).1 ≡ none)
            × ((v : W) × (stored v ≡ some (lock_of owner run_id now)) × ((body v).0 ≡ b))
      after (returned u, v) (took o free mine) e =
          let gone =
            release_own run_id (body v).1 (lock_of owner run_id now) (keeps v mine)
              (eq_refl run_id) in
          let (empty, same) = released (body v).0 (release_lock system run_id (body v).1) gone e in
          (free, empty, (v, mine, same))
      after (returned u, v) (was_held d o was same) e = absurd (ground (arith, o))
      after (returned u, v) (was_traced t o same) e = absurd (ground (arith, o))
      after (returned u, v) (unsure o either) e = absurd (ground (arith, o))
      after (lock_held d, v) a e = absurd (ground (arith, e))
      after (lock_unknown, v) a e = absurd (ground (arith, e))
      after (e2e_trace_found t, v) a e = absurd (ground (arith, e))
