-- ===== src/StackLock/Interleaved.antt =====
-- The commands of several runs on the lock, in any order: a refinement of a mutex.
use admin_infra_proposed.Base.{
  String, Bool, true, false, not, ◌&&◌, Option, none, some, List, [], ◌∷◌, if◌then◌else◌, ◌≡◌, refl,
  sym, ◌∙◌, ap, ◌⊎◌, inl, inr, arith, contains, without, Option-cases, Bool-cases, eq_iff, eq_refl,
}
use admin_infra_proposed.StackLock.{
  LockData, Outcome, same_run, System, create_lock, read_lock, created, delete_lock, release_seen,
}
use admin_infra_proposed.StackLock.Mutex.{
  Laws, lock_of, took, was_held, was_traced, unsure, Moves, stays, takes, frees, read_lock_lem,
  delete_lock_lem, try-Acquires,
}

-- A command of a run: the creation of an acquisition, whose look for traces is behind it; the read
-- of a release; and the deletion of a release, whose read saw its own lock.
pub data Op : Type 0 where
  tries : String → String → String → Op
  begins : String → Op
  deletes : String → Op

abbrev pub actor : Op → String
actor (tries owner run_id now) = run_id
actor (begins run_id) = run_id
actor (deletes run_id) = run_id

-- `pending` are the runs between the read and the deletion of their release; a run is one process,
-- so it does nothing else meanwhile.
pub record Shared (W : Type 0) : Type 0 where
  pub world : W
  pub pending : List String

module _ {W : Type 0} (system : System W) where
  begun : String → List String → Option (Outcome (Unit {0})) → W → Shared W
  begun run_id pending none w = record { world = w; pending = run_id ∷ pending }
  begun run_id pending (some o) w = record { world = w; pending = pending }

  unfoldable pub step : Op → Shared W → Shared W
  unfolding begun created read_lock release_seen delete_lock
  step (tries owner run_id now) s = if contains run_id s.pending then s else record s {
    world = (created system (system.stack_kube (create_lock owner run_id now) s.world)).1;
  }
  step (begins run_id) s =
      let (o, w) = read_lock system s.world in
      if contains run_id s.pending then s else begun run_id s.pending (release_seen run_id o) w
  step (deletes run_id) s =
      if contains run_id s.pending
      then record {
        world = (delete_lock system s.world).1;
        pending = without (run_id ∷ []) s.pending;
      }
      else s

  unfoldable pub steps : List Op → Shared W → Shared W
  unfolding step
  steps [] s = s
  steps (op ∷ ops) s = steps ops (step op s)

-- At most one run is between the read and the deletion of its release, and it holds the lock.
pub data Exclusive (m : Option LockData) (pending : List String) : Type 0 where
  idle : pending ≡ [] → Exclusive m pending
  leaving :
      (run_id : String) (d : LockData)
      → pending ≡ run_id ∷ []
      → m ≡ some d
      → same_run d.run run_id ≡ true
      → Exclusive m pending

one_run :
    (run : Option String) (r r' : String) → same_run run r ≡ true → same_run run r' ≡ true → r ≡ r'
unfolding same_run
one_run none r r' h k = absurd (ground (arith, h))
one_run (some run) r r' h k = ground (arith, h, k, eq_iff run r, eq_iff run r')

seen_own :
    (run_id : String) (o : Option (Option LockData))
    → release_seen run_id o ≡ none
    → (d : LockData) × (o ≡ some (some d)) × (same_run d.run run_id ≡ true)
unfolding release_seen
seen_own run_id none h = absurd (ground (arith, h))
seen_own run_id (some none) h = absurd (ground (arith, h))
seen_own run_id (some (some d)) h = elim (Bool-cases (same_run d.run run_id)) [
  | inl own ↦ (d, refl, own)
  | inr other ↦ absurd (ground (arith, h, other))
]

-- The command is not one of the run that holds the lock.
abbrev pub spares : LockData → Op → Bool
spares d op = not (same_run d.run (actor op))

unfoldable pub all_spare : LockData → List Op → Bool
unfolding same_run
all_spare d [] = true
all_spare d (op ∷ ops) = spares d op && all_spare d ops

module _ {W : Type 0} (system : System W) (stored : W → Option LockData)
    (laws : Laws system stored) where
  -- A creation changes nothing, or takes a lock that was free.
  created-Moves :
      (owner run_id now : String) (w : W)
      → let w' = (created system (system.stack_kube (create_lock owner run_id now) w)).1 in
        (stored w' ≡ stored w) ⊎ ((stored w ≡ none) × (stored w' ≡ some (lock_of owner run_id now)))
  created-Moves owner run_id now w = elim (try-Acquires system stored laws owner run_id now w) [
    | took o free mine ↦ inr (free, mine)
    | was_held d o was same ↦ inl same
    | was_traced e o same ↦ inl same
    | unsure o either ↦ either
  ]

  alone :
      (run_id r : String) (pending : List String)
      → pending ≡ r ∷ []
      → contains run_id pending ≡ true
      → (run_id ≡ r) × (without (run_id ∷ []) pending ≡ [])
  unfolding contains without
  alone run_id r pending q h =
      let same : run_id ≡ r = ground (arith, ap (contains run_id) q, h, eq_iff run_id r) in
      (same, rw q (rw same (ground (arith, eq_refl r))))

  tries-Exclusive :
      (owner run_id now : String) (s : Shared W)
      → Exclusive (stored s.world) s.pending
      → let s' = step system (tries owner run_id now) s in
        Moves run_id (stored s.world) (stored s'.world) × Exclusive (stored s'.world) s'.pending
  unfolding step same_run
  tries-Exclusive owner run_id now s e = elim (Bool-cases (contains run_id s.pending)) [
    | inl busy ↦ rw busy (stays refl, e)
    | inr free ↦ rw free (elim (created-Moves owner run_id now s.world) [
      | inl same ↦ (stays same, rw same e)
      | inr (none_there, mine) ↦ (
        takes (lock_of owner run_id now) (eq_refl run_id) none_there mine,
        elim e [
          | idle p ↦ idle p
          | leaving r d p there own ↦ absurd (ground (arith, none_there, there))
        ],
      )
    ])
  ]

  begins-Exclusive :
      (run_id : String) (s : Shared W)
      → Exclusive (stored s.world) s.pending
      → let s' = step system (begins run_id) s in
        Moves run_id (stored s.world) (stored s'.world) × Exclusive (stored s'.world) s'.pending
  unfolding step contains
  begins-Exclusive run_id s e =
      let (keeps, shows) = read_lock_lem system stored laws s.world in
      elim (Bool-cases (contains run_id s.pending)) [
        | inl busy ↦ rw busy (stays refl, e)
        | inr free ↦
            rw free (elim (Option-cases (release_seen run_id (read_lock system s.world).0)) [
              | inr (o, ends) ↦ rw ends (stays keeps, rw keeps e)
              | inl own ↦
                  let (d, shown, mine) = seen_own run_id (read_lock system s.world).0 own in
                  rw own (
                    stays keeps,
                    elim e [
                      | idle p ↦
                          leaving run_id d (ap (λ l. run_id ∷ l) p) (keeps ∙ shows (some d) shown)
                            mine
                      | leaving r d' p there his ↦ absurd (
                          ground (
                            arith,
                            free,
                            ap (contains run_id) p,
                            eq_iff run_id r,
                            one_run d.run run_id r mine,
                            ap (λ m. elim m [ none ↦ false | some x ↦ same_run x.run r ])
                                (sym (shows (some d) shown) ∙ there),
                            his,
                          ))
                    ],
                  )
            ])
      ]

  deletes-Exclusive :
      (run_id : String) (s : Shared W)
      → Exclusive (stored s.world) s.pending
      → let s' = step system (deletes run_id) s in
        Moves run_id (stored s.world) (stored s'.world) × Exclusive (stored s'.world) s'.pending
  unfolding step contains
  deletes-Exclusive run_id s e = elim (Bool-cases (contains run_id s.pending)) [
    | inr free ↦ rw free (stays refl, e)
    | inl busy ↦ rw busy (elim e [
      | idle p ↦ absurd (ground (arith, busy, ap (contains run_id) p))
      | leaving r d p there own ↦
          let (same, empty) = alone run_id r s.pending p busy in
          (
            elim (delete_lock_lem system stored laws s.world).0 [
              | inl kept ↦ stays kept
              | inr gone ↦ frees d (rw same own) there gone
            ],
            idle empty,
          )
    ])
  ]

  pub step-Exclusive :
      (op : Op) (s : Shared W)
      → Exclusive (stored s.world) s.pending
      → let s' = step system op s in
        Moves (actor op) (stored s.world) (stored s'.world) × Exclusive (stored s'.world) s'.pending
  step-Exclusive (tries owner run_id now) s e = tries-Exclusive owner run_id now s e
  step-Exclusive (begins run_id) s e = begins-Exclusive run_id s e
  step-Exclusive (deletes run_id) s e = deletes-Exclusive run_id s e

  steps-Exclusive :
      (ops : List Op) (s : Shared W)
      → Exclusive (stored s.world) s.pending
      → Exclusive (stored (steps system ops s).world) (steps system ops s).pending
  unfolding steps
  steps-Exclusive [] s e = e
  steps-Exclusive (op ∷ ops) s e = steps-Exclusive ops (step system op s) (step-Exclusive op s e).1

  -- Whatever commands of acquisitions and releases have come in whatever order since no release was
  -- under way, the next command is a move of a mutex: it leaves the lock alone, takes it for its own
  -- run where it was free, or frees it where its own run held it. Nobody forces a release.
  pub steps-Moves :
      (ops : List Op) (op : Op) (w : W)
      → let s = steps system ops (record { world = w; pending = [] }) in
        Moves (actor op) (stored s.world) (stored (step system op s).world)
  steps-Moves ops op w =
      let s : Shared W = record { world = w; pending = [] } in
      (step-Exclusive op (steps system ops s) (steps-Exclusive ops s (idle refl))).0

  pub step-kept :
      (op : Op) (s : Shared W) (d : LockData)
      → Exclusive (stored s.world) s.pending
      → stored s.world ≡ some d
      → spares d op ≡ true
      → stored (step system op s).world ≡ some d
  step-kept op s d e there spared = elim (step-Exclusive op s e).0 [
    | stays same ↦ same ∙ there
    | takes d' own free mine ↦ absurd (ground (arith, free, there))
    | frees d' own here gone ↦ absurd (
        ground (
          arith,
          spared,
          ap (λ m. elim m [ none ↦ false | some x ↦ same_run x.run (actor op) ]) (sym there ∙ here),
          own,
        ))
  ]
