-- ===== src/StackLock/Mutex.antt =====
-- The lock is a mutex, whatever commands of other runs come between those of one.
use admin_infra_proposed.Base.{
  String, true, false, Option, none, some, List, [], ◌∷◌, ◌=ℕ◌, ◌≡◌, refl, sym, ◌⊎◌, inl, inr,
  arith, Option-cases, Bool-cases,
}
use admin_infra_proposed.StackLock.{
  LockData, Row, Outcome, returned, lock_held, lock_unknown, e2e_trace_found, already_exists,
  not_found, same_run, System, get_policies, get_lock, create_lock, remove_lock, traces_of,
  traces_after, e2e_traces, read_row, read_lock, seen, created, acquire_after, acquire, deleted,
  delete_lock,
}

abbrev pub lock_of : String → String → String → LockData
lock_of owner run_id now = record { owner = some owner; run = some run_id; started_at = some now }

-- What kubectl does with the ConfigMap that a world holds. A command without a clear answer may have
-- been carried out or not.
pub record Laws {W : Type 0} (system : System W) (stored : W → Option LockData) : Type 0 where
  pub sql_keeps : (w : W) → stored (system.stack_sql w).1 ≡ stored w
  pub policies_keep : (w : W) → stored (system.stack_kube get_policies w).1 ≡ stored w
  pub get_keeps : (w : W) → stored (system.stack_kube get_lock w).1 ≡ stored w
  pub get_shows :
      (w : W) (row : Row) (d : LockData)
      → (system.stack_kube get_lock w).0 ≡ some row
      → (row.rc =ℕ 0) ≡ true
      → system.parse_data row.stdout ≡ some d
      → stored w ≡ some d
  pub get_misses :
      (w : W) (row : Row)
      → (system.stack_kube get_lock w).0 ≡ some row
      → (row.rc =ℕ 0) ≡ false
      → not_found row ≡ true
      → stored w ≡ none
  pub create_changes :
      (owner run_id now : String) (w : W)
      → let w' = (system.stack_kube (create_lock owner run_id now) w).1 in
        (stored w' ≡ stored w) ⊎ ((stored w ≡ none) × (stored w' ≡ some (lock_of owner run_id now)))
  pub create_succeeds :
      (owner run_id now : String) (w : W) (row : Row)
      → (system.stack_kube (create_lock owner run_id now) w).0 ≡ some row
      → (row.rc =ℕ 0) ≡ true
      → (stored w ≡ none)
        × (stored (system.stack_kube (create_lock owner run_id now) w).1
            ≡ some (lock_of owner run_id now))
  pub create_exists :
      (owner run_id now : String) (w : W) (row : Row)
      → (system.stack_kube (create_lock owner run_id now) w).0 ≡ some row
      → (row.rc =ℕ 0) ≡ false
      → already_exists row ≡ true
      → stored (system.stack_kube (create_lock owner run_id now) w).1 ≡ stored w
  pub delete_changes :
      (w : W)
      → let w' = (system.stack_kube remove_lock w).1 in (stored w' ≡ stored w) ⊎ (stored w' ≡ none)
  pub delete_succeeds :
      (w : W) (row : Row)
      → (system.stack_kube remove_lock w).0 ≡ some row
      → (row.rc =ℕ 0) ≡ true
      → stored (system.stack_kube remove_lock w).1 ≡ none

-- What an acquisition of the lock may do with what is stored, by its outcome.
pub data Acquires (mine : LockData) (m : Option LockData) (o : Outcome (Unit {0}))
    (m' : Option LockData) : Type 0 where
  took : o ≡ returned tt → m ≡ none → m' ≡ some mine → Acquires mine m o m'
  was_held : (d : LockData) → o ≡ lock_held d → m ≡ some d → m' ≡ m → Acquires mine m o m'
  was_traced : (e : List String) → o ≡ e2e_trace_found e → m' ≡ m → Acquires mine m o m'
  unsure : o ≡ lock_unknown → (m' ≡ m) ⊎ ((m ≡ none) × (m' ≡ some mine)) → Acquires mine m o m'

-- A move of the mutex by a run: only the run that holds the lock frees it.
pub data Moves (run_id : String) (m m' : Option LockData) : Type 0 where
  stays : m' ≡ m → Moves run_id m m'
  takes : (d : LockData) → same_run d.run run_id ≡ true → m ≡ none → m' ≡ some d → Moves run_id m m'
  frees : (d : LockData) → same_run d.run run_id ≡ true → m ≡ some d → m' ≡ none → Moves run_id m m'

module _ {W : Type 0} (system : System W) (stored : W → Option LockData)
    (laws : Laws system stored) where
  -- A read changes nothing, and what it returns is what is stored.
  pub read_lock_lem :
      (w : W)
      → (stored (read_lock system w).1 ≡ stored w)
        × ((m : Option LockData) → (read_lock system w).0 ≡ some m → stored w ≡ m)
  unfolding read_lock read_row
  read_lock_lem w = elim (Option-cases (system.stack_kube get_lock w).0) [
    | inl none_there ↦ (
      ground (arith, none_there, laws.get_keeps w),
      λ m h. absurd (ground (arith, none_there, h)),
    )
    | inr (row, there) ↦ elim (Option-cases (system.parse_data row.stdout)) [
      | inl p ↦ (
        ground (arith, there, p, laws.get_keeps w),
        λ m h. ground (arith, there, p, h, laws.get_misses w row there),
      )
      | inr (d, p) ↦ (
        ground (arith, there, p, laws.get_keeps w),
        λ m h.
            ground (arith, there, p, h, laws.get_shows w row d there, laws.get_misses w row there),
      )
    ]
  ]

  pub delete_lock_lem :
      (w : W)
      → ((stored (delete_lock system w).1 ≡ stored w) ⊎ (stored (delete_lock system w).1 ≡ none))
        × ((delete_lock system w).0 ≡ returned tt → stored (delete_lock system w).1 ≡ none)
  unfolding delete_lock deleted
  delete_lock_lem w = elim (Option-cases (system.stack_kube remove_lock w).0) [
    | inl none_there ↦ ground (arith, none_there, laws.delete_changes w)
    | inr (row, there) ↦
        ground (arith, there, laws.delete_changes w, laws.delete_succeeds w row there)
  ]

  seen-Acquires :
      (mine : LockData) (w : W)
      → let r = seen system (read_lock system w) in Acquires mine (stored w) r.0 (stored r.1)
  unfolding seen read_lock read_row
  seen-Acquires mine w = elim (Option-cases (system.stack_kube get_lock w).0) [
    | inl none_there ↦
        unsure (ground (arith, none_there)) (inl (ground (arith, none_there, laws.get_keeps w)))
    | inr (row, there) ↦ elim (Option-cases (system.parse_data row.stdout)) [
      | inl p ↦ unsure (ground (arith, there, p)) (inl (ground (arith, there, p, laws.get_keeps w)))
      | inr (d, p) ↦ elim (Bool-cases (row.rc =ℕ 0)) [
        | inl ok ↦
            was_held d (ground (arith, there, p, ok)) (laws.get_shows w row d there ok p)
              (ground (arith, there, p, ok, laws.get_keeps w))
        | inr bad ↦
            unsure (ground (arith, there, p, bad))
              (inl (ground (arith, there, p, bad, laws.get_keeps w)))
      ]
    ]
  ]

  -- The creation and what follows it, by kubectl's answer.
  created-Acquires :
      (mine : LockData) (w : W) (answer : Option Row × W)
      → (stored answer.1 ≡ stored w) ⊎ ((stored w ≡ none) × (stored answer.1 ≡ some mine))
      → ((row : Row)
          → answer.0 ≡ some row
          → (row.rc =ℕ 0) ≡ true
          → (stored w ≡ none) × (stored answer.1 ≡ some mine))
      → ((row : Row)
          → answer.0 ≡ some row
          → (row.rc =ℕ 0) ≡ false
          → already_exists row ≡ true
          → stored answer.1 ≡ stored w)
      → Acquires mine (stored w) (created system answer).0 (stored (created system answer).1)
  unfolding created
  created-Acquires mine w (none, w') changes succeeds exists = unsure refl changes
  created-Acquires mine w (some row, w') changes succeeds exists = elim (Bool-cases (row.rc =ℕ 0)) [
    | inl ok ↦ rw ok (took refl (succeeds row refl ok).0 (succeeds row refl ok).1)
    | inr bad ↦ elim (Bool-cases (already_exists row)) [
      | inl there ↦ rw bad (rw there (rw (sym (exists row refl bad there)) (seen-Acquires mine w')))
      | inr other ↦ rw bad (rw other (unsure refl changes))
    ]
  ]

  pub try-Acquires :
      (owner run_id now : String) (w : W)
      → let r = created system (system.stack_kube (create_lock owner run_id now) w) in
        Acquires (lock_of owner run_id now) (stored w) r.0 (stored r.1)
  try-Acquires owner run_id now w =
      created-Acquires (lock_of owner run_id now) w
        (system.stack_kube (create_lock owner run_id now) w)
        (laws.create_changes owner run_id now w) (laws.create_succeeds owner run_id now w)
        (laws.create_exists owner run_id now w)

  e2e_traces-keep : (w : W) → stored (e2e_traces system w).1 ≡ stored w
  unfolding e2e_traces traces_after traces_of
  e2e_traces-keep w = elim (Option-cases (system.stack_sql w).0) [
    | inl none_there ↦ ground (arith, none_there, laws.sql_keeps w)
    | inr (sql, there) ↦
        elim (Option-cases (system.stack_kube get_policies (system.stack_sql w).1).0) [
          | inl p ↦
              ground (arith, there, p, laws.sql_keeps w, laws.policies_keep (system.stack_sql w).1)
          | inr (np, p) ↦
              ground (arith, there, p, laws.sql_keeps w, laws.policies_keep (system.stack_sql w).1)
        ]
  ]

  -- An acquisition takes the lock only where it was free, and knows when it did; where it says that
  -- the lock is held, it was, with the data that it tells, and nothing changed; nothing changed
  -- where traces were found; and where it does not know, it may have taken a lock that was free.
  pub acquire-Acquires :
      (owner run_id now : String) (w : W)
      → let r = acquire system owner run_id now w in
        Acquires (lock_of owner run_id now) (stored w) r.0 (stored r.1)
  unfolding acquire
  acquire-Acquires owner run_id now w = rw (sym (e2e_traces-keep w)) (after (e2e_traces system w))
    where
      after :
          (traces : Option (List String) × W)
          → let r = acquire_after system owner run_id now traces in
            Acquires (lock_of owner run_id now) (stored traces.1) r.0 (stored r.1)
      after (some [], w) = try-Acquires owner run_id now w
      after (some (e ∷ es), w) = was_traced (e ∷ es) refl refl
      after (none, w) = unsure refl (inl refl)
