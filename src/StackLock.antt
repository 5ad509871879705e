-- ===== src/StackLock.antt =====
-- The lock of an experiment's stack: harness/stack_lock.py. kubectl and the SQL of
-- harness/system.py are operations on a world that the model does not look into.
pub mod Mutex
pub mod Interleaved
pub mod Holding
mod Tests
use admin_infra_proposed.Base.{
  joined, has_text, is_blank, ℕ, String, Bool, true, false, not, ◌&&◌, ◌||◌, Option, none, some,
  List, [], ◌∷◌, ◌++◌, if◌then◌else◌, ◌=ℕ◌, ◌==◌, leb,
}

-- The data of the ConfigMap.
pub record LockData : Type 0 where
  pub owner : Option String
  pub run : Option String
  pub started_at : Option String

-- The answer of a command; stdout by its lines.
pub record Row : Type 0 where
  pub rc : ℕ
  pub stdout : List String
  pub stderr : String

-- The answer of a query: the first column of each row.
pub record SqlRow : Type 0 where
  pub rc : ℕ
  pub rows : List String

-- A call's end: a value, or LockHeld, LockUnknown or E2ETraceFound.
pub data Outcome {ℓ} (A : Type ℓ) : Type ℓ where
  returned : A → Outcome A
  lock_held : LockData → Outcome A
  lock_unknown : Outcome A
  e2e_trace_found : List String → Outcome A

-- How `hold` ends.
pub data Held {ℓ} (B : Type ℓ) : Type ℓ where
  not_taken : Outcome (Unit {0}) → Held B
  ended : B → Held B
  release_raised : Outcome (Unit {0}) → Held B

unfoldable pub already_exists : Row → Bool
already_exists row = has_text "AlreadyExists" row.stderr || has_text "already exists" row.stderr

unfoldable pub not_found : Row → Bool
not_found row = has_text "NotFound" row.stderr || has_text "not found" row.stderr

unfoldable pub found_lines : List String → List String
unfolding is_blank
found_lines [] = []
found_lines (l ∷ ls) = let rest = found_lines ls in if is_blank l then rest else l ∷ rest

unfoldable pub found_users : List String → List String
found_users [] = []
found_users (email ∷ rows) = joined "users.email=" email ∷ found_users rows

unfoldable pub same_run : Option String → String → Bool
same_run none run_id = false
same_run (some run) run_id = run == run_id

-- The commands.
abbrev pub get_lock : List String
get_lock = "get" ∷ "configmap" ∷ "experiment-lock" ∷ "-o" ∷ "json" ∷ []

abbrev pub create_lock : String → String → String → List String
create_lock owner run_id now =
    "create"
    ∷ "configmap"
    ∷ "experiment-lock"
    ∷ joined "--from-literal=owner=" owner
    ∷ joined "--from-literal=run=" run_id
    ∷ joined "--from-literal=started_at=" now
    ∷ []

abbrev pub remove_lock : List String
remove_lock = "delete" ∷ "configmap" ∷ "experiment-lock" ∷ []

abbrev pub get_policies : List String
get_policies = "get" ∷ "networkpolicy" ∷ "-l" ∷ "e2e-run" ∷ "-o" ∷ "name" ∷ []

-- `none` as an answer of the look for traces and of the read is LockUnknown.
--
-- `release` past its read: whether the lock is to be deleted, or how the call ends.
unfoldable pub release_seen : String → Option (Option LockData) → Option (Outcome (Unit {0}))
unfolding same_run
release_seen run_id (some none) = some (returned tt)
release_seen run_id (some (some d)) = if same_run d.run run_id then none else some (lock_held d)
release_seen run_id none = some lock_unknown

-- The system: kubectl and the SQL query, each `none` where the call itself fails, and the parser of
-- the ConfigMap, which gives `none` where the output is no such object.
pub record System (W : Type 0) : Type 1 where
  pub stack_kube : List String → W → Option Row × W
  pub stack_sql : W → Option SqlRow × W
  pub parse_data : List String → Option LockData

module _ {W : Type 0} (system : System W) where
  traces_of : SqlRow → Option Row × W → Option (List String) × W
  unfolding found_users found_lines
  traces_of sql (none, w) = (none, w)
  traces_of sql (some np, w) =
      if np.rc =ℕ 0 then (some (found_users sql.rows ++ found_lines np.stdout), w) else (none, w)

  traces_after : Option SqlRow × W → Option (List String) × W
  unfolding traces_of
  traces_after (none, w) = (none, w)
  traces_after (some sql, w) =
      if sql.rc =ℕ 0 then traces_of sql (system.stack_kube get_policies w) else (none, w)

  unfoldable pub e2e_traces : W → Option (List String) × W
  unfolding traces_after
  e2e_traces w = traces_after (system.stack_sql w)

  read_row : Option Row × W → Option (Option LockData) × W
  unfolding not_found
  read_row (none, w) = (none, w)
  read_row (some row, w) =
      if row.rc =ℕ 0
      then (elim (system.parse_data row.stdout) [ none ↦ none | some d ↦ some (some d) ], w)
      else ((if not_found row then some none else none), w)

  -- `read`
  unfoldable pub read_lock : W → Option (Option LockData) × W
  unfolding read_row
  read_lock w = read_row (system.stack_kube get_lock w)

  -- The lock that was there is read; one that is gone by then is not taken.
  seen : Option (Option LockData) × W → Outcome (Unit {0}) × W
  seen (some none, w) = (lock_unknown, w)
  seen (some (some d), w) = (lock_held d, w)
  seen (none, w) = (lock_unknown, w)

  unfoldable pub created : Option Row × W → Outcome (Unit {0}) × W
  unfolding already_exists seen read_lock
  created (none, w) = (lock_unknown, w)
  created (some row, w) =
      if row.rc =ℕ 0
      then (returned tt, w)
      else if already_exists row
      then seen (read_lock w)
      else (lock_unknown, w)

  acquire_after : String → String → String → Option (List String) × W → Outcome (Unit {0}) × W
  unfolding created
  acquire_after owner run_id now (some [], w) =
      created (system.stack_kube (create_lock owner run_id now) w)
  acquire_after owner run_id now (some (e ∷ es), w) = (e2e_trace_found (e ∷ es), w)
  acquire_after owner run_id now (none, w) = (lock_unknown, w)

  unfoldable pub acquire : String → String → String → W → Outcome (Unit {0}) × W
  unfolding acquire_after e2e_traces
  acquire owner run_id now w = acquire_after owner run_id now (e2e_traces w)

  deleted : Option Row × W → Outcome (Unit {0}) × W
  deleted (none, w) = (lock_unknown, w)
  deleted (some row, w) = if row.rc =ℕ 0 then (returned tt, w) else (lock_unknown, w)

  -- `_delete`
  unfoldable pub delete_lock : W → Outcome (Unit {0}) × W
  unfolding deleted
  delete_lock w = deleted (system.stack_kube remove_lock w)

  release_after : Option (Outcome (Unit {0})) → W → Outcome (Unit {0}) × W
  unfolding delete_lock
  release_after none w = delete_lock w
  release_after (some o) w = (o, w)

  unfoldable pub release_lock : String → W → Outcome (Unit {0}) × W
  unfolding release_seen release_after read_lock
  release_lock run_id w =
      let (data', w') = read_lock w in release_after (release_seen run_id data') w'

  -- `force_release`
  unfoldable pub force_release : W → Outcome (Unit {0}) × W
  unfolding delete_lock
  force_release w = delete_lock w

  release_held {ℓ} : {B : Type ℓ} → B → Outcome (Unit {0}) × W → Held B × W
  release_held b (returned u, w) = (ended b, w)
  release_held b (lock_held d, w) = (release_raised (lock_held d), w)
  release_held b (lock_unknown, w) = (release_raised lock_unknown, w)
  release_held b (e2e_trace_found e, w) = (release_raised (e2e_trace_found e), w)

  hold_acquired {ℓ} : {B : Type ℓ} → String → (W → B × W) → Outcome (Unit {0}) × W → Held B × W
  unfolding release_held release_lock
  hold_acquired run_id body (returned u, w) =
      let (b, w') = body w in release_held b (release_lock run_id w')
  hold_acquired run_id body (lock_held d, w) = (not_taken (lock_held d), w)
  hold_acquired run_id body (lock_unknown, w) = (not_taken lock_unknown, w)
  hold_acquired run_id body (e2e_trace_found e, w) = (not_taken (e2e_trace_found e), w)

  -- `hold`: the body's own value or exception, unless the lock is not taken or its release raises.
  unfoldable pub hold {ℓ} : {B : Type ℓ} → String → String → String → (W → B × W) → W → Held B × W
  unfolding acquire hold_acquired
  hold owner run_id now body w = hold_acquired run_id body (acquire owner run_id now w)
