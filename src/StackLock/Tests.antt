-- ===== src/StackLock/Tests.antt =====
-- A system that keeps the ConfigMap, with two runs on it.
use Prim.Native.String.{len, slice}
use text.Mathlib.TextPositions.{len-append, slice-append_right}
use admin_infra_proposed.Base.{
  ℕ, String, true, false, Option, none, some, List, [], ◌∷◌, if◌then◌else◌, ◌=ℕ◌, ◌==◌, ◌≡◌, refl,
  ◌∙◌, ap, ◌⊎◌, inl, inr, arith, joined,
}
use admin_infra_proposed.StackLock.{
  LockData, Row, same_run, System, create_lock, acquire, acquire_after, release_lock, hold, ended,
  e2e_traces, traces_of, traces_after, read_row, read_lock, created, deleted, delete_lock,
  release_seen, release_after, found_lines, found_users, hold_acquired, release_held,
}
use admin_infra_proposed.StackLock.Mutex.{Laws, lock_of, Acquires, acquire-Acquires, Moves}
use admin_infra_proposed.StackLock.Interleaved.{
  Op, tries, begins, deletes, step, steps, steps-Moves, all_spare,
}
use admin_infra_proposed.StackLock.Holding.{returns, held_until_release}

abbrev World : Type 0
World = Option (String × String × String)

abbrev row : ℕ → List String → String → Row
row rc stdout stderr = record { rc = rc; stdout = stdout; stderr = stderr }

abbrev cut : String → String → String
cut prefix s = slice s (len prefix) (len s)

abbrev create : String → String → String → World → Option Row × World
create o r t none = (
  some (row 0 [] ""),
  some (
    cut "--from-literal=owner=" o,
    cut "--from-literal=run=" r,
    cut "--from-literal=started_at=" t,
  ),
)
create o r t (some lock) = (some (row 1 [] "Error: AlreadyExists"), some lock)

abbrev get : World → Option Row × World
get none = (some (row 1 [] "Error: NotFound"), none)
get (some (o, r, t)) = (some (row 0 (o ∷ r ∷ t ∷ []) ""), some (o, r, t))

abbrev delete : World → Option Row × World
delete none = (some (row 1 [] "Error: NotFound"), none)
delete (some lock) = (some (row 0 [] ""), none)

abbrev kube : List String → World → Option Row × World
kube (v ∷ k ∷ n ∷ o ∷ r ∷ t ∷ []) w =
    if v == "create" then create o r t w else (some (row 0 [] ""), w)
kube (v ∷ k ∷ n ∷ o ∷ r ∷ []) w = get w
kube (v ∷ k ∷ n ∷ []) w = delete w
kube _ w = (none, w)

abbrev parse : List String → Option LockData
parse (o ∷ r ∷ t ∷ []) = some (lock_of o r t)
parse _ = none

abbrev stored : World → Option LockData
stored none = none
stored (some (o, r, t)) = some (lock_of o r t)

abbrev system : System World
system = record {
  stack_kube = kube;
  stack_sql = λ w. (some (record { rc = 0; rows = [] }), w);
  parse_data = parse;
}

cut-joined : (s t : String) → cut s (joined s t) ≡ t
cut-joined s t = ap (slice (joined s t) (len s)) (len-append s t) ∙ slice-append_right s t

create_stores :
    (o r t : String)
    → stored
        (create
          (joined "--from-literal=owner=" o)
          (joined "--from-literal=run=" r)
          (joined "--from-literal=started_at=" t)
          none).1
      ≡ some (lock_of o r t)
create_stores o r t =
    rw (cut-joined "--from-literal=owner=" o) (
      rw (cut-joined "--from-literal=run=" r) (rw (cut-joined "--from-literal=started_at=" t) refl))

abbrev run_create : String → String → String → World → Option Row × World
run_create o r t w = kube (create_lock o r t) w

abbrev parsed : Option Row → Option LockData
parsed none = none
parsed (some x) = parse x.stdout

get_shows :
    (w : World) (x : Row) (d : LockData)
    → (get w).0 ≡ some x
    → (x.rc =ℕ 0) ≡ true
    → parse x.stdout ≡ some d
    → stored w ≡ some d
get_shows none x d p q s = absurd (ground (arith, p, q))
get_shows (some (o, r, t)) x d p q s = ap parsed p ∙ s

get_misses : (w : World) (x : Row) → (get w).0 ≡ some x → (x.rc =ℕ 0) ≡ false → stored w ≡ none
get_misses none x p q = refl
get_misses (some (o, r, t)) x p q = absurd (ground (arith, p, q))

get_keeps : (w : World) → stored (get w).1 ≡ stored w
get_keeps none = refl
get_keeps (some (o, r, t)) = refl

create_changes :
    (o r t : String) (w : World)
    → (stored (run_create o r t w).1 ≡ stored w)
      ⊎ ((stored w ≡ none) × (stored (run_create o r t w).1 ≡ some (lock_of o r t)))
create_changes o r t none = inr (refl, create_stores o r t)
create_changes o r t (some (o', r', t')) = inl refl

create_succeeds :
    (o r t : String) (w : World) (x : Row)
    → (run_create o r t w).0 ≡ some x
    → (x.rc =ℕ 0) ≡ true
    → (stored w ≡ none) × (stored (run_create o r t w).1 ≡ some (lock_of o r t))
create_succeeds o r t none x p q = (refl, create_stores o r t)
create_succeeds o r t (some (o', r', t')) x p q = absurd (ground (arith, p, q))

create_exists :
    (o r t : String) (w : World) (x : Row)
    → (run_create o r t w).0 ≡ some x
    → (x.rc =ℕ 0) ≡ false
    → stored (run_create o r t w).1 ≡ stored w
create_exists o r t none x p q = absurd (ground (arith, p, q))
create_exists o r t (some (o', r', t')) x p q = refl

delete_changes : (w : World) → stored (delete w).1 ≡ none
delete_changes none = refl
delete_changes (some (o, r, t)) = refl

laws : Laws system stored
laws = record {
  sql_keeps = λ w. refl;
  policies_keep = λ w. refl;
  get_keeps = get_keeps;
  get_shows = get_shows;
  get_misses = λ w x p q s. get_misses w x p q;
  create_changes = create_changes;
  create_succeeds = create_succeeds;
  create_exists = λ o r t w x p q s. create_exists o r t w x p q;
  delete_changes = λ w. inr (delete_changes w);
  delete_succeeds = λ w x p q. delete_changes w;
}

abbrev seven : World → ℕ × World
seven w = (7, w)

abbrev lock : World
lock = some ("harness", "run-1", "10:00")

acquire-Acquires_example :
    let r = acquire system "e2e" "run-2" "10:05" lock in
    Acquires (lock_of "e2e" "run-2" "10:05") (stored lock) r.0 (stored r.1)
acquire-Acquires_example = acquire-Acquires system stored laws "e2e" "run-2" "10:05" lock

abbrev two_runs : List Op
two_runs =
    tries "harness" "run-1" "10:00"
    ∷ tries "e2e" "run-2" "10:05"
    ∷ begins "run-1"
    ∷ begins "run-2"
    ∷ []

steps-Moves_example :
    let s = steps system two_runs (record { world = none; pending = [] }) in
    Moves "run-1" (stored s.world) (stored (step system (deletes "run-1") s).world)
steps-Moves_example = steps-Moves system stored laws two_runs (deletes "run-1") none

abbrev others : List Op
others = tries "e2e" "run-2" "10:05" ∷ begins "run-2" ∷ deletes "run-2" ∷ []

others_spare : all_spare (lock_of "harness" "run-1" "10:00") others ≡ true
unfolding all_spare same_run
others_spare = refl

held_until_release_example :
    let s = steps system others (record { world = lock; pending = [] }) in
    (stored s.world ≡ stored lock)
    × (returns (acquire system "e2e" "run-3" "10:06" s.world).0 ≡ false)
held_until_release_example =
    held_until_release system stored laws others lock (lock_of "harness" "run-1" "10:00") "e2e"
      "run-3" "10:06" refl others_spare

held_once : (hold system "harness" "run-1" "10:00" seven none).0 ≡ ended 7
unfolding hold acquire acquire_after e2e_traces traces_after traces_of found_lines found_users
    created hold_acquired release_held release_lock release_seen release_after same_run read_lock
    read_row delete_lock deleted
held_once = refl
