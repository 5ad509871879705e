-- ===== src/Controller/Turns.antt =====
-- Which jobs a turn of the controller starts, and that each job's turn comes.
use admin_infra_proposed.Base.{
  ℕ, suc, ◌+◌, ◌≤◌, ◌<◌, ◌≡◌, refl, Bool, true, false, not, ◌&&◌, ◌||◌, List, [], ◌∷◌, ◌++◌, arith,
  length, eq_iff, eq_refl, if◌then◌else◌,
}
use admin_infra_proposed.Controller.{
  FoundJob, same_job, is_running, job_done, jobs_done, visit_job, add_started, turn,
}

-- No job runs twice at a time.
unfoldable pub each_once : List FoundJob → Bool
each_once [] = true
each_once (j ∷ running) = not (is_running j running) && each_once running

job_done_lem :
    (j k : FoundJob) (running : List FoundJob)
    → (length (job_done j running) ≤ length running)
      × (is_running k (job_done j running) ≡ true → is_running k running ≡ true)
unfolding job_done is_running
job_done_lem j k [] = (omega arith, λ h. h)
job_done_lem j k (x ∷ running) = ground (arith, job_done_lem j k running)

job_done_once :
    (j : FoundJob) (running : List FoundJob)
    → each_once running ≡ true
    → each_once (job_done j running) ≡ true
unfolding job_done each_once
job_done_once j [] h = refl
job_done_once j (x ∷ running) h =
    ground (arith, h, job_done_once j running, job_done_lem j x running)

jobs_done_lem :
    (js running : List FoundJob)
    → each_once running ≡ true
    → (length (jobs_done js running) ≤ length running) × (each_once (jobs_done js running) ≡ true)
unfolding jobs_done
jobs_done_lem [] running h = (omega arith, h)
jobs_done_lem (j ∷ js) running h =
    let (shorter, once) = jobs_done_lem js (job_done j running) (job_done_once j running h) in
    (omega (arith, shorter, (job_done_lem j j running).0), once)

visit_job_lem :
    (workers : ℕ) (j : FoundJob) (running : List FoundJob)
    → each_once running ≡ true
    → length running ≤ workers
    → let running' = (visit_job workers j running).1 in
      (each_once running' ≡ true)
      × (length running' ≤ workers)
      × (length running' ≤ length running + 1)
      × (length running < workers → is_running j running' ≡ true)
unfolding visit_job each_once is_running
visit_job_lem workers j running h k = ground (arith, h, k, eq_refl j.kind, eq_refl j.request_id)

-- A turn keeps the bound on the jobs that run and runs no job twice, whatever ends in between.
pub turn_lem :
    (workers : ℕ) (jobs : List (List FoundJob × FoundJob)) (running : List FoundJob)
    → each_once running ≡ true
    → length running ≤ workers
    → (each_once (turn workers jobs running).1 ≡ true)
      × (length (turn workers jobs running).1 ≤ workers)
unfolding turn
turn_lem workers [] running h k = (h, k)
turn_lem workers ((ended, j) ∷ jobs) running h k =
    let (shorter, once) = jobs_done_lem ended running h in
    let (once', few, _, _) =
      visit_job_lem workers j (jobs_done ended running) once (omega (arith, shorter, k)) in
    added-turn (visit_job workers j (jobs_done ended running)).0 j
      (turn workers jobs (visit_job workers j (jobs_done ended running)).1)
      (turn_lem workers jobs (visit_job workers j (jobs_done ended running)).1 once' few)
  where
    added-turn :
        (b : Bool) (j : FoundJob) (r : List FoundJob × List FoundJob)
        → (each_once r.1 ≡ true) × (length r.1 ≤ workers)
        → (each_once (add_started b j r).1 ≡ true) × (length (add_started b j r).1 ≤ workers)
    added-turn true j r p = p
    added-turn false j r p = p

-- The jobs found, of which none ends while the list is gone through.
pub bare : List FoundJob → List (List FoundJob × FoundJob)
bare [] = []
bare (j ∷ js) = ([], j) ∷ bare js

-- The jobs found that were not started, which are found again.
pub remaining : List FoundJob → List FoundJob → List FoundJob
remaining started [] = []
remaining started (j ∷ js) =
    let rest = remaining started js in if is_running j started then rest else j ∷ rest

-- Rounds in which what a turn starts ends before the next turn, by its callback, and is then found
-- no more; a new job comes behind those found. The jobs that each round starts.
unfoldable pub rounds :
    ℕ → List (List FoundJob) → List FoundJob → List FoundJob → List (List FoundJob)
unfolding bare remaining jobs_done
rounds workers [] running found = []
rounds workers (new ∷ news) running found =
    let r = turn workers (bare found) running in
    r.0 ∷ rounds workers news (jobs_done r.0 r.1) (remaining r.0 found ++ new)

-- A job that is done does not run.
job_done_gone :
    (j k : FoundJob) (running : List FoundJob)
    → is_running k (job_done j running) ≡ true
    → (is_running k running ≡ true) × (same_job k j ≡ false)
unfolding job_done is_running
job_done_gone j k [] h = ground (arith, h)
job_done_gone j k (x ∷ running) h = ground (
  arith,
  h,
  job_done_gone j k running,
  eq_iff j.kind x.kind,
  eq_iff j.request_id x.request_id,
  eq_iff k.kind x.kind,
  eq_iff k.request_id x.request_id,
  eq_iff k.kind j.kind,
  eq_iff k.request_id j.request_id,
)

-- When every job that runs is done, none runs.
jobs_done_empties :
    (js running : List FoundJob)
    → ((k : FoundJob) → is_running k running ≡ true → is_running k js ≡ true)
    → jobs_done js running ≡ []
unfolding jobs_done is_running
jobs_done_empties [] [] h = refl
jobs_done_empties [] (x ∷ running) h =
    absurd (ground (arith, h x, eq_refl x.kind, eq_refl x.request_id))
jobs_done_empties (j ∷ js) running h =
    jobs_done_empties js (job_done j running)
      (λ k p. let gone = job_done_gone j k running p in ground (arith, h k gone.0, gone.1))

-- What runs after a turn ran before it or was started in it.
turn_runs :
    (workers : ℕ) (found running : List FoundJob) (k : FoundJob)
    → is_running k (turn workers (bare found) running).1 ≡ true
    → (is_running k (turn workers (bare found) running).0 || is_running k running) ≡ true
unfolding turn bare jobs_done visit_job is_running
turn_runs workers [] running k h = h
turn_runs workers (j ∷ found) running k h =
    ground (arith, h, turn_runs workers found running k, turn_runs workers found (j ∷ running) k)

started_end :
    (workers : ℕ) (found : List FoundJob)
    → let r = turn workers (bare found) [] in jobs_done r.0 r.1 ≡ []
unfolding is_running
started_end workers found =
    let r = turn workers (bare found) [] in
    jobs_done_empties r.0 r.1 (λ k h. ground (arith, turn_runs workers found [] k h))

unfoldable pub ever_started : FoundJob → List (List FoundJob) → Bool
ever_started j [] = false
ever_started j (started ∷ rest) = is_running j started || ever_started j rest

-- How many of the jobs found stand before this one.
unfoldable pub ahead : FoundJob → List FoundJob → ℕ
ahead j [] = 0
ahead j (k ∷ ks) = let rest = ahead j ks in if same_job j k then 0 else suc rest

first_started :
    (workers : ℕ) (x : FoundJob) (rest : List FoundJob)
    → is_running x (turn (suc workers) (bare (x ∷ rest)) []).0 ≡ true
unfolding turn bare jobs_done visit_job is_running
first_started workers x rest = ground (arith, eq_refl x.kind, eq_refl x.request_id)

same_running :
    (j k : FoundJob) (l : List FoundJob) → same_job j k ≡ true → is_running j l ≡ is_running k l
unfolding is_running
same_running j k [] h = refl
same_running j k (x ∷ l) h =
    ground (arith, h, same_running j k l h, eq_iff j.kind k.kind, eq_iff j.request_id k.request_id)

remaining_lem :
    (j : FoundJob) (started l : List FoundJob)
    → is_running j started ≡ false
    → is_running j l ≡ true
    → (is_running j (remaining started l) ≡ true) × (ahead j (remaining started l) ≤ ahead j l)
unfolding remaining is_running ahead
remaining_lem j started [] h k = ground (arith, k)
remaining_lem j started (x ∷ l) h k =
    ground (arith, h, k, remaining_lem j started l, same_running j x started)

behind :
    (j : FoundJob) (l new : List FoundJob)
    → is_running j l ≡ true
    → (is_running j (l ++ new) ≡ true) × (ahead j (l ++ new) ≡ ahead j l)
unfolding is_running ahead
behind j [] new h = ground (arith, h)
behind j (x ∷ l) new h = ground (arith, h, behind j l new)

-- The first job found is started, so another one that was not is found again with fewer before it.
next_round :
    (workers : ℕ) (j : FoundJob) (found new : List FoundJob)
    → is_running j found ≡ true
    → let started = (turn (suc workers) (bare found) []).0 in
      is_running j started ≡ false
      → (is_running j (remaining started found ++ new) ≡ true)
        × (ahead j (remaining started found ++ new) < ahead j found)
unfolding remaining is_running ahead
next_round workers j [] new h k = ground (arith, h)
next_round workers j (x ∷ rest) new h k =
    let started = (turn (suc workers) (bare (x ∷ rest)) []).0 in
    let first = first_started workers x rest in
    let alike = same_running j x started in
    let kept = remaining_lem j started rest in
    let last = behind j (remaining started rest) new in
    ground (arith, h, k, first, alike, kept, last)

-- A job that the log gives is started after at most as many turns as jobs stand before it, when
-- there is a worker at all and none is busy at first, what a turn starts has ended before the next
-- turn, so that its callback has taken it from the running jobs and it is found no more, and new
-- jobs come behind the ones found.
pub job_starts :
    (workers : ℕ) (j : FoundJob) (news : List (List FoundJob)) (found : List FoundJob)
    → is_running j found ≡ true
    → ahead j found < length news
    → ever_started j (rounds (suc workers) news [] found) ≡ true
unfolding rounds ever_started
job_starts workers j [] found h k = ground (arith, k)
job_starts workers j (new ∷ news) found h k =
    let started = (turn (suc workers) (bare found) []).0 in
    let next = next_round workers j found new h in
    let later = job_starts workers j news (remaining started found ++ new) in
    rw (started_end (suc workers) found) (ground (arith, k, next, later))
