-- ===== src/Jobs/Execute/Rows.antt =====
-- The RETRY rows of one step: numbered in order, and fewer than the attempts allowed.
use admin_infra_proposed.Base.{
  ℕ, zero, suc, ◌+◌, ◌-◌, ◌<◌, ◌≤◌, String, ◌≡◌, refl, sym, ap, ◌∙◌, List, [], ◌∷◌, ◌++◌, map,
  length, length-append, ◌=ℕ◌, arith,
}
use mathlib.Core.List.{append_assoc, map-append}
use mathlib.Core.Path.{subst, ap₂}
use admin_infra_proposed.Jobs.Types.{Mode}
use admin_infra_proposed.Jobs.Execute.Policy.{again_is_safe}
use admin_infra_proposed.Jobs.Execute.{
  Env, Limits, State, Ended, Outcome, returned, lost_lease, raised, Verdict, stop, again, RetryRow,
  call_step, pre_step, code_of, settle, judge_outcome, attempt_once, attempts, unless_stopped,
  max_attempts, execute_step,
}

abbrev pub one_less : ℕ → ℕ
one_less zero = zero
one_less (suc n) = n

pub one_less-eq : (n : ℕ) → one_less n ≡ n - 1
one_less-eq zero = omega arith
one_less-eq (suc n) = omega arith

-- The numbers a + n, …, a + 1.
abbrev pub numbers : ℕ → ℕ → List ℕ
numbers a zero = []
numbers a (suc n) = (a + suc n) ∷ numbers a n

numbers-suc : (a n : ℕ) → numbers (a + 1) n ++ (a + 1) ∷ [] ≡ numbers a (suc n)
numbers-suc a zero = refl
numbers-suc a (suc n) = ground (arith, numbers-suc a n)

abbrev pub attempt_of : RetryRow → ℕ
attempt_of row = row.attempt

abbrev pub step_of : RetryRow → String
step_of row = row.step

abbrev pub SameStep : String → List RetryRow → Type 0
SameStep name [] = Unit {0}
SameStep name (r ∷ rs) = (r.step ≡ name) × SameStep name rs

length-snoc : (new : List RetryRow) (row : RetryRow) → length (new ++ row ∷ []) ≡ suc (length new)
length-snoc new row = omega (arith, length-append new (row ∷ []))

numbers-snoc :
    (attempt : ℕ) (new : List RetryRow) (row : RetryRow)
    → row.attempt ≡ attempt + 1
    → map attempt_of new ≡ numbers (attempt + 1) (length new)
    → map attempt_of (new ++ row ∷ []) ≡ numbers attempt (length (new ++ row ∷ []))
numbers-snoc attempt new row e h =
    map-append attempt_of new (row ∷ [])
    ∙ (ap₂ (λ (l : List ℕ) (n : ℕ). l ++ n ∷ []) h e
        ∙ (numbers-suc attempt (length new) ∙ ap (numbers attempt) (sym (length-snoc new row))))

-- The rows that were added to `old`: theirs is the step `name`, and their numbers go up by one
-- from `attempt + 1`.
pub record Added (name : String) (attempt left : ℕ) (old rows : List RetryRow) : Type 0 where
  pub new : List RetryRow
  pub appended : rows ≡ new ++ old
  pub numbered : map attempt_of new ≡ numbers attempt (length new)
  pub named : SameStep name new
  pub fewer : length new ≤ left

SameStep-append :
    (name : String) (xs ys : List RetryRow)
    → SameStep name xs
    → SameStep name ys
    → SameStep name (xs ++ ys)
SameStep-append name [] ys h k = k
SameStep-append name (x ∷ xs) ys h k = (h.0, SameStep-append name xs ys h.1 k)

-- What one round adds, with `left` rounds after it.
abbrev pub Round : {W : Type 0} → String → ℕ → ℕ → List RetryRow → Verdict × State W → Type 0
Round name attempt left old (stop e, s) = s.rows ≡ old
Round name attempt left old (again, s) =
    (code : String) × (s.rows ≡ record { attempt = attempt + 1; step = name; code = code } ∷ old)
    × (0 < left)

module _ {W : Type 0} (env : Env W) (mode : Mode) (name : String) where
  settle-Round :
      (attempt left : ℕ) (o : Outcome) (old : List RetryRow) (v : Verdict × W)
      → (v.0 ≡ again → 0 < left)
      → Round name attempt left old (settle env name attempt o old v)
  unfolding settle
  settle-Round attempt left o old (stop e, w) h = refl
  settle-Round attempt left o old (again, w) h = (code_of env o, refl, h refl)

  judge_outcome_again :
      (left : ℕ) (o : Outcome) (w : W)
      → (judge_outcome env mode name (left =ℕ 0) o w).0 ≡ again
      → 0 < left
  unfolding judge_outcome
  judge_outcome_again left returned w h = cc
  judge_outcome_again left lost_lease w h = cc
  judge_outcome_again left (raised err) w h =
      ground (arith, again_is_safe env mode name (left =ℕ 0) err w h)

  pub attempt_once-Round :
      (attempt left : ℕ) (s : State W)
      → Round name attempt left s.rows (attempt_once env mode name attempt (left =ℕ 0) s)
  unfolding attempt_once
  attempt_once-Round attempt left s =
      let (o, w) = call_step env name (pre_step env name s.world) in
      settle-Round attempt left o s.rows (judge_outcome env mode name (left =ℕ 0) o w)
        (judge_outcome_again left o w)

  Added-next :
      (attempt left : ℕ) (code : String) (old rows : List RetryRow)
      → Added name
          (attempt + 1)
          left
          (record { attempt = attempt + 1; step = name; code = code } ∷ old)
          rows
      → Added name attempt (suc left) old rows
  Added-next attempt left code old rows a =
      let row : RetryRow = record { attempt = attempt + 1; step = name; code = code } in
      record {
        new = a.new ++ row ∷ [];
        appended = a.appended ∙ sym (append_assoc a.new (row ∷ []) old);
        numbered = numbers-snoc attempt a.new row refl a.numbered;
        named = SameStep-append name a.new (row ∷ []) a.named (refl, tt);
        fewer = omega (arith, length-append a.new (row ∷ []), a.fewer);
      }

  unless_stopped-rows :
      (attempt left : ℕ) (old : List RetryRow) (v : Verdict × State W)
      (go : State W → Ended × State W)
      → Round name attempt left old v
      → ((s : State W) → Added name (attempt + 1) (one_less left) s.rows (go s).1.rows)
      → Added name attempt left old (unless_stopped v go).1.rows
  unfolding unless_stopped
  unless_stopped-rows attempt left old (stop e, s) go r k = record {
    new = [];
    appended = r;
    numbered = refl;
    named = tt;
    fewer = omega arith;
  }
  unless_stopped-rows attempt (suc left) old (again, s) go (code, e, pos) k =
      Added-next attempt left code old (go s).1.rows
        (subst (λ (l : List RetryRow). Added name (attempt + 1) left l (go s).1.rows) e (k s))
  unless_stopped-rows attempt zero old (again, s) go (code, e, pos) k = elim pos [ ]

  attempts-rows :
      (left attempt : ℕ) (s : State W)
      → Added name attempt (one_less left) s.rows (attempts env mode name left attempt s).1.rows
  unfolding attempts
  attempts-rows zero attempt s = record {
    new = [];
    appended = refl;
    numbered = refl;
    named = tt;
    fewer = omega arith;
  }
  attempts-rows (suc left) attempt s =
      unless_stopped-rows attempt left s.rows (attempt_once env mode name attempt (left =ℕ 0) s)
        (attempts env mode name left (attempt + 1)) (attempt_once-Round attempt left s)
        (attempts-rows left (attempt + 1))

  -- The engine adds to the journal only RETRY rows of the step, numbered 2, 3, … in order, and
  -- one fewer at most than the attempts that the step is allowed.
  pub execute_step-rows :
      (limits : Limits) (s : State W)
      → Added name 1
          (max_attempts env limits mode name - 1)
          s.rows
          (execute_step env limits mode name s).1.rows
  unfolding execute_step
  execute_step-rows limits s =
      rw (← one_less-eq (max_attempts env limits mode name))
        (attempts-rows (max_attempts env limits mode name) 1 s)
