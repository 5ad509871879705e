-- ===== src/TrialManifest/Calls.antt =====
-- Sequences of calls on the manifest, and what they keep of its rows.
use admin_infra_proposed.Base.{
  ℕ, ◌<◌, String, Bool, true, false, Option, none, some, List, [], ◌∷◌, ◌≡◌, refl, subst, arith,
  if◌then◌else◌, ◌==◌, inl, inr, eq_iff, Option-cases, Bool-cases,
}
use admin_infra_proposed.TrialManifest.{
  TrialRow, Written, written_rows, refused, one, set_request, set_end, open_trial, bind_request,
  close_trial,
}

-- A call on the manifest, with the database's time where it reads the clock.
pub data Call : Type 0 where
  opens : String → ℕ → Call
  binds : String → String → Call
  closes : String → ℕ → Call

-- What is refused changes nothing.
abbrev after_call : Written → List TrialRow → List TrialRow
after_call (written_rows rows') rows = rows'
after_call (refused r) rows = rows

unfoldable pub call : Call → List TrialRow → List TrialRow
call (opens trial now) rows = after_call (open_trial trial now rows) rows
call (binds trial request) rows = after_call (bind_request trial request rows) rows
call (closes trial now) rows = after_call (close_trial trial now rows) rows

unfoldable pub calls : List Call → List TrialRow → List TrialRow
unfolding call
calls [] rows = rows
calls (c ∷ cs) rows = calls cs (call c rows)

-- Every trial that the calls open is opened later than this.
abbrev pub OpenAfter : ℕ → List Call → Type 0
OpenAfter t [] = Unit
OpenAfter t (opens trial now ∷ cs) = (t < now) × OpenAfter t cs
OpenAfter t (binds trial request ∷ cs) = OpenAfter t cs
OpenAfter t (closes trial now ∷ cs) = OpenAfter t cs

one-set_request :
    (n trial request : String) (rows : List TrialRow)
    → one n (set_request trial request rows) ≡ (
        if n == trial
        then (elim (one trial rows) [
          | none ↦ none
          | some r ↦ some (record r { request_id = some request })
        ])
        else one n rows)
unfolding one set_request
one-set_request n trial request [] = ground arith
one-set_request n trial request (r ∷ rows) = ground (
  arith,
  one-set_request n trial request rows,
  eq_iff r.trial_id n,
  eq_iff r.trial_id trial,
  eq_iff n trial,
)

one-set_end :
    (n trial : String) (now : ℕ) (rows : List TrialRow)
    → one n (set_end trial now rows) ≡ (
        if n == trial
        then (elim (one trial rows) [
          | none ↦ none
          | some r ↦ some (record r { ended_at = some now })
        ])
        else one n rows)
unfolding one set_end
one-set_end n trial now [] = ground arith
one-set_end n trial now (r ∷ rows) = ground (
  arith,
  one-set_end n trial now rows,
  eq_iff r.trial_id n,
  eq_iff r.trial_id trial,
  eq_iff n trial,
)

-- A trial that is bound and has ended.
abbrev pub closed : String → String → ℕ → ℕ → TrialRow
closed trial request from to = record {
  trial_id = trial;
  request_id = some request;
  started_at = from;
  ended_at = some to;
}

abbrev pub StartsAfter : ℕ → Option TrialRow → Type 0
StartsAfter t none = Unit {0}
StartsAfter t (some r) = t < r.started_at

bound : String → Option TrialRow → Option TrialRow
bound asked none = none
bound asked (some r) = elim r.request_id [
  | none ↦ some (record r { request_id = some asked })
  | some current ↦ if current == asked then some (record r { request_id = some asked }) else some r
]

ended : ℕ → Option TrialRow → Option TrialRow
ended now none = none
ended now (some r) = elim r.ended_at [
  | none ↦ some (record r { ended_at = some now })
  | some t ↦ some r
]

one-binds :
    (n asked m : String) (rows : List TrialRow)
    → one m (call (binds n asked) rows) ≡ (if m == n then bound asked (one n rows) else one m rows)
unfolding call bind_request bound
one-binds n asked m rows = elim (Option-cases (one n rows)) [
  | inl e ↦ ground (arith, e, eq_iff m n)
  | inr (r, e) ↦ elim (Option-cases r.request_id) [
    | inl q ↦ ground (arith, e, q, one-set_request m n asked rows, eq_iff m n)
    | inr (current, q) ↦ ground (arith, e, q, one-set_request m n asked rows, eq_iff m n)
  ]
]

one-closes :
    (n : String) (now : ℕ) (m : String) (rows : List TrialRow)
    → one m (call (closes n now) rows) ≡ (if m == n then ended now (one n rows) else one m rows)
unfolding call close_trial ended
one-closes n now m rows = elim (Option-cases (one n rows)) [
  | inl e ↦ ground (arith, e, eq_iff m n)
  | inr (r, e) ↦ elim (Option-cases r.ended_at) [
    | inl q ↦ ground (arith, e, q, one-set_end m n now rows, eq_iff m n)
    | inr (t, q) ↦ ground (arith, e, q, one-set_end m n now rows, eq_iff m n)
  ]
]

call_keeps :
    (c : Call) (trial request : String) (from to : ℕ) (rows : List TrialRow)
    → one trial rows ≡ some (closed trial request from to)
    → one trial (call c rows) ≡ some (closed trial request from to)
unfolding call open_trial one bound ended
call_keeps (opens n now) trial request from to rows h = elim (Option-cases (one n rows)) [
  | inl e ↦ ground (arith, e, h, eq_iff n trial)
  | inr (r, e) ↦ ground (arith, e, h)
]
call_keeps (binds n asked) trial request from to rows h =
    ground (arith, h, one-binds n asked trial rows, eq_iff trial n, eq_iff request asked)
call_keeps (closes n now) trial request from to rows h =
    ground (arith, h, one-closes n now trial rows, eq_iff trial n)

bound-StartsAfter :
    (t : ℕ) (asked : String) (o : Option TrialRow) → StartsAfter t o → StartsAfter t (bound asked o)
unfolding bound
bound-StartsAfter t asked none h = h
bound-StartsAfter t asked (some r) h = elim (Option-cases r.request_id) [
  | inl q ↦ rw (q, bound) h
  | inr (current, q) ↦ elim (Bool-cases (current == asked)) [
    | inl same ↦ rw (q, same, bound) h
    | inr other ↦ rw (q, other, bound) h
  ]
]

ended-StartsAfter :
    (t now : ℕ) (o : Option TrialRow) → StartsAfter t o → StartsAfter t (ended now o)
unfolding ended
ended-StartsAfter t now none h = h
ended-StartsAfter t now (some r) h = elim (Option-cases r.ended_at) [
  | inl q ↦ rw (q, ended) h
  | inr (end, q) ↦ rw (q, ended) h
]

-- What holds of the row of the call's trial after the call, and of the row asked for before it.
chosen_StartsAfter :
    (t : ℕ) (same : Bool) (changed kept : Option TrialRow)
    → (same ≡ true → StartsAfter t changed)
    → StartsAfter t kept
    → StartsAfter t (if same then changed else kept)
chosen_StartsAfter t true changed kept p q = p refl
chosen_StartsAfter t false changed kept p q = q

opened_StartsAfter :
    (t now : ℕ) (m n : String) (rows : List TrialRow)
    → t < now
    → StartsAfter t (one m rows)
    → StartsAfter t (one m (call (opens n now) rows))
unfolding call open_trial one
opened_StartsAfter t now m n rows later h = elim (Option-cases (one n rows)) [
  | inr (r, e) ↦ rw e h
  | inl e ↦ rw e (chosen_StartsAfter t (n == m) _ (one m rows) (λ same. later) h)
]

call-StartsAfter :
    (c : Call) (cs : List Call) (t : ℕ) (m : String) (rows : List TrialRow)
    → OpenAfter t (c ∷ cs)
    → StartsAfter t (one m rows)
    → StartsAfter t (one m (call c rows))
call-StartsAfter (opens n now) cs t m rows o h = opened_StartsAfter t now m n rows o.0 h
call-StartsAfter (binds n asked) cs t m rows o h = rw (one-binds n asked m rows) (
    chosen_StartsAfter t (m == n) (bound asked (one n rows)) (one m rows)
      (λ same.
        bound-StartsAfter t asked (one n rows)
          (subst (λ k. StartsAfter t (one k rows)) ((eq_iff m n).0 same) h))
      h)
call-StartsAfter (closes n now) cs t m rows o h = rw (one-closes n now m rows) (
    chosen_StartsAfter t (m == n) (ended now (one n rows)) (one m rows)
      (λ same.
        ended-StartsAfter t now (one n rows)
          (subst (λ k. StartsAfter t (one k rows)) ((eq_iff m n).0 same) h))
      h)

pub calls_keep :
    (cs : List Call) (trial request : String) (from to : ℕ) (rows : List TrialRow)
    → one trial rows ≡ some (closed trial request from to)
    → one trial (calls cs rows) ≡ some (closed trial request from to)
unfolding calls
calls_keep [] trial request from to rows h = h
calls_keep (c ∷ cs) trial request from to rows h =
    calls_keep cs trial request from to (call c rows) (call_keeps c trial request from to rows h)

pub calls-StartsAfter :
    (cs : List Call) (t : ℕ) (m : String) (rows : List TrialRow)
    → OpenAfter t cs
    → StartsAfter t (one m rows)
    → StartsAfter t (one m (calls cs rows))
unfolding calls
calls-StartsAfter [] t m rows o h = h
calls-StartsAfter (opens n now ∷ cs) t m rows o h =
    calls-StartsAfter cs t m (call (opens n now) rows) o.1
      (call-StartsAfter (opens n now) cs t m rows o h)
calls-StartsAfter (binds n asked ∷ cs) t m rows o h =
    calls-StartsAfter cs t m (call (binds n asked) rows) o
      (call-StartsAfter (binds n asked) cs t m rows o h)
calls-StartsAfter (closes n now ∷ cs) t m rows o h =
    calls-StartsAfter cs t m (call (closes n now) rows) o
      (call-StartsAfter (closes n now) cs t m rows o h)
