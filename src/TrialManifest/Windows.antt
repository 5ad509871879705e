-- ===== src/TrialManifest/Windows.antt =====
-- The windows of trials: a trial that has ended keeps its window, and a later trial shares no row of
-- the journal with it.
use admin_infra_proposed.Base.{
  ℕ, ◌<◌, String, Bool, true, false, ◌&&◌, Option, none, some, List, [], ◌∷◌, ◌≡◌, refl, sym, ◌∙◌,
  ap, subst, arith, some_inj, if◌then◌else◌, leb, ◌⊎◌, inl, inr, Option-cases, Bool-cases,
}
use admin_infra_proposed.TrialManifest.{
  TrialRow, LogEvent, one, by_end, in_window, events_in, events_of_row, insert_event, order_events,
  events_of,
}
use admin_infra_proposed.TrialManifest.Calls.{
  Call, calls, OpenAfter, closed, StartsAfter, calls_keep, calls-StartsAfter,
}

abbrev pub In : LogEvent → List LogEvent → Type 0
In e [] = ⊥
In e (x ∷ xs) = (e ≡ x) ⊎ In e xs

In-either :
    (e x y : LogEvent) (xs ys : List LogEvent) (b : Bool)
    → (In e xs → (e ≡ x) ⊎ In e ys)
    → In e (if b then y ∷ xs else x ∷ y ∷ ys)
    → (e ≡ x) ⊎ In e (y ∷ ys)
In-either e x y xs ys false deeper h = h
In-either e x y xs ys true deeper (inl p) = inr (inl p)
In-either e x y xs ys true deeper (inr k) = elim (deeper k) [ inl p ↦ inl p | inr q ↦ inr (inr q) ]

In-insert_event :
    (e x : LogEvent) (xs : List LogEvent) → In e (insert_event x xs) → (e ≡ x) ⊎ In e xs
unfolding insert_event
In-insert_event e x [] h = h
In-insert_event e x (y ∷ ys) h = In-either e x y (insert_event x ys) ys _ (In-insert_event e x ys) h

In-order_events : (e : LogEvent) (es : List LogEvent) → In e (order_events es) → In e es
unfolding order_events
In-order_events e [] h = h
In-order_events e (x ∷ es) h = elim (In-insert_event e x (order_events es) h) [
  | inl p ↦ inl p
  | inr q ↦ inr (In-order_events e es q)
]

In-events_in :
    (request : String) (r : TrialRow) (e : LogEvent) (log : List LogEvent)
    → In e (events_in request r log)
    → in_window request r e ≡ true
unfolding events_in
In-events_in request r e [] h = absurd h
In-events_in request r e (x ∷ log) h = elim (Bool-cases (in_window request r x)) [
  | inl there ↦ elim (let k : In e (x ∷ events_in request r log) = rw there at h in k) [
    | inl p ↦ ap (in_window request r) p ∙ there
    | inr q ↦ In-events_in request r e log q
  ]
  | inr out ↦ In-events_in request r e log (rw out at h)
]

In-events_of :
    (e : LogEvent) (trial : String) (rows : List TrialRow) (log es : List LogEvent) {r : TrialRow}
    → one trial rows ≡ some r
    → events_of trial rows log ≡ some es
    → In e es
    → (leb r.started_at e.created_at && by_end e.created_at r.ended_at) ≡ true
unfolding events_of
In-events_of e trial rows log es {r} found h m = elim (Option-cases r.request_id) [
  | inl q ↦
      let none_bound : events_of trial rows log ≡ some [] = rw (found, q, events_of) refl in
      absurd (subst (In e) (some_inj (sym h ∙ none_bound)) m)
  | inr (request, q) ↦
      let es' = order_events (events_in request r log) in
      let listed : events_of trial rows log ≡ some es' = rw (found, q, events_of) refl in
      let k =
        In-order_events e (events_in request r log) (subst (In e) (some_inj (sym h ∙ listed)) m) in
      ground (arith, In-events_in request r e log k)
]

events_same :
    (trial : String) (rows rows' : List TrialRow) (log : List LogEvent) {o : Option TrialRow}
    → one trial rows ≡ o
    → one trial rows' ≡ o
    → events_of trial rows log ≡ events_of trial rows' log
unfolding events_of
events_same trial rows rows' log p q = ap (λ o. events_of_row o log) (p ∙ sym q)

-- A trial that is bound and has ended keeps its rows of the journal, whatever is opened, bound or
-- closed afterwards; and a trial that is opened after its end, in whatever order the calls come,
-- shares no row of the journal with it, also where both are of one request.
pub later_trial_apart :
    (cs : List Call) (a b request : String) (from to : ℕ) (rows : List TrialRow)
    (log es_a es_b : List LogEvent) (e : LogEvent)
    → one a rows ≡ some (closed a request from to)
    → one b rows ≡ none
    → OpenAfter to cs
    → events_of a (calls cs rows) log ≡ some es_a
    → events_of b (calls cs rows) log ≡ some es_b
    → In e es_a
    → (events_of a rows log ≡ some es_a) × ¬ In e es_b
unfolding one events_of
later_trial_apart cs a b request from to rows log es_a es_b e ha hb o ea eb m =
    let kept = calls_keep cs a request from to rows ha in
    let early = In-events_of e a (calls cs rows) log es_a kept ea m in
    let later = calls-StartsAfter cs to b rows o (rw hb tt) in
    (
      events_same a rows (calls cs rows) log ha kept ∙ ea,
      λ n. elim (Option-cases (one b (calls cs rows))) [
        | inl gone ↦
            let raised : events_of b (calls cs rows) log ≡ none =
              events_same b (calls cs rows) [] log gone refl in
            cc (raised, eb)
        | inr (r, found) ↦
            let k = In-events_of e b (calls cs rows) log es_b found eb n in
            let after : to < r.started_at =
              let x : StartsAfter to (some r) = rw found at later in x in
            absurd (ground (arith, early, k, after))
      ],
    )
