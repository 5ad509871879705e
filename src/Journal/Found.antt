-- ===== src/Journal/Found.antt =====
-- Which rows `find_unfinished_jobs` gives, and in which place a job stands there.
use admin_infra_proposed.Base.{
  ℕ, zero, suc, ◌≤◌, ◌<◌, String, ◌≡◌, refl, Bool, true, false, not, ◌&&◌, ◌||◌, List, [], ◌∷◌,
  ◌++◌, arith, if◌then◌else◌, ltb, ◌=ℕ◌, ◌==◌, ◌∙◌, eq_iff, eq_refl,
}
use admin_infra_proposed.Journal.{LogRow, has_end, is_unfinished, unfinished_of, take}

pub has_end-append :
    (a r : String) (id : ℕ) (log log' : List LogRow)
    → has_end a r id (log ++ log') ≡ has_end a r id log || has_end a r id log'
unfolding has_end
has_end-append a r id [] log' = refl
has_end-append a r id (e ∷ log) log' = ground (arith, has_end-append a r id log log')

-- Every row has an id below `n`.
unfoldable pub ids_below : ℕ → List LogRow → Bool
ids_below n [] = true
ids_below n (e ∷ log) = ltb e.id n && ids_below n log

pub no_end_yet :
    (a r : String) (n : ℕ) (log : List LogRow) → ids_below n log ≡ true → has_end a r n log ≡ false
unfolding ids_below has_end
no_end_yet a r n [] h = refl
no_end_yet a r n (e ∷ log) h = ground (arith, h, no_end_yet a r n log)

-- More rows take jobs off, and put none on.
pub is_unfinished-append :
    (log log' : List LogRow) (s : LogRow)
    → is_unfinished (log ++ log') s
      ≡ is_unfinished log s && not (has_end s.action s.request_id s.id log')
unfolding is_unfinished
is_unfinished-append log log' s = ground (arith, has_end-append s.action s.request_id s.id log log')

unfoldable pub has_id : ℕ → List LogRow → Bool
has_id id [] = false
has_id id (s ∷ rows) = s.id =ℕ id || has_id id rows

-- How many unfinished jobs of the log stand before the row `id`.
unfoldable pub place : List LogRow → ℕ → List LogRow → ℕ
place log id [] = 0
place log id (s ∷ rows) =
    let rest = place log id rows in
    if s.id =ℕ id then 0 else if is_unfinished log s then suc rest else rest

pub place-append :
    (log log' : List LogRow) (id : ℕ) (rows rows' : List LogRow)
    → has_id id rows ≡ true
    → place (log ++ log') id (rows ++ rows') ≤ place log id rows
unfolding place has_id
place-append log log' id [] rows' h = ground (arith, h)
place-append log log' id (s ∷ rows) rows' h =
    ground (arith, h, place-append log log' id rows rows', is_unfinished-append log log' s)

-- The first row with the id is this job's, and it is unfinished.
unfoldable pub stands : List LogRow → String → String → ℕ → List LogRow → Bool
stands log a r id [] = false
stands log a r id (s ∷ rows) =
    let rest = stands log a r id rows in
    if s.id =ℕ id then (s.action == a && s.request_id == r) && is_unfinished log s else rest

pub stands-has_id :
    (log : List LogRow) (a r : String) (id : ℕ) (rows : List LogRow)
    → stands log a r id rows ≡ true
    → has_id id rows ≡ true
unfolding stands has_id
stands-has_id log a r id [] h = ground (arith, h)
stands-has_id log a r id (s ∷ rows) h = ground (arith, h, stands-has_id log a r id rows)

stays_unfinished :
    (log log' : List LogRow) (a r : String) (s : LogRow)
    → (s.action == a && s.request_id == r) ≡ true
    → has_end a r s.id log' ≡ false
    → is_unfinished log s ≡ true
    → is_unfinished (log ++ log') s ≡ true
stays_unfinished log log' a r s k h u =
    let same_action = (eq_iff s.action a).0 (ground (arith, k)) in
    let same_request = (eq_iff s.request_id r).0 (ground (arith, k)) in
    is_unfinished-append log log' s ∙ rw (same_action) (rw (same_request) (ground (arith, u, h)))

pub stands-append :
    (log log' : List LogRow) (a r : String) (id : ℕ) (rows rows' : List LogRow)
    → stands log a r id rows ≡ true
    → has_end a r id log' ≡ false
    → stands (log ++ log') a r id (rows ++ rows') ≡ true
unfolding stands
stands-append log log' a r id [] rows' h k = ground (arith, h)
stands-append log log' a r id (s ∷ rows) rows' h k =
    ground (arith, h, k, stands-append log log' a r id rows rows', stays_unfinished log log' a r s)

-- An unfinished job is among the first `limit` ones when fewer than `limit` stand before it.
pub stands-take :
    (log : List LogRow) (a r : String) (id limit : ℕ) (rows : List LogRow)
    → stands log a r id rows ≡ true
    → place log id rows < limit
    → has_id id (take limit (unfinished_of log rows)) ≡ true
unfolding has_id place stands unfinished_of take
stands-take log a r id limit [] h k = ground (arith, h)
stands-take log a r id zero (s ∷ rows) h k = absurd (omega (arith, k))
stands-take log a r id (suc limit) (s ∷ rows) h k =
    ground (arith, h, k, stands-take log a r id limit rows, stands-take log a r id (suc limit) rows)

-- A row that is put at the end of the log stands there, as an id of its own.
pub stands-new :
    (log : List LogRow) (s : LogRow) (rows : List LogRow)
    → ids_below s.id rows ≡ true
    → is_unfinished log s ≡ true
    → stands log s.action s.request_id s.id (rows ++ s ∷ []) ≡ true
unfolding stands ids_below
stands-new log s [] h u = ground (arith, u, eq_refl s.action, eq_refl s.request_id)
stands-new log s (x ∷ rows) h u = ground (arith, h, stands-new log s rows)
