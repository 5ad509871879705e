-- ===== src/Removal/Recorded.antt =====
-- What the rows of operation_log prove of a deletion.
use admin_infra_proposed.Base.{
  ℕ, ◌<◌, String, ◌≡◌, refl, inl, inr, Bool, true, false, ◌&&◌, Option, none, some, List, [], ◌∷◌,
  ◌++◌, arith, Bool-cases, ltb,
}
use admin_infra_proposed.Removal.{
  AccountRow, is_evidence, is_creation, last_created, last_evidence, later_row,
}

-- The rows are numbered below the next id.
unfoldable pub ids_below : ℕ → List AccountRow → Bool
ids_below n [] = true
ids_below n (r ∷ log) = ltb r.id n && ids_below n log

pub last_created-append :
    (name : String) (log : List AccountRow) (r : AccountRow)
    → is_creation name r ≡ false
    → last_created name (log ++ r ∷ []) ≡ last_created name log
unfolding last_created
last_created-append name [] r h = ground (arith, h)
last_created-append name (s ∷ log) r h = ground (arith, last_created-append name log r h)

pub last_created-below :
    (name : String) (n : ℕ) (log : List AccountRow)
    → ids_below n log ≡ true
    → 0 < n
    → last_created name log < n
unfolding last_created ids_below
last_created-below name n [] h k = k
last_created-below name n (s ∷ log) h k = ground (arith, h, k, last_created-below name n log)

-- A new row that is no evidence changes nothing; one that is, is what is found next.
pub last_evidence-append :
    (name : String) (created : ℕ) (log : List AccountRow) (r : AccountRow)
    → is_evidence name created r ≡ false
    → last_evidence name created (log ++ r ∷ []) ≡ last_evidence name created log
unfolding last_evidence
last_evidence-append name created [] r h = rw h refl
last_evidence-append name created (s ∷ log) r h =
    rw (last_evidence-append name created log r h) refl

abbrev pub is_some {ℓ} : {A : Type ℓ} → Option A → Bool
is_some none = false
is_some (some a) = true

later_row-some : (r : AccountRow) (o : Option AccountRow) → is_some (later_row r o) ≡ true
unfolding later_row
later_row-some r none = refl
later_row-some r (some s) = ground arith

pub last_evidence-new :
    (name : String) (created : ℕ) (log : List AccountRow) (r : AccountRow)
    → is_evidence name created r ≡ true
    → is_some (last_evidence name created (log ++ r ∷ [])) ≡ true
unfolding last_evidence
last_evidence-new name created [] r h = rw h refl
last_evidence-new name created (s ∷ log) r h = elim (Bool-cases (is_evidence name created s)) [
  | inl counts ↦ rw counts (later_row-some s (last_evidence name created (log ++ r ∷ [])))
  | inr other ↦ rw other (last_evidence-new name created log r h)
]
