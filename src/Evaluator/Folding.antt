-- ===== src/Evaluator/Folding.antt =====
-- `_fold`, and what it does where a result is less known.
use admin_infra_proposed.Base.{◌≡◌, refl, ◌⊎◌, inl, Bool, true, false, List, [], ◌∷◌, arith}
use admin_infra_proposed.Evaluator.{Verdict, pass, unknown, fold, any_fail, all_pass}

-- The first result is unknown, or it is the second.
abbrev pub Below : Verdict → Verdict → Type 0
Below r r' = (r ≡ unknown) ⊎ (r ≡ r')

unfoldable pub AllBelow : List Verdict → List Verdict → Type 0
AllBelow [] [] = Unit {0}
AllBelow [] (r ∷ rs) = ◌≡◌ {A = Bool} true false
AllBelow (r ∷ rs) [] = ◌≡◌ {A = Bool} true false
AllBelow (r ∷ rs) (r' ∷ rs') = Below r r' × AllBelow rs rs'

any_fail-AllBelow :
    (rs rs' : List Verdict) → AllBelow rs rs' → any_fail rs ≡ true → any_fail rs' ≡ true
unfolding AllBelow any_fail
any_fail-AllBelow [] rs' h p = ground arith
any_fail-AllBelow (r ∷ rs) [] h p = ground (arith, h)
any_fail-AllBelow (r ∷ rs) (r' ∷ rs') h p = ground (arith, h, p, any_fail-AllBelow rs rs')

all_pass-AllBelow :
    (rs rs' : List Verdict)
    → AllBelow rs rs'
    → all_pass rs ≡ true
    → (all_pass rs' ≡ true) × (any_fail rs' ≡ false)
unfolding AllBelow all_pass any_fail
all_pass-AllBelow [] [] h p = (refl, refl)
all_pass-AllBelow [] (r' ∷ rs') h p = ground (arith, h)
all_pass-AllBelow (r ∷ rs) [] h p = ground (arith, h)
all_pass-AllBelow (r ∷ rs) (r' ∷ rs') h p = ground (arith, h, p, all_pass-AllBelow rs rs')

pub fold-AllBelow : (rs rs' : List Verdict) → AllBelow rs rs' → Below (fold rs) (fold rs')
unfolding fold AllBelow
fold-AllBelow [] rs' h = inl refl
fold-AllBelow (r ∷ rs) [] h = ground (arith, h)
fold-AllBelow (r ∷ rs) (r' ∷ rs') h =
    ground
      (arith, h, any_fail-AllBelow (r ∷ rs) (r' ∷ rs') h, all_pass-AllBelow (r ∷ rs) (r' ∷ rs') h)

pub fold_pass : (rs : List Verdict) → fold rs ≡ pass → all_pass rs ≡ true
unfolding fold
fold_pass [] h = ground (arith, h)
fold_pass (r ∷ rs) h = ground (arith, h)

pub fold_reclaims :
    (r : Verdict) (rs : List Verdict) → all_pass (r ∷ rs) ≡ true → fold (r ∷ rs) ≡ pass
unfolding fold any_fail all_pass
fold_reclaims r rs h = ground (arith, h, no_fail (r ∷ rs) h)
  where
    no_fail : (rs : List Verdict) → all_pass rs ≡ true → any_fail rs ≡ false
    no_fail [] h = refl
    no_fail (r ∷ rs) h = ground (arith, h, no_fail rs)
