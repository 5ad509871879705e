-- ===== src/Base/Lists.antt =====
-- Lists measured by native numbers, and membership tests on lists of texts.
use Prim.Native.Nat.{ℕ, suc, ◌+◌}
use Prim.Native.String.{String}
use mathlib.Core.Path.{◌≡◌, refl, ap}
use mathlib.Core.Bool.{Bool, true, false, not, ◌&&◌, ◌||◌}
use mathlib.Core.List.{List, [], ◌∷◌, ◌++◌}
use native.Mathlib.Omega.{arith}
use text.Mathlib.Text.{◌==◌}
use admin_infra_proposed.Base.Tests.{if◌then◌else◌, before_text}

module _ {ℓ} {A : Type ℓ} where
  abbrev pub length : List A → ℕ
  length [] = 0
  length (x ∷ xs) = suc (length xs)

  pub length-append : (xs ys : List A) → length (xs ++ ys) ≡ length xs + length ys
  length-append [] ys = omega arith
  length-append (x ∷ xs) ys = omega (arith, length-append xs ys)

-- `name in names`
unfoldable pub contains : String → List String → Bool
contains a [] = false
contains a (x ∷ xs) = a == x || contains a xs

pub contains-append :
    (a : String) (xs ys : List String) → contains a (xs ++ ys) ≡ contains a xs || contains a ys
unfolding contains
contains-append a [] ys = refl
contains-append a (x ∷ xs) ys = ground (arith, contains-append a xs ys)

-- No name stands twice.
unfoldable pub distinct : List String → Bool
unfolding contains
distinct [] = true
distinct (x ∷ xs) = not (contains x xs) && distinct xs

-- The part of a list up to and with the first `name`, and the part from there on.
unfoldable pub up_to : String → List String → List String
up_to name [] = []
up_to name (x ∷ xs) = let rest = up_to name xs in x ∷ (if x == name then [] else rest)

unfoldable pub from : String → List String → List String
from name [] = []
from name (x ∷ xs) = let rest = from name xs in if x == name then x ∷ xs else rest

unfoldable pub before : String → List String → List String
before name [] = []
before name (x ∷ xs) = let rest = before name xs in if x == name then [] else x ∷ rest

-- `[x for x in xs if x not in dropped]`
unfoldable pub without : List String → List String → List String
unfolding contains
without dropped [] = []
without dropped (x ∷ xs) =
    let rest = without dropped xs in if contains x dropped then rest else x ∷ rest

-- `sorted(names)`
insert : String → List String → List String
insert a [] = a ∷ []
insert a (x ∷ xs) = let rest = insert a xs in if before_text x a then x ∷ rest else a ∷ x ∷ xs

unfoldable pub sorted : List String → List String
unfolding insert
sorted [] = []
sorted (x ∷ xs) = insert x (sorted xs)

pub append_nil {ℓ} : {A : Type ℓ} (xs : List A) → xs ++ [] ≡ xs
append_nil [] = refl
append_nil (x ∷ xs) = ap (λ ys. x ∷ ys) (append_nil xs)

pub append_assoc {ℓ} : {A : Type ℓ} (xs ys zs : List A) → (xs ++ ys) ++ zs ≡ xs ++ (ys ++ zs)
append_assoc [] ys zs = refl
append_assoc (x ∷ xs) ys zs = ap (λ l. x ∷ l) (append_assoc xs ys zs)
