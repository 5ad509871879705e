-- ===== src/Base/Places.antt =====
-- Places in a list of names: what stands before a name, and from it on.
use mathlib.Core.Bool.{true, false, not, ◌&&◌}
use mathlib.Core.List.{List, [], ◌∷◌, ◌++◌}
use mathlib.Core.Path.{◌≡◌, refl}
use native.Mathlib.Omega.{arith}
use Prim.Native.String.{String}
use text.Mathlib.TextEquality.{eq_iff}
use admin_infra_proposed.Base.Lists.{
  contains, distinct, up_to, from, before, without, contains-append,
}

pub before-from : (x : String) (l : List String) → before x l ++ from x l ≡ l
unfolding before from
before-from x [] = refl
before-from x (y ∷ l) = ground (arith, before-from x l)

pub contains-before :
    (m x : String) (l : List String) → contains m (before x l) ≡ true → contains m l ≡ true
unfolding before contains
contains-before m x [] h = h
contains-before m x (y ∷ l) h = ground (arith, contains-before m x l)

pub contains-from :
    (m x : String) (l : List String) → contains m (from x l) ≡ true → contains m l ≡ true
unfolding from contains
contains-from m x [] h = h
contains-from m x (y ∷ l) h = ground (arith, contains-from m x l)

-- In a list of distinct names, what stands before a place does not stand after it.
pub before-not-from :
    (m x : String) (l : List String)
    → distinct l ≡ true
    → contains m (before x l) ≡ true
    → contains m (from x l) ≡ false
unfolding distinct before from contains
before-not-from m x [] d h = refl
before-not-from m x (y ∷ l) d h =
    ground (arith, before-not-from m x l, contains-from m x l, eq_iff m y)

-- Where `x` stands no later than `n`, all that stands before `x` stands before `n`.
pub before_earlier :
    (m x n : String) (pre rest : List String)
    → distinct (pre ++ n ∷ rest) ≡ true
    → contains x (up_to n (pre ++ n ∷ rest)) ≡ true
    → contains m (before x (pre ++ n ∷ rest)) ≡ true
    → contains m pre ≡ true
unfolding distinct before up_to contains
before_earlier m x n [] rest d u h = ground (arith, eq_iff x n, eq_iff n x, eq_iff n n)
before_earlier m x n (p ∷ pre) rest d u h = ground (
  arith,
  before_earlier m x n pre rest,
  contains-append n pre (n ∷ rest),
  eq_iff p n,
  eq_iff p x,
  eq_iff x p,
  eq_iff n n,
)

pub contains-without :
    (m : String) (ns l : List String)
    → contains m (without ns l) ≡ contains m l && not (contains m ns)
unfolding contains without
contains-without m ns [] = refl
contains-without m ns (x ∷ l) = ground (arith, contains-without m ns l, eq_iff m x)
