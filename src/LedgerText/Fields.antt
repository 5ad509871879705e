-- ===== src/LedgerText/Fields.antt =====
-- The texts of numbers, fields and members.
use admin_infra_proposed.Base.{
  ℕ, zero, suc, ◌+◌, ◌-◌, ◌≡◌, refl, ap, ◌∙◌, arith, Bool, true, false, not, ◌&&◌, some, List, [],
  ◌∷◌, ◌++◌, leb, ◌=ℕ◌,
}
use admin_infra_proposed.Ledger.{elem}
use admin_infra_proposed.LedgerText.{
  Chars, is_clean, increment, backward_digits, reversed, digits, all_digits, value_from, number,
  cut, join, split, push, non_empty_parts,
}

abbrev ten : ℕ → ℕ
ten n = n + n + n + n + n + n + n + n + n + n

backward_value : Chars → ℕ
backward_value [] = 0
backward_value (d ∷ ds) = (d - 48) + ten (backward_value ds)

value_from-append :
    (n : ℕ) (s : Chars) (c : ℕ) → value_from n (s ++ c ∷ []) ≡ ten (value_from n s) + (c - 48)
unfolding value_from
value_from-append n [] c = refl
value_from-append n (d ∷ s) c = value_from-append (ten n + (d - 48)) s c

value_from-reversed : (s : Chars) → value_from 0 (reversed s) ≡ backward_value s
unfolding value_from reversed backward_value
value_from-reversed [] = refl
value_from-reversed (d ∷ s) =
    value_from-append 0 (reversed s) d ∙ omega (arith, value_from-reversed s)

all_digits-append :
    (s : Chars) (c : ℕ) → all_digits (s ++ c ∷ []) ≡ all_digits s && (leb 48 c && leb c 57)
unfolding all_digits
all_digits-append [] c = ground arith
all_digits-append (d ∷ s) c = ground (arith, all_digits-append s c)

all_digits-reversed : (s : Chars) → all_digits (reversed s) ≡ all_digits s
unfolding all_digits reversed
all_digits-reversed [] = refl
all_digits-reversed (d ∷ s) =
    all_digits-append (reversed s) d ∙ ground (arith, all_digits-reversed s)

increment_lem :
    (s : Chars)
    → all_digits s ≡ true
    → (all_digits (increment s) ≡ true) × (backward_value (increment s) ≡ suc (backward_value s))
unfolding all_digits increment backward_value
increment_lem [] h = (ground arith, refl)
increment_lem (d ∷ s) h = ground (arith, h, increment_lem s)

backward_digits_lem :
    (n : ℕ) → (all_digits (backward_digits n) ≡ true) × (backward_value (backward_digits n) ≡ n)
unfolding backward_digits backward_value all_digits
backward_digits_lem zero = (ground arith, refl)
backward_digits_lem (suc n) =
    let (all, value) = backward_digits_lem n in
    let (all', value') = increment_lem (backward_digits n) all in (all', value' ∙ ap suc value)

abbrev pub empty : Chars → Bool
empty [] = true
empty (c ∷ s) = false

empty-append : (s : Chars) (c : ℕ) (r : Chars) → empty (s ++ c ∷ r) ≡ false
empty-append [] c r = refl
empty-append (d ∷ s) c r = refl

empty-reversed : (s : Chars) → empty (reversed s) ≡ empty s
unfolding reversed
empty-reversed [] = refl
empty-reversed (d ∷ s) = empty-append (reversed s) d []

empty-backward_digits : (n : ℕ) → empty (backward_digits n) ≡ false
unfolding backward_digits increment
empty-backward_digits zero = refl
empty-backward_digits (suc n) = counted (backward_digits n)
  where
    counted : (s : Chars) → empty (increment s) ≡ false
    counted [] = refl
    counted (d ∷ s) = ground arith

number_all : (s : Chars) → empty s ≡ false → all_digits s ≡ true → number s ≡ some (value_from 0 s)
unfolding number
number_all [] h k = absurd (ground (arith, h))
number_all (c ∷ s) h k = ground (arith, k)

-- `int(str(n))` is `n`.
pub number-digits : (n : ℕ) → number (digits n) ≡ some n
unfolding digits
number-digits n =
    let s = backward_digits n in
    let (all, value) = backward_digits_lem n in
    number_all (reversed s) (empty-reversed s ∙ empty-backward_digits n)
      (all_digits-reversed s ∙ all)
    ∙ ap some (value_from-reversed s ∙ value)

-- A digit is neither a colon nor a line break.
digits_clean : (s : Chars) → all_digits s ≡ true → is_clean s ≡ true
unfolding all_digits is_clean elem
digits_clean [] h = refl
digits_clean (c ∷ s) h = ground (arith, h, digits_clean s)

pub digits-is_clean : (n : ℕ) → is_clean (digits n) ≡ true
unfolding digits
digits-is_clean n =
    digits_clean (reversed (backward_digits n))
      (all_digits-reversed (backward_digits n) ∙ (backward_digits_lem n).0)

pub cut-append : (a b : Chars) → is_clean a ≡ true → cut 58 (a ++ 58 ∷ b) ≡ some (a, b)
unfolding cut is_clean
cut-append [] b h = ground arith
cut-append (c ∷ a) b h = ground (arith, h, cut-append a b)

pub clean_line : (s : Chars) → is_clean s ≡ true → elem 10 s ≡ false
unfolding is_clean elem
clean_line [] h = refl
clean_line (c ∷ s) h = ground (arith, h, clean_line s)

-- No comma in it, and not empty: a member as it is written.
unfoldable pub no_comma : Chars → Bool
no_comma [] = true
no_comma (c ∷ s) = not (c =ℕ 44) && no_comma s

abbrev pub is_member_text : Chars → Bool
is_member_text m = not (empty m) && no_comma m

unfoldable pub member_texts : List Chars → Bool
unfolding no_comma
member_texts [] = true
member_texts (m ∷ ms) = is_member_text m && member_texts ms

split-append : (m r : Chars) → no_comma m ≡ true → split (m ++ 44 ∷ r) ≡ m ∷ split r
unfolding split push no_comma
split-append [] r h = ground arith
split-append (c ∷ m) r h =
    let other : (c =ℕ 44) ≡ false = ground (arith, h) in
    rw other (rw (split-append m r (ground (arith, h))) refl)

split_one : (m : Chars) → no_comma m ≡ true → split m ≡ m ∷ []
unfolding split push no_comma
split_one [] h = refl
split_one (c ∷ m) h =
    let other : (c =ℕ 44) ≡ false = ground (arith, h) in
    rw other (rw (split_one m (ground (arith, h))) refl)

kept_part :
    (m : Chars) (parts : List Chars)
    → empty m ≡ false
    → non_empty_parts (m ∷ parts) ≡ m ∷ non_empty_parts parts
unfolding non_empty_parts
kept_part [] parts h = absurd (ground (arith, h))
kept_part (c ∷ m) parts h = refl

-- The members of a line are read as they were written.
pub split-join : (ms : List Chars) → member_texts ms ≡ true → non_empty_parts (split (join ms)) ≡ ms
unfolding member_texts join split non_empty_parts
split-join [] h = refl
split-join (m ∷ []) h = rw (split_one m (ground (arith, h))) (kept_part m [] (ground (arith, h)))
split-join (m ∷ n ∷ ms) h = rw (split-append m (join (n ∷ ms)) (ground (arith, h))) (
    kept_part m (split (join (n ∷ ms))) (ground (arith, h))
    ∙ ap (λ l. m ∷ l) (split-join (n ∷ ms) (ground (arith, h))))

pub clean-append : (a b : Chars) → is_clean a ≡ true → elem 10 b ≡ false → elem 10 (a ++ b) ≡ false
unfolding is_clean elem
clean-append [] b h k = k
clean-append (c ∷ a) b h k = ground (arith, h, k, clean-append a b)
