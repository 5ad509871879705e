-- ===== src/Groups/Lines.antt =====
-- The lines of the group file as a map from names to entries.
use admin_infra_proposed.Base.{
  String, ◌≡◌, refl, false, Option, none, some, List, [], ◌∷◌, ◌++◌, arith, ◌==◌, eq_iff, eq_refl,
  if◌then◌else◌,
}
use admin_infra_proposed.Ledger.{GroupEntry, Line, entry, unparsed}
use admin_infra_proposed.Groups.{first_group, rewrite_lines}

-- The value of `n` after `name` was given the entry `e`.
abbrev pub updated : String → GroupEntry → String → Option GroupEntry → Option GroupEntry
updated name e n old = if n == name then some e else old

pub first_group-append :
    (n : String) (e : GroupEntry) (lines : List (Line GroupEntry))
    → first_group e.name lines ≡ none
    → first_group n (lines ++ entry e ∷ []) ≡ updated e.name e n (first_group n lines)
unfolding first_group
first_group-append n e [] h = ground (arith, eq_iff n e.name, eq_iff e.name n)
first_group-append n e (entry g ∷ lines) h =
    ground
      (arith, first_group-append n e lines, eq_iff g.name n, eq_iff g.name e.name, eq_iff n e.name)
first_group-append n e (unparsed t ∷ lines) h = first_group-append n e lines h

first_group-rewrite_other :
    (n name : String) (e : GroupEntry) (lines : List (Line GroupEntry))
    → e.name ≡ name
    → (n == name) ≡ false
    → first_group n (rewrite_lines name e lines) ≡ first_group n lines
unfolding first_group rewrite_lines
first_group-rewrite_other n name e [] p h = refl
first_group-rewrite_other n name e (entry g ∷ lines) p h = ground (
  arith,
  first_group-rewrite_other n name e lines p h,
  eq_iff n name,
  eq_iff g.name name,
  eq_iff g.name n,
  eq_iff e.name n,
)
first_group-rewrite_other n name e (unparsed t ∷ lines) p h =
    first_group-rewrite_other n name e lines p h

first_group-rewrite_self :
    (e g : GroupEntry) (lines : List (Line GroupEntry))
    → first_group e.name lines ≡ some g
    → first_group e.name (rewrite_lines e.name e lines) ≡ some e
unfolding first_group rewrite_lines
first_group-rewrite_self e g [] h = ground (arith, h)
first_group-rewrite_self e g (entry k ∷ lines) h =
    ground (arith, h, first_group-rewrite_self e g lines, eq_refl e.name)
first_group-rewrite_self e g (unparsed t ∷ lines) h = first_group-rewrite_self e g lines h

pub first_group-rewrite :
    (n : String) (e g : GroupEntry) (lines : List (Line GroupEntry))
    → first_group e.name lines ≡ some g
    → first_group n (rewrite_lines e.name e lines) ≡ updated e.name e n (first_group n lines)
first_group-rewrite n e g lines h = ground (
  arith,
  first_group-rewrite_other n e.name e lines refl,
  first_group-rewrite_self e g lines h,
  eq_iff n e.name,
)
