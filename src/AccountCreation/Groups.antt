-- ===== src/AccountCreation/Groups.antt =====
-- What the group file has after the loop over a new user's groups.
use admin_infra_proposed.Base.{
  ◌⊎◌, ℕ, ◌≡◌, refl, ap, ◌∙◌, inl, inr, arith, eq_iff, eq_refl, Bool-cases, Option-cases, String,
  Bool, true, false, ◌&&◌, ◌||◌, some, List, [], ◌∷◌, ◌++◌, ◌=ℕ◌, ◌==◌, contains, contains-append,
}
use admin_infra_proposed.Ledger.{GroupEntry, Line, entry, unparsed, IdKind, record_issued_id}
use admin_infra_proposed.Accounts.{has_primary, is_member, missing_groups}
use admin_infra_proposed.AccountCreation.{
  primary_exists, add_name, has_gid, add_member, Joining, with_line, join_group, join_groups,
  with_primary,
}

has_primary-append :
    (gid : ℕ) (group : String) (lines : List (Line GroupEntry)) (g : GroupEntry)
    → has_primary gid group (lines ++ entry g ∷ [])
      ≡ has_primary gid group lines || (g.gid =ℕ gid && g.name == group)
unfolding has_primary
has_primary-append gid group [] g = ground arith
has_primary-append gid group (entry h ∷ lines) g =
    ground (arith, has_primary-append gid group lines g)
has_primary-append gid group (unparsed t ∷ lines) g = has_primary-append gid group lines g

is_member-append :
    (gid : ℕ) (name : String) (lines : List (Line GroupEntry)) (g : GroupEntry)
    → is_member gid name (lines ++ entry g ∷ [])
      ≡ is_member gid name lines || (g.gid =ℕ gid && contains name g.members)
unfolding is_member
is_member-append gid name [] g = ground arith
is_member-append gid name (entry h ∷ lines) g = ground (arith, is_member-append gid name lines g)
is_member-append gid name (unparsed t ∷ lines) g = is_member-append gid name lines g

primary_exists_lem :
    (gid : ℕ) (group : String) (lines : List (Line GroupEntry))
    → primary_exists gid group lines ≡ some true
    → has_primary gid group lines ≡ true
unfolding primary_exists has_primary
primary_exists_lem gid group [] h = ground (arith, h)
primary_exists_lem gid group (entry g ∷ lines) h =
    ground (arith, h, primary_exists_lem gid group lines)
primary_exists_lem gid group (unparsed t ∷ lines) h = primary_exists_lem gid group lines h

pub has_primary-with_primary :
    (gid : ℕ) (group : String) (there : Bool) (lines : List (Line GroupEntry))
    → primary_exists gid group lines ≡ some there
    → has_primary gid group (with_primary group gid there lines) ≡ true
unfolding with_primary
has_primary-with_primary gid group true lines h = primary_exists_lem gid group lines h
has_primary-with_primary gid group false lines h =
    has_primary-append gid group lines (record { name = group; gid = gid; members = [] })
    ∙ ground (arith, eq_refl group)

contains-add_name :
    (n name : String) (members : List String)
    → contains n (add_name name members) ≡ contains n members || n == name
unfolding add_name contains
contains-add_name n name members =
    ground (arith, contains-append n members (name ∷ []), eq_iff n name)

has_primary-add_member :
    (gid : ℕ) (group name : String) (own : ℕ) (lines : List (Line GroupEntry))
    → has_primary own group (add_member name gid lines) ≡ has_primary own group lines
unfolding has_primary add_member
has_primary-add_member gid group name own [] = refl
has_primary-add_member gid group name own (entry g ∷ lines) =
    ground (arith, has_primary-add_member gid group name own lines)
has_primary-add_member gid group name own (unparsed t ∷ lines) =
    has_primary-add_member gid group name own lines

kept_name :
    (n name : String) (members : List String)
    → contains n members ≡ true
    → contains n (add_name name members) ≡ true
kept_name n name members h = ground (arith, h, contains-add_name n name members)

own_name : (name : String) (members : List String) → contains name (add_name name members) ≡ true
own_name name members = ground (arith, contains-add_name name name members, eq_refl name)

-- A membership stays, and the user is in the group if it has a line.
is_member_kept :
    (gid other : ℕ) (n name : String) (lines : List (Line GroupEntry))
    → is_member other n lines ≡ true
    → is_member other n (add_member name gid lines) ≡ true
unfolding is_member add_member
is_member_kept gid other n name [] h = h
is_member_kept gid other n name (entry g ∷ lines) h =
    ground (arith, h, is_member_kept gid other n name lines, kept_name n name g.members)
is_member_kept gid other n name (unparsed t ∷ lines) h = is_member_kept gid other n name lines h

is_member_joined :
    (gid : ℕ) (name : String) (lines : List (Line GroupEntry))
    → has_gid gid lines ≡ true
    → is_member gid name (add_member name gid lines) ≡ true
unfolding is_member add_member has_gid
is_member_joined gid name [] h = ground (arith, h)
is_member_joined gid name (entry g ∷ lines) h =
    ground (arith, h, is_member_joined gid name lines, own_name name g.members)
is_member_joined gid name (unparsed t ∷ lines) h = is_member_joined gid name lines h

join_group_lines :
    (writes : Bool) (shared_min : ℕ) (name group : String) (gid : ℕ) (j j' : Joining)
    → join_group writes shared_min name (group, gid) j ≡ some j'
    → ((has_gid gid j.lines ≡ true) × (j'.lines ≡ add_member name gid j.lines))
      ⊎ (j'.lines ≡ j.lines ++ entry (record { name = group; gid = gid; members = name ∷ [] }) ∷ [])
unfolding join_group with_line
join_group_lines writes shared_min name group gid j j' h = elim (Bool-cases (has_gid gid j.lines)) [
  | inl there ↦ inl (there, ground (arith, h, there))
  | inr new ↦ elim (Option-cases (record_issued_id writes IdKind.shared_gid gid j.issued)) [
    | inl broken ↦ inr (ground (arith, h, new, broken))
    | inr (file, done) ↦ inr (ground (arith, h, new, done))
  ]
]

-- The new user joins the group; groups and memberships stay.
join_group_lem :
    (writes : Bool) (shared_min : ℕ) (name group : String) (gid : ℕ) (j j' : Joining)
    → join_group writes shared_min name (group, gid) j ≡ some j'
    → (is_member gid name j'.lines ≡ true)
      × ((own : ℕ) (pg : String)
          → has_primary own pg j.lines ≡ true
          → has_primary own pg j'.lines ≡ true)
      × ((other : ℕ) → is_member other name j.lines ≡ true → is_member other name j'.lines ≡ true)
unfolding contains
join_group_lem writes shared_min name group gid j j' h =
    let line : GroupEntry = record { name = group; gid = gid; members = name ∷ [] } in
    elim (join_group_lines writes shared_min name group gid j j' h) [
      | inl (there, same) ↦ (
        ap (is_member gid name) same ∙ is_member_joined gid name j.lines there,
        λ own pg k.
            ap (has_primary own pg) same ∙ has_primary-add_member gid pg name own j.lines ∙ k,
        λ other k. ap (is_member other name) same ∙ is_member_kept gid other name name j.lines k,
      )
      | inr same ↦ (
        ap (is_member gid name) same
            ∙ is_member-append gid name j.lines line
            ∙ ground (arith, eq_refl name),
        λ own pg k.
            ap (has_primary own pg) same
            ∙ has_primary-append own pg j.lines line
            ∙ ground (arith, k),
        λ other k.
            ap (is_member other name) same
            ∙ is_member-append other name j.lines line
            ∙ ground (arith, k),
      )
    ]

-- After a loop that ends, the user is in every group, and groups and memberships have stayed.
pub join_groups_lem :
    (writes : Bool) (shared_min : ℕ) (name : String) (groups : List (String × ℕ)) (j : Joining)
    → let r = join_groups writes shared_min name groups j in
      r.0 ≡ true
      → (missing_groups name groups r.1.lines ≡ [])
        × ((own : ℕ) (pg : String)
            → has_primary own pg j.lines ≡ true
            → has_primary own pg r.1.lines ≡ true)
        × ((other : ℕ)
            → is_member other name j.lines ≡ true
            → is_member other name r.1.lines ≡ true)
unfolding join_groups missing_groups
join_groups_lem writes shared_min name [] j h = (refl, λ own pg k. k, λ other k. k)
join_groups_lem writes shared_min name ((group, gid) ∷ groups) j h =
    elim (Option-cases (join_group writes shared_min name (group, gid) j)) [
      | inl broken ↦ absurd (ground (arith, h, broken))
      | inr (j', done) ↦
          let (member, primary, members) =
            join_group_lem writes shared_min name group gid j j' done in
          let (missing, primary', members') =
            join_groups_lem writes shared_min name groups j' (ground (arith, h, done)) in
          let same : join_groups writes shared_min name ((group, gid) ∷ groups) j
              ≡ join_groups writes shared_min name groups j' =
            ground (arith, done) in
          rw same (
            ground (arith, missing, members' gid member),
            λ own pg k. primary' own pg (primary own pg k),
            λ other k. members' other (members other k),
          )
    ]
