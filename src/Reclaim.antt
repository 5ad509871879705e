-- ===== src/Reclaim.antt =====
-- The uids and names of returning users: `_reclaim_uid` of config-server/lifecycle_steps/provision.py,
-- `_adoptable_account_uid` and `_username_group_conflict` of config-server/main.py.
mod Tests
use admin_infra_proposed.Base.{
  ℕ, String, ◌≡◌, ◌≢◌, refl, Bool, true, false, not, ◌&&◌, ◌||◌, Option, none, some, List, [], ◌∷◌,
  if◌then◌else◌, ltb, leb, ◌=ℕ◌, ◌==◌, ◌≤◌, arith, contains,
}
use admin_infra_proposed.Ledger.{Account, GroupEntry, Line, entry, unparsed, elem, used_uids}

unfoldable pub uid_holder : ℕ → List (Line Account) → Option String
uid_holder uid [] = none
uid_holder uid (entry a ∷ lines) =
    let rest = uid_holder uid lines in if a.uid =ℕ uid then some a.name else rest
uid_holder uid (unparsed t ∷ lines) = uid_holder uid lines

-- The group with the gid that is none of the user's own.
unfoldable pub gid_holder : ℕ → List String → List (Line GroupEntry) → Option String
unfolding contains
gid_holder gid own [] = none
gid_holder gid own (entry g ∷ lines) =
    let rest = gid_holder gid own lines in
    if g.gid =ℕ gid && not (contains g.name own) then some g.name else rest
gid_holder gid own (unparsed t ∷ lines) = gid_holder gid own lines

abbrev over : ℕ → Option ℕ → Bool
over uid none = false
over uid (some high) = ltb high uid

holder_of : Option String → Option String → Option String
holder_of none group = group
holder_of (some user) group = some user

-- Whether the uid goes back to its user; `sharers` are the other homes that it owns.
unfoldable pub reclaim_uid :
    ℕ
    → Option ℕ
    → ℕ
    → List String
    → List String
    → List (Line Account)
    → List (Line GroupEntry)
    → Option ℕ
unfolding uid_holder gid_holder holder_of
reclaim_uid min max uid own sharers accounts groups =
    if ltb uid min || over uid max
    then none
    else elim (holder_of (uid_holder uid accounts) (gid_holder uid own groups)) [
      | some name ↦ none
      | none ↦ elim sharers [ [] ↦ some uid | _ ∷ _ ↦ none ]
    ]

-- `_adoptable_account_uid`: the first account of the name counts.
unfoldable pub adoptable_account_uid : String → Option ℕ → List (Line Account) → Option ℕ
adoptable_account_uid name none lines = none
adoptable_account_uid name (some uid) [] = none
adoptable_account_uid name (some uid) (entry a ∷ lines) =
    let rest = adoptable_account_uid name (some uid) lines in
    if a.name == name then (if a.uid =ℕ uid then some a.uid else none) else rest
adoptable_account_uid name (some uid) (unparsed t ∷ lines) =
    adoptable_account_uid name (some uid) lines

-- The loop of `_username_group_conflict`: whether the first group of the name is a conflict.
unfoldable pub group_conflict : ℕ → ℕ → String → List (Line GroupEntry) → Bool
group_conflict uid_min shared_gid_min name [] = false
group_conflict uid_min shared_gid_min name (entry g ∷ lines) =
    let rest = group_conflict uid_min shared_gid_min name lines in
    if g.name == name then not (leb uid_min g.gid && ltb g.gid shared_gid_min) else rest
group_conflict uid_min shared_gid_min name (unparsed t ∷ lines) =
    group_conflict uid_min shared_gid_min name lines

unfoldable pub username_group_conflict :
    ℕ → ℕ → List String → String → List (Line GroupEntry) → Bool
unfolding contains group_conflict
username_group_conflict uid_min shared_gid_min reserved name lines =
    contains name reserved || group_conflict uid_min shared_gid_min name lines

no_uid_holder :
    (uid : ℕ) (lines : List (Line Account))
    → uid_holder uid lines ≡ none
    → elem uid (used_uids lines) ≡ false
unfolding uid_holder elem used_uids
no_uid_holder uid [] h = refl
no_uid_holder uid (entry a ∷ lines) h = ground (arith, h, no_uid_holder uid lines)
no_uid_holder uid (unparsed t ∷ lines) h = no_uid_holder uid lines h

-- A uid that goes back to its user is the one asked for, in the band; no account has it, no group
-- but the user's own has it as its gid, and no other home is owned by it.
pub reclaim_uid_lem :
    (min : ℕ) (max : Option ℕ) (uid got : ℕ) (own sharers : List String)
    (accounts : List (Line Account)) (groups : List (Line GroupEntry))
    → reclaim_uid min max uid own sharers accounts groups ≡ some got
    → (got ≡ uid)
      × (min ≤ uid)
      × (elem uid (used_uids accounts) ≡ false)
      × (gid_holder uid own groups ≡ none)
      × (sharers ≡ [])
unfolding reclaim_uid holder_of
reclaim_uid_lem min max uid got own [] accounts groups h =
    ground (arith, h, no_uid_holder uid accounts)
reclaim_uid_lem min max uid got own (s ∷ sharers) accounts groups h = ground (arith, h)
