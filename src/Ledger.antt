-- ===== src/Ledger.antt =====
-- The account ledger (the passwd and group files) and the numbers that it gives out: the parsed
-- lines and the record of issued ids of config-server/utils.py, `_allocate_next_uid` and
-- `_allocate_next_gid` of config-server/lifecycle_steps/provision.py.
pub mod Free
use admin_infra_proposed.Base.{
  ℕ, zero, suc, ◌+◌, ◌-◌, String, Bool, true, false, not, ◌&&◌, ◌||◌, Option, none, some, List, [],
  ◌∷◌, if◌then◌else◌, ltb, leb, ◌=ℕ◌, starts_with,
}

pub record Account : Type 0 where
  pub name : String
  pub uid : ℕ
  pub gid : ℕ
  pub home : String

pub record GroupEntry : Type 0 where
  pub name : String
  pub gid : ℕ
  pub members : List String

-- A line of a file: an entry, or a text that the parser refuses.
pub data Line {ℓ} (A : Type ℓ) : Type ℓ where
  entry : A → Line A
  unparsed : String → Line A

unfoldable pub elem : ℕ → List ℕ → Bool
elem n [] = false
elem n (m ∷ ms) = n =ℕ m || elem n ms

-- `max(ns, default=d)`
unfoldable pub max_of : ℕ → List ℕ → ℕ
max_of d [] = d
max_of d (n ∷ []) = n
max_of d (n ∷ m ∷ ns) = let rest = max_of d (m ∷ ns) in if ltb n rest then rest else n

unfoldable pub used_uids : List (Line Account) → List ℕ
used_uids [] = []
used_uids (entry a ∷ lines) = a.uid ∷ used_uids lines
used_uids (unparsed t ∷ lines) = used_uids lines

unfoldable pub managed_uids : ℕ → List (Line Account) → List ℕ
managed_uids min_uid [] = []
managed_uids min_uid (entry a ∷ lines) =
    let rest = managed_uids min_uid lines in
    if leb min_uid a.uid && starts_with a.home "/home/" then a.uid ∷ rest else rest
managed_uids min_uid (unparsed t ∷ lines) = managed_uids min_uid lines

unfoldable pub used_gids : List (Line GroupEntry) → List ℕ
used_gids [] = []
used_gids (entry g ∷ lines) = g.gid ∷ used_gids lines
used_gids (unparsed t ∷ lines) = used_gids lines

abbrev pub reserved_gids : List ℕ
reserved_gids = 65534 ∷ []

unfoldable pub managed_gids : ℕ → List ℕ → List ℕ
unfolding elem
managed_gids min_gid [] = []
managed_gids min_gid (g ∷ gids) =
    let rest = managed_gids min_gid gids in
    if leb min_gid g && not (elem g reserved_gids) then g ∷ rest else rest

-- The `while` loop of the two allocations.
unfoldable pub seek : (ℕ → Bool) → ℕ → ℕ → Option ℕ
seek taken zero candidate = none
seek taken (suc fuel) candidate =
    let rest = seek taken fuel (candidate + 1) in if taken candidate then rest else some candidate

abbrev pub larger : ℕ → ℕ → ℕ
larger a b = if ltb a b then b else a

-- The issued maximum is at least 0, so that a minimum of 0 gives the same candidate as in the
-- source, where `min_uid - 1` is then below 0.
abbrev pub candidate_of : ℕ → List ℕ → ℕ → ℕ
candidate_of min managed issued_max = larger (max_of (min - 1) managed) issued_max + 1

-- One round more than the largest number in use.
abbrev pub seek_fuel : List ℕ → ℕ
seek_fuel used = suc (max_of 0 used)

unfoldable pub allocate_next_uid : List (Line Account) → ℕ → ℕ → Option ℕ
unfolding used_uids managed_uids seek elem
allocate_next_uid lines min_uid issued_max =
    let used = used_uids lines in
    seek (λ n. elem n used) (seek_fuel used)
      (candidate_of min_uid (managed_uids min_uid lines) issued_max)

unfoldable pub allocate_next_gid : List (Line GroupEntry) → ℕ → ℕ → Option ℕ
unfolding used_gids managed_gids seek elem
allocate_next_gid lines min_gid issued_max =
    let used = used_gids lines in
    seek (λ n. elem n used || elem n reserved_gids) (seek_fuel (65534 ∷ used))
      (candidate_of min_gid (managed_gids min_gid used) issued_max)

pub data IdKind : Type 0 where
  uid shared_gid : IdKind

-- The largest ids issued; a missing key counts as 0.
pub record IssuedMax : Type 0 where
  pub uid : ℕ
  pub shared_gid : ℕ

-- The file of the record: not there, not to be read as such a record, or read.
pub data IssuedFile : Type 0 where
  no_file corrupt : IssuedFile
  holds : IssuedMax → IssuedFile

abbrev id_of : IdKind → IssuedMax → ℕ
id_of IdKind.uid m = m.uid
id_of IdKind.shared_gid m = m.shared_gid

set_id : IdKind → ℕ → IssuedMax → IssuedMax
set_id IdKind.uid n m = record m { uid = n }
set_id IdKind.shared_gid n m = record m { shared_gid = n }

abbrev nothing_issued : IssuedMax
nothing_issued = record { uid = 0; shared_gid = 0 }

-- `_read_issued_id_record`: nothing is an exception.
unfoldable pub read_issued_id_record : IssuedFile → Option IssuedMax
read_issued_id_record no_file = some nothing_issued
read_issued_id_record corrupt = none
read_issued_id_record (holds m) = some m

unfoldable pub read_issued_id_max : IdKind → IssuedFile → Option ℕ
unfolding read_issued_id_record
read_issued_id_max kind file = elim (read_issued_id_record file) [
  | none ↦ none
  | some m ↦ some (id_of kind m)
]

-- `writes` says whether the file can be replaced.
raise_id : Bool → IdKind → ℕ → IssuedFile → IssuedMax → Option IssuedFile
unfolding set_id
raise_id writes kind value file m =
    if leb value (id_of kind m)
    then some file
    else if writes
    then some (holds (set_id kind value m))
    else none

unfoldable pub record_issued_id : Bool → IdKind → ℕ → IssuedFile → Option IssuedFile
unfolding read_issued_id_record raise_id
record_issued_id writes kind value file = elim (read_issued_id_record file) [
  | none ↦ none
  | some m ↦ raise_id writes kind value file m
]
