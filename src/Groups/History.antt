-- ===== src/Groups/History.antt =====
-- A shared gid is given once: any sequence of operations on the ledger, other jobs' deletions of
-- lines included, between two issues.
use admin_infra_proposed.Base.{
  ℕ, ◌<◌, String, ◌≡◌, refl, Bool, Option, none, some, List, [], ◌∷◌, arith, Option-cases, inl, inr,
}
use admin_infra_proposed.Ledger.{
  Account, GroupEntry, Line, shared_gid, uid, read_issued_id_max, record_issued_id, IssuedFile,
  holds, no_file, corrupt,
}
use admin_infra_proposed.Groups.{
  Settings, Files, Disk, Checked, granted, denied, first_group, shared_group_gid, shared_gid_of,
  add_group, append_line, write_group_line, write_line,
}
use admin_infra_proposed.Groups.Issuing.{
  ReachesGid, record_issued_id-ReachesGid, shared_group_gid_lem, write_group_line-above,
  write_group_line_lem,
}

-- Another job's operation: the gid of a new group, the line of a group, a uid that is issued, or
-- any change of the lines of the passwd and group files.
pub data Op : Type 0 where
  resolves : Disk → String → Op
  writes : Disk → String → Option ℕ → List String → Op
  issues_uid : Bool → ℕ → Op
  edits : List (Line Account) → List (Line GroupEntry) → Op

pub data Issuer : Type 0 where
  resolving : Issuer
  writing : List String → Issuer

with_issued : Files → Option IssuedFile → Files
with_issued files none = files
with_issued files (some issued) = record files { issued = issued }

pub apply : Settings → Op → Files → Files
unfolding with_issued
apply set (resolves disk name) files = (shared_group_gid set disk name files).1
apply set (writes disk name gid members) files =
    (write_group_line set disk name gid members files).1
apply set (issues_uid ok n) files = with_issued files (record_issued_id ok uid n files.issued)
apply set (edits accounts groups) files = record files { accounts = accounts; groups = groups }

unfoldable pub run : Settings → List Op → Files → Files
unfolding apply
run set [] files = files
run set (op ∷ ops) files = run set ops (apply set op files)

module _ (set : Settings) where
  add_group-ReachesGid :
      (disk : Disk) (name : String) (members : List String) (c : Checked ℕ) (k : ℕ) (files : Files)
      → ReachesGid k files.issued
      → ReachesGid k (add_group set disk name members c files).1.issued
  unfolding add_group append_line
  add_group-ReachesGid disk name members (denied e) k files h = h
  add_group-ReachesGid disk name members (granted gid) k files h =
      elim (Option-cases (record_issued_id disk.record_writes shared_gid gid files.issued)) [
        | inl broken ↦ ground (arith, broken, h)
        | inr (file, raised) ↦ ground (
          arith,
          raised,
          (record_issued_id-ReachesGid disk.record_writes files.issued file gid k raised).1 h,
        )
      ]

  shared_group_gid-ReachesGid :
      (disk : Disk) (name : String) (k : ℕ) (files : Files)
      → ReachesGid k files.issued
      → ReachesGid k (shared_group_gid set disk name files).1.issued
  unfolding shared_group_gid shared_gid_of
  shared_group_gid-ReachesGid disk name k files h =
      elim (Option-cases (first_group name files.groups)) [
        | inl absent ↦ rw absent (add_group-ReachesGid disk name [] _ k files h)
        | inr (g, found) ↦ ground (arith, found, h)
      ]

  write_group_line-ReachesGid :
      (disk : Disk) (name : String) (asked : Option ℕ) (members : List String) (k : ℕ)
      (files : Files)
      → ReachesGid k files.issued
      → ReachesGid k (write_group_line set disk name asked members files).1.issued
  unfolding write_group_line write_line
  write_group_line-ReachesGid disk name asked members k files h =
      elim (Option-cases (first_group name files.groups)) [
        | inl absent ↦ rw absent (add_group-ReachesGid disk name _ _ k files h)
        | inr (g, found) ↦ ground (arith, found, h)
      ]

  raised_uid-ReachesGid :
      (ok : Bool) (n k : ℕ) (file file' : IssuedFile)
      → record_issued_id ok uid n file ≡ some file'
      → ReachesGid k file
      → ReachesGid k file'
  unfolding record_issued_id read_issued_id_max
  raised_uid-ReachesGid ok n k no_file file' p h m r = ground (arith, p, r, h 0 refl)
  raised_uid-ReachesGid ok n k corrupt file' p h m r = ground (arith, p, r)
  raised_uid-ReachesGid ok n k (holds i) file' p h m r = ground (arith, p, r, h i.shared_gid refl)

  record_uid-ReachesGid :
      (ok : Bool) (n k : ℕ) (files : Files)
      → ReachesGid k files.issued
      → ReachesGid k (with_issued files (record_issued_id ok uid n files.issued)).issued
  unfolding with_issued
  record_uid-ReachesGid ok n k files h =
      elim (Option-cases (record_issued_id ok uid n files.issued)) [
        | inl broken ↦ rw broken h
        | inr (file, raised) ↦ rw raised (raised_uid-ReachesGid ok n k files.issued file raised h)
      ]

  run-ReachesGid :
      (ops : List Op) (k : ℕ) (files : Files)
      → ReachesGid k files.issued
      → ReachesGid k (run set ops files).issued
  unfolding run apply
  run-ReachesGid [] k files h = h
  run-ReachesGid (resolves disk name ∷ ops) k files h =
      run-ReachesGid ops k _ (shared_group_gid-ReachesGid disk name k files h)
  run-ReachesGid (writes disk name gid members ∷ ops) k files h =
      run-ReachesGid ops k _ (write_group_line-ReachesGid disk name gid members k files h)
  run-ReachesGid (issues_uid ok n ∷ ops) k files h =
      run-ReachesGid ops k _ (record_uid-ReachesGid ok n k files h)
  run-ReachesGid (edits accounts groups ∷ ops) k files h = run-ReachesGid ops k _ h

  -- The two operations that choose a gid for a new group: the resolution of a job's groups, and the
  -- writing of a group for which no gid is asked.
  abbrev pub issue : Issuer → Disk → String → Files → Checked ℕ × Files
  issue resolving disk name files = shared_group_gid set disk name files
  issue (writing members) disk name files = write_group_line set disk name none members files

  issue-reaches :
      (i : Issuer) (disk : Disk) (name : String) (files : Files) {gid : ℕ}
      → first_group name files.groups ≡ none
      → (issue i disk name files).0 ≡ granted gid
      → ReachesGid gid (issue i disk name files).1.issued
  issue-reaches resolving disk name files absent h =
      ((shared_group_gid_lem set disk name files h).2 absent).2
  issue-reaches (writing members) disk name files absent h =
      ((write_group_line_lem set disk name none members files h).2 absent).1

  issue-above :
      (i : Issuer) (disk : Disk) (name : String) (files : Files) {gid : ℕ}
      → first_group name files.groups ≡ none
      → (issue i disk name files).0 ≡ granted gid
      → (m : ℕ) × (read_issued_id_max shared_gid files.issued ≡ some m) × (m < gid)
  issue-above resolving disk name files absent h =
      ((shared_group_gid_lem set disk name files h).2 absent).1
  issue-above (writing members) disk name files absent h =
      write_group_line-above set disk name members files absent h

  -- A shared gid that was chosen for a new name, by the resolution of a job's groups or by the
  -- writing of a group, is never chosen again: after any operations, also deletions of the name's
  -- line, either of the two gives the next new name a larger gid.
  pub gid_issued_once :
      (i i' : Issuer) (disk disk' : Disk) (name name' : String) (ops : List Op) (files : Files)
      {gid gid' : ℕ}
      → first_group name files.groups ≡ none
      → (issue i disk name files).0 ≡ granted gid
      → let later = run set ops (issue i disk name files).1 in
        first_group name' later.groups ≡ none
        → (issue i' disk' name' later).0 ≡ granted gid'
        → gid < gid'
  gid_issued_once i i' disk disk' name name' ops files {gid = gid} absent given absent' given' =
      let reaches = issue-reaches i disk name files absent given in
      let later = run-ReachesGid ops gid (issue i disk name files).1 reaches in
      let (m, read, past) = issue-above i' disk' name' _ absent' given' in
      omega (arith, later m read, past)
