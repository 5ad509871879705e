-- ===== src/Groups/Issuing.antt =====
-- What the two operations that give a group its gid do to the ledger: `_shared_group_gid` and
-- `_write_group_line`.
use admin_infra_proposed.Base.{
  ℕ, ◌≤◌, ◌<◌, String, ◌≡◌, refl, Bool, true, false, Option, none, some, List, [], arith, eq_iff,
  Option-cases, inl, inr, sorted,
}
use admin_infra_proposed.Ledger.{
  GroupEntry, elem, used_gids, shared_gid, read_issued_id_max, record_issued_id, IssuedFile, holds,
  no_file, corrupt,
}
use admin_infra_proposed.Ledger.Free.{allocate_next_gid_lem}
use admin_infra_proposed.Groups.{
  Settings, Files, Disk, Checked, granted, denied, first_group, in_shared_band, issue_shared_gid,
  limit_gid, above, shared_group_gid, shared_gid_of, add_group, append_line, write_group_line,
  write_line, new_gid, differs,
}
use admin_infra_proposed.Groups.Lines.{updated, first_group-append, first_group-rewrite}

-- A gid that is issued is in the band, above every shared gid issued before, and no line has it;
-- and where the record can be read, a gid is issued unless the next number is above the band.
pub issue_shared_gid_lem :
    (set : Settings) (files : Files) {gid : ℕ}
    → issue_shared_gid set files ≡ granted gid
    → (in_shared_band set gid ≡ true)
      × (elem gid (used_gids files.groups) ≡ false)
      × ((m : ℕ) × (read_issued_id_max shared_gid files.issued ≡ some m) × (m < gid))
unfolding issue_shared_gid limit_gid in_shared_band
issue_shared_gid_lem set files h =
    elim (Option-cases (read_issued_id_max shared_gid files.issued)) [
      | inl broken ↦ ground (arith, broken, h)
      | inr (m, read) ↦
          let (n, found, unused, other, past, least, rest) =
            allocate_next_gid_lem files.groups set.shared_gid_min m in
          (ground (arith, h), ground (arith, h), (m, read, ground (arith, h)))
    ]

-- Where the record can be read, it stands at `n` or above.
abbrev pub ReachesGid : ℕ → IssuedFile → Type 0
ReachesGid n file = (m : ℕ) → read_issued_id_max shared_gid file ≡ some m → n ≤ m

-- Recording a gid raises the record to it, and never lowers it.
pub record_issued_id-ReachesGid :
    (writes : Bool) (file file' : IssuedFile) (n k : ℕ)
    → record_issued_id writes shared_gid n file ≡ some file'
    → ReachesGid n file' × (ReachesGid k file → ReachesGid k file')
unfolding record_issued_id read_issued_id_max
record_issued_id-ReachesGid writes no_file file' n k h =
    (λ m r. ground (arith, h, r), λ old m r. ground (arith, h, r, old 0 refl))
record_issued_id-ReachesGid writes corrupt file' n k h =
    (λ m r. ground (arith, h, r), λ old m r. ground (arith, h, r))
record_issued_id-ReachesGid writes (holds i) file' n k h =
    (λ m r. ground (arith, h, r), λ old m r. ground (arith, h, r, old i.shared_gid))

module _ (set : Settings) (disk : Disk) where
  -- The effect of a new line, in terms of the map from names to entries.
  add_group_lem :
      (name : String) (members : List String) (c : Checked ℕ) (files : Files) {gid : ℕ}
      → first_group name files.groups ≡ none
      → (add_group set disk name members c files).0 ≡ granted gid
      → let e : GroupEntry = record { name = name; gid = gid; members = members } in
        (c ≡ granted gid)
        × ((n : String)
            → first_group n (add_group set disk name members c files).1.groups
              ≡ updated name e n (first_group n files.groups))
        × ReachesGid gid (add_group set disk name members c files).1.issued
  unfolding add_group append_line
  add_group_lem name members (denied e) files absent h = ground arith
  add_group_lem name members (granted g) files {gid = gid} absent h =
      elim (Option-cases (record_issued_id disk.record_writes shared_gid g files.issued)) [
        | inl broken ↦ ground (arith, broken, h)
        | inr (file, raised) ↦ (
          ground (arith, raised, h),
          (λ n. ground (
            arith,
            raised,
            h,
            first_group-append n (record { name = name; gid = gid; members = members })
                files.groups,
          )),
          ground (
            arith,
            raised,
            h,
            record_issued_id-ReachesGid disk.record_writes files.issued file g 0 raised,
          ),
        )
      ]

  -- A gid that `_shared_group_gid` gives is in the band, the name's line has it afterwards and every
  -- other name's line is as it was; and where the name had no line, no line had the gid and it is
  -- above every shared gid issued before, which the record then says.
  pub shared_group_gid_lem :
      (name : String) (files : Files) {gid : ℕ}
      → (shared_group_gid set disk name files).0 ≡ granted gid
      → (in_shared_band set gid ≡ true)
        × ((e : GroupEntry) × (e.gid ≡ gid)
            × ((n : String)
                → first_group n (shared_group_gid set disk name files).1.groups
                  ≡ updated name e n (first_group n files.groups)))
        × (first_group name files.groups ≡ none
            → (elem gid (used_gids files.groups) ≡ false)
              × ((m : ℕ) × (read_issued_id_max shared_gid files.issued ≡ some m) × (m < gid))
              × ReachesGid gid (shared_group_gid set disk name files).1.issued)
  unfolding shared_group_gid shared_gid_of
  shared_group_gid_lem name files {gid = gid} h =
      elim (Option-cases (first_group name files.groups)) [
        | inl absent ↦
            let (issued, line, reaches) =
              add_group_lem name [] (issue_shared_gid set files) files absent (rw absent at h) in
            let (band, unused, above) = issue_shared_gid_lem set files issued in
            (
              band,
              (record { name = name; gid = gid; members = [] }, refl, rw absent line),
              λ p. (unused, above, rw absent reaches),
            )
        | inr (g, found) ↦ (
          ground (arith, found, h),
          (g, ground (arith, found, h), λ n. ground (arith, found, h, eq_iff n name)),
          λ p. absurd (ground (arith, found, p)),
        )
      ]

  new_gid_unused :
      (asked : Option ℕ) (files : Files) {gid : ℕ}
      → new_gid set disk asked files ≡ granted gid
      → elem gid (used_gids files.groups) ≡ false
  unfolding new_gid
  new_gid_unused none files h = (issue_shared_gid_lem set files h).1
  new_gid_unused (some k) files h = ground (arith, h)

  -- A gid that `_write_group_line` chooses for a new name is above every shared gid issued before.
  pub write_group_line-above :
      (name : String) (members : List String) (files : Files) {gid : ℕ}
      → first_group name files.groups ≡ none
      → (write_group_line set disk name none members files).0 ≡ granted gid
      → (m : ℕ) × (read_issued_id_max shared_gid files.issued ≡ some m) × (m < gid)
  unfolding write_group_line write_line new_gid
  write_group_line-above name members files absent h =
      let (fresh, line, reaches) =
        add_group_lem name (sorted members) (issue_shared_gid set files) files absent
          (rw absent at h) in
      (issue_shared_gid_lem set files fresh).2

  -- After `_write_group_line` gives a gid, the name's line holds that gid and the sorted members, and
  -- every other name's line is as it was. The gid is that asked for, that of the name's line, or
  -- issued; where the name had no line, no line had the gid, and the record reaches it.
  pub write_group_line_lem :
      (name : String) (asked : Option ℕ) (members : List String) (files : Files) {gid : ℕ}
      → (write_group_line set disk name asked members files).0 ≡ granted gid
      → let files' = (write_group_line set disk name asked members files).1 in
        ((n : String)
          → first_group n files'.groups
            ≡ updated name
                (record { name = name; gid = gid; members = sorted members })
                n
                (first_group n files.groups))
        × ((k : ℕ) → asked ≡ some k → k ≡ gid)
        × (first_group name files.groups ≡ none
            → (elem gid (used_gids files.groups) ≡ false) × ReachesGid gid files'.issued)
  unfolding write_group_line write_line new_gid differs
  write_group_line_lem name asked members files {gid = gid} h =
      elim (Option-cases (first_group name files.groups)) [
        | inl absent ↦
            let (fresh, line, reaches) =
              add_group_lem name (sorted members) (new_gid set disk asked files) files absent
                (rw absent at h) in
            (
              rw absent line,
              λ k p. ground (arith, fresh, p),
              λ p. (new_gid_unused asked files fresh, rw absent reaches),
            )
        | inr (g, found) ↦ (
          λ n. ground (
            arith,
            found,
            h,
            first_group-rewrite n (record { name = name; gid = g.gid; members = sorted members }) g
                files.groups,
          ),
          λ k p. ground (arith, found, h, p),
          λ p. absurd (ground (arith, found, p)),
        )
      ]
