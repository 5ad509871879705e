-- ===== src/Groups/Resolving.antt =====
-- A job that resumes resolves its new groups again: `step_resolve_new_groups`.
use admin_infra_proposed.Base.{
  ℕ, String, ◌≡◌, refl, sym, ap, ◌∙◌, true, Option, none, some, List, [], ◌∷◌, arith, Option-cases,
  Bool-cases, inl, inr, eq_iff, eq_refl,
}
use admin_infra_proposed.Jobs.Plan.{Group, any_new}
use admin_infra_proposed.Ledger.{GroupEntry, record_issued_id, shared_gid}
use admin_infra_proposed.Groups.{
  Settings, Files, Disk, Checked, granted, denied, first_group, in_shared_band, shared_group_gid,
  shared_gid_of, add_group, append_line, check_create, resolve_groups, resolve_new_groups,
  resolve_one, resolved, with_group, GroupFailure,
}
use admin_infra_proposed.Groups.Lines.{first_group-append}
use admin_infra_proposed.Groups.Issuing.{shared_group_gid_lem}

-- The second ledger has the accounts of the first, and the line of every group of it.
unfoldable pub Extends : Files → Files → Type 0
Extends files files' =
    (files'.accounts ≡ files.accounts)
    × ((n : String) (e : GroupEntry)
        → first_group n files.groups ≡ some e
        → first_group n files'.groups ≡ some e)

module _ (set : Settings) where
  add_group-Extends :
      (disk : Disk) (name : String) (members : List String) (c : Checked ℕ) (files : Files)
      → first_group name files.groups ≡ none
      → Extends files (add_group set disk name members c files).1
  unfolding add_group append_line Extends
  add_group-Extends disk name members (denied e) files h = (refl, λ n e p. p)
  add_group-Extends disk name members (granted gid) files h =
      elim (Option-cases (record_issued_id disk.record_writes shared_gid gid files.issued)) [
        | inl broken ↦ (ground (arith, broken), λ n e p. ground (arith, broken, p))
        | inr (file, raised) ↦ (
          ground (arith, raised),
          λ n e p. ground (
            arith,
            raised,
            p,
            h,
            first_group-append n (record { name = name; gid = gid; members = members })
                files.groups,
            eq_iff n name,
          ),
        )
      ]

  shared_group_gid-Extends :
      (disk : Disk) (name : String) (files : Files)
      → Extends files (shared_group_gid set disk name files).1
  unfolding shared_group_gid shared_gid_of Extends
  shared_group_gid-Extends disk name files = elim (Option-cases (first_group name files.groups)) [
    | inl absent ↦ rw absent (add_group-Extends disk name [] _ files absent)
    | inr (g, found) ↦ (ground (arith, found), λ n e p. ground (arith, found, p))
  ]

  Extends-trans : (a b c : Files) → Extends a b → Extends b c → Extends a c
  unfolding Extends
  Extends-trans a b c p q = (q.0 ∙ p.0, λ n e h. q.1 n e (p.1 n e h))

  takes_over :
      (disk : Disk) (name : String) (e : GroupEntry) (files : Files)
      → first_group name files.groups ≡ some e
      → in_shared_band set e.gid ≡ true
      → shared_group_gid set disk name files ≡ (granted e.gid, files)
  unfolding shared_group_gid shared_gid_of
  takes_over disk name e files found band = ground (arith, found, band)

  -- A name that was given a gid is given it again, and nothing is changed.
  shared_group_gid_again :
      (disk disk' : Disk) (name : String) (files files' : Files) {gid : ℕ}
      → (shared_group_gid set disk name files).0 ≡ granted gid
      → Extends (shared_group_gid set disk name files).1 files'
      → shared_group_gid set disk' name files' ≡ (granted gid, files')
  unfolding Extends
  shared_group_gid_again disk disk' name files files' given (same, keeps) =
      let (band, (e, gid_of, line), fresh) = shared_group_gid_lem set disk name files given in
      let found = keeps name e (line name ∙ ground (arith, eq_refl name)) in
      takes_over disk' name e files' found (rw gid_of band) ∙ rw gid_of refl

  check_create_accounts :
      (files files' : Files) (name : String)
      → files'.accounts ≡ files.accounts
      → check_create set files' name none [] ≡ check_create set files name none []
  unfolding check_create
  check_create_accounts files files' name p = rw p refl

  Extends-refl : (files : Files) → Extends files files
  unfolding Extends
  Extends-refl files = (refl, λ n e p. p)

  with_group-Extends :
      (g : Group) (files : Files) (r : Checked (List Group) × Files)
      → Extends files r.1
      → Extends files (with_group g r).1
  unfolding with_group
  with_group-Extends g files (denied e, files') h = h
  with_group-Extends g files (granted gs, files') h = h

  resolved-Extends :
      (disk : Disk) (g : Group) (go : Files → Checked (List Group) × Files) (files : Files)
      (r : Checked ℕ × Files)
      → Extends files r.1
      → ((f : Files) → Extends f (go f).1)
      → Extends files (resolved set disk g go r).1
  unfolding resolved
  resolved-Extends disk g go files (denied e, files') h k = h
  resolved-Extends disk g go files (granted gid, files') h k =
      with_group-Extends (record g { gid = some gid }) files (go files')
        (Extends-trans files files' (go files').1 h (k files'))

  resolve_one-Extends :
      (disk : Disk) (g : Group) (go : Files → Checked (List Group) × Files)
      (c : Option GroupFailure) (files : Files)
      → ((f : Files) → Extends f (go f).1)
      → Extends files (resolve_one set disk g c go files).1
  unfolding resolve_one
  resolve_one-Extends disk g go (some e) files h = Extends-refl files
  resolve_one-Extends disk g go none files h =
      resolved-Extends disk g go files (shared_group_gid set disk g.name files)
        (shared_group_gid-Extends disk g.name files) h

  resolve_known :
      (disk : Disk) (g : Group) (groups : List Group) (files : Files) (n : ℕ)
      → g.gid ≡ some n
      → resolve_groups set disk (g ∷ groups) files
        ≡ with_group g (resolve_groups set disk groups files)
  unfolding resolve_groups
  resolve_known disk g groups files n p = ground (arith, p)

  resolve_new :
      (disk : Disk) (g : Group) (groups : List Group) (files : Files)
      → g.gid ≡ none
      → resolve_groups set disk (g ∷ groups) files
        ≡ resolve_one set disk g
            (check_create set files g.name none [])
            (resolve_groups set disk groups)
            files
  unfolding resolve_groups
  resolve_new disk g groups files p = ground (arith, p)

  resolve_groups-Extends :
      (disk : Disk) (groups : List Group) (files : Files)
      → Extends files (resolve_groups set disk groups files).1
  unfolding resolve_groups
  resolve_groups-Extends disk [] files = Extends-refl files
  resolve_groups-Extends disk (g ∷ groups) files = elim (Option-cases g.gid) [
    | inl new ↦ rw (resolve_new disk g groups files new) (
        resolve_one-Extends disk g (resolve_groups set disk groups) _ files
          (resolve_groups-Extends disk groups))
    | inr (k, has) ↦ rw (resolve_known disk g groups files k has) (
        with_group-Extends g files (resolve_groups set disk groups files)
          (resolve_groups-Extends disk groups files))
  ]

  with_group-granted :
      (g : Group) (r : Checked (List Group) × Files) {out : List Group}
      → (with_group g r).0 ≡ granted out
      → (rest : List Group) × (r.0 ≡ granted rest) × (out ≡ g ∷ rest) × ((with_group g r).1 ≡ r.1)
  unfolding with_group
  with_group-granted g (denied e, files) h = ground arith
  with_group-granted g (granted gs, files) h = (gs, refl, ground (arith, h), refl)

  abbrev numbered : Group → ℕ → Group
  numbered g n = record g { gid = some n }

  resolved-granted :
      (disk : Disk) (g : Group) (go : Files → Checked (List Group) × Files) (r : Checked ℕ × Files)
      {out : List Group}
      → (resolved set disk g go r).0 ≡ granted out
      → (n : ℕ) × (rest : List Group) × (r.0 ≡ granted n)
        × ((go r.1).0 ≡ granted rest)
        × (out ≡ numbered g n ∷ rest)
        × ((resolved set disk g go r).1 ≡ (go r.1).1)
  unfolding resolved
  resolved-granted disk g go (denied e, files) h = ground arith
  resolved-granted disk g go (granted n, files) h =
      let (rest, given, split, same) = with_group-granted (numbered g n) (go files) h in
      (n, rest, refl, given, split, same)

  with_group_given :
      (g : Group) (rest : List Group) (files : Files)
      → with_group g (granted rest, files) ≡ (granted (g ∷ rest), files)
  unfolding with_group
  with_group_given g rest files = refl

  accounts-Extends :
      (files files' : Files) → Extends files files' → files'.accounts ≡ files.accounts
  unfolding Extends
  accounts-Extends files files' h = h.0

  resolved_again :
      (disk : Disk) (g : Group) (groups : List Group) (n : ℕ) (rest : List Group) (files : Files)
      → shared_group_gid set disk g.name files ≡ (granted n, files)
      → resolve_groups set disk groups files ≡ (granted rest, files)
      → resolved set disk g
          (resolve_groups set disk groups)
          (shared_group_gid set disk g.name files)
        ≡ (granted (numbered g n ∷ rest), files)
  unfolding resolved with_group
  resolved_again disk g groups n rest files one all =
      ap (resolved set disk g (resolve_groups set disk groups)) one
      ∙ ap (with_group (numbered g n)) all

  resolve_one_again :
      (disk disk' : Disk) (g : Group) (groups : List Group) (c : Option GroupFailure)
      (files files' : Files) {out : List Group}
      → ((rest : List Group)
          → (resolve_groups set disk groups (shared_group_gid set disk g.name files).1).0
            ≡ granted rest
          → Extends
              (resolve_groups set disk groups (shared_group_gid set disk g.name files).1).1
              files'
          → resolve_groups set disk' groups files' ≡ (granted rest, files'))
      → (resolve_one set disk g c (resolve_groups set disk groups) files).0 ≡ granted out
      → Extends (resolve_one set disk g c (resolve_groups set disk groups) files).1 files'
      → resolve_one set disk' g c (resolve_groups set disk' groups) files' ≡ (granted out, files')
  unfolding resolve_one
  resolve_one_again disk disk' g groups (some e) files files' ih h k = ground (arith, h)
  resolve_one_again disk disk' g groups none files files' ih h k =
      let first = shared_group_gid set disk g.name files in
      let (n, rest, given, given', split, same) =
        resolved-granted disk g (resolve_groups set disk groups) first h in
      let extends = rw same at k in
      let one = shared_group_gid_again disk disk' g.name files files' given (
        Extends-trans first.1 (resolve_groups set disk groups first.1).1 files'
          (resolve_groups-Extends disk groups first.1) extends) in
      resolved_again disk' g groups n rest files' one (ih rest given' extends)
      ∙ ap (λ o. (granted o, files')) (sym split)

  resolve_groups_again :
      (disk disk' : Disk) (groups : List Group) (files files' : Files) (out : List Group)
      → (resolve_groups set disk groups files).0 ≡ granted out
      → Extends (resolve_groups set disk groups files).1 files'
      → resolve_groups set disk' groups files' ≡ (granted out, files')
  unfolding resolve_groups
  resolve_groups_again disk disk' [] files files' out h k = ground (arith, h)
  resolve_groups_again disk disk' (g ∷ groups) files files' out h k = elim (Option-cases g.gid) [
    | inl new ↦
        let was = resolve_new disk g groups files new in
        let c = check_create set files g.name none [] in
        let h' = ap (λ (x : Checked (List Group) × Files). x.0) (sym was) ∙ h in
        let k' = rw was at k in
        let e =
          resolve_one-Extends disk g (resolve_groups set disk groups) c files
            (resolve_groups-Extends disk groups) in
        resolve_new disk' g groups files' new
        ∙ rw
            (check_create_accounts files files' g.name
              (accounts-Extends _ files' k' ∙ accounts-Extends files _ e))
            (resolve_one_again disk disk' g groups c files files'
              (λ rest. resolve_groups_again disk disk' groups _ files' rest) h' k')
    | inr (n, has) ↦
        let was = resolve_known disk g groups files n has in
        let (rest, given, split, same) =
          with_group-granted g (resolve_groups set disk groups files)
            (ap (λ (x : Checked (List Group) × Files). x.0) (sym was) ∙ h) in
        resolve_known disk' g groups files' n has
        ∙ ap (with_group g) (
            resolve_groups_again disk disk' groups files files' rest given
              (rw same at (rw was at k)))
        ∙ with_group_given g rest files'
        ∙ ap (λ o. (granted o, files')) (sym split)
  ]

  -- A run that gives every new group a gid is repeated by any later run of the step on a ledger
  -- that has the account lines and the line of every group as the first run left them, and perhaps
  -- other groups and issued ids besides: it gives the same gids and changes nothing, also where
  -- nothing can be written.
  pub resolve_new_groups_again :
      (disk disk' : Disk) (groups out : List Group) (files files' : Files)
      → (resolve_new_groups set disk groups files).0 ≡ granted out
      → Extends (resolve_new_groups set disk groups files).1 files'
      → resolve_new_groups set disk' groups files' ≡ (granted out, files')
  unfolding resolve_new_groups
  resolve_new_groups_again disk disk' groups out files files' h k =
      elim (Bool-cases (any_new groups)) [
        | inl new ↦
            rw new
              (resolve_groups_again disk disk' groups files files' out (rw new at h) (rw new at k))
        | inr old ↦ ground (arith, old, h)
      ]
