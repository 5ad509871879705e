-- ===== src/AccountCreation/Outcomes.antt =====
-- What a creation that returns has written, and what a failed one leaves.
use admin_infra_proposed.Base.{
  ℕ, ◌≡◌, refl, sym, ap, ◌∙◌, inl, inr, ◌⊎◌, arith, eq_iff, eq_refl, Bool-cases, Option-cases,
  String, Bool, true, false, not, ◌&&◌, Option, none, some, List, [], ◌∷◌, ◌++◌, if◌then◌else◌,
  ◌==◌, contains,
}
use admin_infra_proposed.Ledger.{Account, Line, entry, unparsed, IdKind, record_issued_id}
use admin_infra_proposed.Accounts.{
  drop_account, first_account, has_shadow, has_primary, missing_groups, rollback_user,
}
use admin_infra_proposed.Accounts.Interrupted.{first_account-drop_account}
use admin_infra_proposed.AccountCreation.{
  Request, Settings, Answers, Checkpoint, no_checkpoint, marked, loses_lease, mark_raises, State,
  Creation, created, rollback_failed, refused, chosen, Chosen, has_account, returning_owner_uid,
  primary_exists, Joining, join_groups, with_primary, choose_uid, new_account, roll_back,
  write_sudoers, write_shadow, groups_joined, write_groups, write_passwd, mark, record_uid, locked,
  step_create_account,
}
use admin_infra_proposed.AccountCreation.Groups.{has_primary-with_primary, join_groups_lem}

abbrev pub is_created : Creation → Bool
is_created (created uid) = true
is_created _ = false

pub first_account-append :
    (n : String) (lines : List (Line Account)) (a : Account)
    → first_account n (lines ++ entry a ∷ []) ≡ elim (first_account n lines) [
      | some b ↦ some b
      | none ↦ if a.name == n then some a else none
    ]
unfolding first_account
first_account-append n [] a = ground arith
first_account-append n (entry b ∷ lines) a = ground (arith, first_account-append n lines a)
first_account-append n (unparsed t ∷ lines) a = first_account-append n lines a

pub no_account :
    (name : String) (lines : List (Line Account))
    → has_account name lines ≡ false
    → first_account name lines ≡ none
unfolding has_account first_account
no_account name [] h = refl
no_account name (entry a ∷ lines) h = ground (arith, h, no_account name lines)
no_account name (unparsed t ∷ lines) h = no_account name lines h

module _ (set : Settings) (ans : Answers) (q : Request) where
  -- After the account stands in the passwd file: it stays there, or the rollback takes it out, unless
  -- it cannot write that file.
  Ends : State → Creation × State → Type 0
  Ends s r =
      ((is_created r.0 ≡ true) × (r.1.files.accounts ≡ s.files.accounts))
      ⊎ ((is_created r.0 ≡ false) × (r.1.files.accounts ≡ drop_account q.name s.files.accounts))
      ⊎ ((ans.undoes_passwd ≡ false)
          × (r.0 ≡ rollback_failed)
          × (r.1.files.accounts ≡ s.files.accounts))

  sudoers-Ends : (uid : ℕ) (s : State) → Ends s (write_sudoers set ans q uid s)
  unfolding Ends write_sudoers roll_back rollback_user
  sudoers-Ends uid s = ground arith

  shadow-Ends : (uid : ℕ) (s : State) → Ends s (write_shadow set ans q uid s)
  unfolding Ends write_shadow roll_back rollback_user
  shadow-Ends uid s =
      let files = record s.files { shadows = s.files.shadows ++ entry q.name ∷ [] } in
      ground (arith, sudoers-Ends uid (record s { files = files }))

  joined-Ends :
      (uid : ℕ) (s : State) (r : Bool × Joining) → Ends s (groups_joined set ans q uid s r)
  unfolding Ends groups_joined roll_back rollback_user
  joined-Ends uid s (ok, j) = ground (
    arith,
    shadow-Ends uid (record { files = record s.files { groups = j.lines }; issued = j.issued }),
  )

  groups-Ends : (uid : ℕ) (s : State) → Ends s (write_groups set ans q uid s)
  unfolding Ends write_groups roll_back rollback_user
  groups-Ends uid s = elim (Option-cases (primary_exists uid q.pg_name s.files.groups)) [
    | inl conflict ↦ ground (arith, conflict)
    | inr (there, found) ↦
        let r =
          join_groups ans.writes_issued set.shared_gid_min q.name q.supp_groups (record {
            issued = s.issued;
            lines = with_primary q.pg_name uid there s.files.groups;
          }) in
        rw (found, write_groups) (joined-Ends uid s r)
  ]

  undone :
      (n : String) (uid : ℕ) (lines : List (Line Account))
      → has_account q.name lines ≡ false
      → first_account n (drop_account q.name (lines ++ entry (new_account q uid) ∷ []))
        ≡ first_account n lines
  undone n uid lines h =
      first_account-drop_account n q.name (lines ++ entry (new_account q uid) ∷ [])
      ∙ ground (
        arith,
        first_account-append n lines (new_account q uid),
        no_account q.name lines h,
        eq_iff n q.name,
        eq_iff q.name n,
      )

  -- The new entry is left in the passwd file.
  abbrev pub LeftOver : State → Creation × State → Type 0
  LeftOver s r =
      (ans.undoes_passwd ≡ false)
      × (r.0 ≡ rollback_failed)
      × (has_account q.name s.files.accounts ≡ false)
      × ((uid : ℕ) × (r.1.files.accounts ≡ s.files.accounts ++ entry (new_account q uid) ∷ []))

  abbrev Unchanged : State → Creation × State → Type 0
  Unchanged s r =
      is_created r.0 ≡ false
      → (n : String)
      → (first_account n r.1.files.accounts ≡ first_account n s.files.accounts) ⊎ LeftOver s r

  passwd-Unchanged :
      (uid : ℕ) (s : State)
      → has_account q.name s.files.accounts ≡ false
      → Unchanged s (write_passwd set ans q uid s)
  unfolding write_passwd Ends
  passwd-Unchanged uid s new failed n =
      let lines = s.files.accounts ++ entry (new_account q uid) ∷ [] in
      let s' = record s { files = record s.files { accounts = lines } } in
      elim (Bool-cases ans.writes_passwd) [
        | inr fails ↦ inl (ground (arith, fails))
        | inl works ↦ elim (groups-Ends uid s') [
          | inl (made, same) ↦ absurd (ground (arith, works, failed, made))
          | inr (inr (stuck, why, same)) ↦
              inr (stuck, ground (arith, works, why), new, (uid, ground (arith, works, same)))
          | inr (inl (unmade, dropped)) ↦
              let same : (write_passwd set ans q uid s).1.files.accounts
                  ≡ drop_account q.name lines =
                ground (arith, works, dropped) in
              inl (ap (first_account n) same ∙ undone n uid s.files.accounts new)
        ]
      ]

  mark-Unchanged :
      (uid : ℕ) (checkpoint : Checkpoint) (s : State)
      → has_account q.name s.files.accounts ≡ false
      → Unchanged s (mark set ans q uid checkpoint s)
  unfolding mark
  mark-Unchanged uid no_checkpoint s new = passwd-Unchanged uid s new
  mark-Unchanged uid marked s new = passwd-Unchanged uid s new
  mark-Unchanged uid loses_lease s new = λ failed n. inl refl
  mark-Unchanged uid mark_raises s new = λ failed n. inl refl

  record-Unchanged :
      (c : Chosen) (s : State)
      → has_account q.name s.files.accounts ≡ false
      → Unchanged s (record_uid set ans q c s)
  unfolding record_uid
  record-Unchanged (refused o) s new failed n = inl refl
  record-Unchanged (chosen uid) s new failed n =
      elim (Option-cases (record_issued_id ans.writes_issued IdKind.uid uid s.issued)) [
        | inl broken ↦ inl (ground (arith, broken))
        | inr (file, done) ↦
            let s' = record s { issued = file } in
            ground (
              arith,
              done,
              failed,
              mark-Unchanged uid ans.checkpoint s' new (ground (arith, done, failed)) n,
            )
      ]

  locked-Unchanged :
      (returning : Option (ℕ × List String)) (s : State)
      → Unchanged s (locked set ans q returning s)
  unfolding locked
  locked-Unchanged returning s failed n = elim (Bool-cases (has_account q.name s.files.accounts)) [
    | inl there ↦ inl (ground (arith, there))
    | inr new ↦ ground (
      arith,
      new,
      failed,
      record-Unchanged (choose_uid set q returning s) s new (ground (arith, new, failed)) n,
    )
  ]

  -- A creation that fails, at whatever file and with whatever error, leaves for every name the
  -- passwd entry that was there, and so none for the new user; unless the rollback's own write of
  -- the passwd file fails, and then the new entry at the end of that file is what is left.
  pub failed_creation :
      (s : State) (n : String)
      → is_created (step_create_account set ans q s).0 ≡ false
      → (first_account n (step_create_account set ans q s).1.files.accounts
          ≡ first_account n s.files.accounts)
        ⊎ LeftOver s (step_create_account set ans q s)
  unfolding step_create_account
  failed_creation s n failed = elim (Option-cases (returning_owner_uid ans q s.files.accounts)) [
    | inl broken ↦ inl (ground (arith, broken))
    | inr (returning, found) ↦
        ground
          (arith, found, failed, locked-Unchanged returning s (ground (arith, found, failed)) n)
  ]

  -- What the files have after the stages from the group file on.
  abbrev pub Wrote : ℕ → State → Creation × State → Type 0
  Wrote uid s r =
      (r.0 ≡ created uid)
      × (r.1.files.accounts ≡ s.files.accounts)
      × (has_shadow q.name r.1.files.shadows ≡ true)
      × ((set.sudoers && not (contains q.name r.1.files.sudoers)) ≡ false)

  has_shadow-append :
      (lines : List (Line String)) → has_shadow q.name (lines ++ entry q.name ∷ []) ≡ true
  unfolding has_shadow
  has_shadow-append [] = ground (arith, eq_refl q.name)
  has_shadow-append (entry m ∷ lines) = ground (arith, has_shadow-append lines)
  has_shadow-append (unparsed t ∷ lines) = has_shadow-append lines

  sudoers_written :
      (uid : ℕ) (s : State)
      → let r = write_sudoers set ans q uid s in
        is_created r.0 ≡ true
        → has_shadow q.name s.files.shadows ≡ true
        → Wrote uid s r × (r.1.files.groups ≡ s.files.groups)
  unfolding write_sudoers roll_back rollback_user contains
  sudoers_written uid s h k = ground (arith, h, k, eq_refl q.name)

  shadow_written :
      (uid : ℕ) (s : State)
      → let r = write_shadow set ans q uid s in
        is_created r.0 ≡ true → Wrote uid s r × (r.1.files.groups ≡ s.files.groups)
  unfolding write_shadow roll_back rollback_user
  shadow_written uid s h =
      let files = record s.files { shadows = s.files.shadows ++ entry q.name ∷ [] } in
      let s' = record s { files = files } in
      ground (arith, h, sudoers_written uid s', has_shadow-append s.files.shadows)

  joined_written :
      (uid : ℕ) (s : State) (r : Bool × Joining)
      → let r' = groups_joined set ans q uid s r in
        is_created r'.0 ≡ true → Wrote uid s r' × (r'.1.files.groups ≡ r.1.lines) × (r.0 ≡ true)
  unfolding groups_joined roll_back rollback_user
  joined_written uid s (ok, j) h = ground (
    arith,
    h,
    shadow_written uid (record { files = record s.files { groups = j.lines }; issued = j.issued }),
  )

  pub groups_written :
      (uid : ℕ) (s : State)
      → let r = write_groups set ans q uid s in
        is_created r.0 ≡ true
        → Wrote uid s r
          × (has_primary uid q.pg_name r.1.files.groups ≡ true)
          × (missing_groups q.name q.supp_groups r.1.files.groups ≡ [])
  unfolding write_groups roll_back
  groups_written uid s h = elim (Option-cases (primary_exists uid q.pg_name s.files.groups)) [
    | inl conflict ↦ absurd (ground (arith, h, conflict))
    | inr (there, found) ↦
        let j : Joining = record {
          issued = s.issued;
          lines = with_primary q.pg_name uid there s.files.groups;
        } in
        let loop = join_groups ans.writes_issued set.shared_gid_min q.name q.supp_groups j in
        let same : write_groups set ans q uid s ≡ groups_joined set ans q uid s loop =
          ground (arith, found) in
        let (wrote, lines, ok) =
          joined_written uid s loop (ap (λ r. is_created r.0) (sym same) ∙ h) in
        let (missing, primary, members) =
          join_groups_lem ans.writes_issued set.shared_gid_min q.name q.supp_groups j ok in
        rw same (
          wrote,
          ap (has_primary uid q.pg_name) lines
              ∙ primary uid q.pg_name
                  (has_primary-with_primary uid q.pg_name there s.files.groups found),
          ap (missing_groups q.name q.supp_groups) lines ∙ missing,
        )
  ]
