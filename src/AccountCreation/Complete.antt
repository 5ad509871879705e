-- ===== src/AccountCreation/Complete.antt =====
-- A creation that returns has written every part of the account.
use admin_infra_proposed.Base.{
  ℕ, ◌≤◌, ◌≡◌, refl, sym, ap, ◌∙◌, inl, inr, arith, eq_refl, Bool-cases, Option-cases, String, Bool,
  true, false, not, ◌&&◌, Option, none, some, List, [], ◌∷◌, ◌++◌, contains,
}
use admin_infra_proposed.Ledger.{
  entry, elem, used_uids, IdKind, record_issued_id, read_issued_id_max,
}
use admin_infra_proposed.Ledger.Free.{allocate_next_uid_lem}
use admin_infra_proposed.Accounts.{
  AccountFiles, AccountJob, first_account, has_shadow, has_primary, missing_groups,
  account_missing_parts,
}
use admin_infra_proposed.Reclaim.{reclaim_uid, reclaim_uid_lem}
use admin_infra_proposed.AccountCreation.{
  Request, Settings, Answers, Checkpoint, no_checkpoint, marked, loses_lease, mark_raises, State,
  Creation, created, refused, chosen, Chosen, has_account, returning_owner_uid, choose_uid,
  next_uid, new_account, within, write_groups, write_passwd, mark, record_uid, locked,
  step_create_account,
}
use admin_infra_proposed.AccountCreation.Outcomes.{
  is_created, first_account-append, no_account, groups_written,
}

-- The job as an interrupted attempt of it is judged.
abbrev pub job_of : Request → Option ℕ → AccountJob
job_of q started = record {
  name = q.name;
  pg_name = q.pg_name;
  supp_groups = q.supp_groups;
  account_write_started = started;
}

nothing_missing :
    (policy : Bool) (job : AccountJob) (gid : ℕ) (files : AccountFiles)
    → has_primary gid job.pg_name files.groups ≡ true
    → missing_groups job.name job.supp_groups files.groups ≡ []
    → has_shadow job.name files.shadows ≡ true
    → (policy && not (contains job.name files.sudoers)) ≡ false
    → account_missing_parts policy job gid files ≡ []
unfolding account_missing_parts
nothing_missing policy job gid files a b c d = ground (arith, a, b, c, d)

abbrev is_refused : Chosen → Bool
is_refused (refused o) = true
is_refused (chosen uid) = false

module _ (set : Settings) (ans : Answers) (q : Request) where
  -- The uid that was chosen is no account's and not below the band; a refusal is no creation.
  Fits : State → Chosen → Type 0
  Fits s (chosen uid) = (elem uid (used_uids s.files.accounts) ≡ false) × (set.uid_min ≤ uid)
  Fits s (refused o) = is_created o ≡ false

  next_uid-Fits : (s : State) (issued : Option ℕ) → Fits s (next_uid set s.files.accounts issued)
  unfolding Fits next_uid
  next_uid-Fits s none = refl
  next_uid-Fits s (some issued) =
      let (n, given, free, above, low, rest) =
        allocate_next_uid_lem s.files.accounts set.uid_min issued in
      elim (Bool-cases (within n set.uid_max)) [
        | inl fits ↦ rw (given, next_uid) (rw fits (free, low))
        | inr over ↦ rw (given, next_uid) (rw over refl)
      ]

  choose_uid-Fits :
      (returning : Option (ℕ × List String)) (s : State) → Fits s (choose_uid set q returning s)
  unfolding choose_uid Fits
  choose_uid-Fits none s = next_uid-Fits s (read_issued_id_max IdKind.uid s.issued)
  choose_uid-Fits (some (uid, homes)) s =
      let answer =
        reclaim_uid set.uid_min set.uid_max uid (q.name ∷ q.pg_name ∷ []) homes s.files.accounts
          s.files.groups in
      elim (Option-cases answer) [
        | inl conflict ↦ rw (conflict, choose_uid) refl
        | inr (u, given) ↦
            let (same, low, free, _, _) =
              reclaim_uid_lem set.uid_min set.uid_max uid u (q.name ∷ q.pg_name ∷ []) homes
                s.files.accounts s.files.groups given in
            rw (given, choose_uid) (rw same (free, low))
      ]

  -- The account is in the passwd file with the uid, and no part of it is missing.
  abbrev pub Complete : ℕ → Option ℕ → Creation × State → Type 0
  Complete uid started r =
      (r.0 ≡ created uid)
      × (first_account q.name r.1.files.accounts ≡ some (new_account q uid))
      × (account_missing_parts set.sudoers (job_of q started) uid r.1.files ≡ [])

  passwd-Complete :
      (uid : ℕ) (started : Option ℕ) (s : State)
      → has_account q.name s.files.accounts ≡ false
      → is_created (write_passwd set ans q uid s).0 ≡ true
      → Complete uid started (write_passwd set ans q uid s)
  unfolding write_passwd
  passwd-Complete uid started s new h =
      let lines = s.files.accounts ++ entry (new_account q uid) ∷ [] in
      let s' = record s { files = record s.files { accounts = lines } } in
      elim (Bool-cases ans.writes_passwd) [
        | inr fails ↦ absurd (ground (arith, fails, h))
        | inl works ↦
            let same : write_passwd set ans q uid s ≡ write_groups set ans q uid s' =
              ground (arith, works) in
            let ((made, accounts, shadow, sudoers), primary, missing) =
              groups_written set ans q uid s' (ap (λ r. is_created r.0) (sym same) ∙ h) in
            let files' = (write_groups set ans q uid s').1.files in
            (
              ap (λ r. r.0) same ∙ made,
              ap (λ r. first_account q.name r.1.files.accounts) same
                  ∙ ap (first_account q.name) accounts
                  ∙ first_account-append q.name s.files.accounts (new_account q uid)
                  ∙ ground (arith, no_account q.name s.files.accounts new, eq_refl q.name),
              ap (λ r. account_missing_parts set.sudoers (job_of q started) uid r.1.files) same
                  ∙ nothing_missing set.sudoers (job_of q started) uid files' primary missing shadow
                      sudoers,
            )
      ]

  mark-Complete :
      (uid : ℕ) (started : Option ℕ) (checkpoint : Checkpoint) (s : State)
      → has_account q.name s.files.accounts ≡ false
      → is_created (mark set ans q uid checkpoint s).0 ≡ true
      → Complete uid started (mark set ans q uid checkpoint s)
  unfolding mark
  mark-Complete uid started no_checkpoint s new h = passwd-Complete uid started s new h
  mark-Complete uid started marked s new h = passwd-Complete uid started s new h
  mark-Complete uid started loses_lease s new h = absurd (ground (arith, h))
  mark-Complete uid started mark_raises s new h = absurd (ground (arith, h))

  -- With the uid chosen.
  Made : State → Option ℕ → Creation × State → Type 0
  Made s started r =
      (uid : ℕ) × Complete uid started r
      × (elem uid (used_uids s.files.accounts) ≡ false)
      × (set.uid_min ≤ uid)

  record-Made :
      (c : Chosen) (started : Option ℕ) (s : State)
      → Fits s c
      → has_account q.name s.files.accounts ≡ false
      → is_created (record_uid set ans q c s).0 ≡ true
      → Made s started (record_uid set ans q c s)
  unfolding Made Fits record_uid
  record-Made (refused o) started s fits new h = absurd (ground (arith, fits, h))
  record-Made (chosen uid) started s (free, low) new h =
      elim (Option-cases (record_issued_id ans.writes_issued IdKind.uid uid s.issued)) [
        | inl broken ↦ absurd (ground (arith, broken, h))
        | inr (file, done) ↦
            let s' = record s { issued = file } in
            let same : record_uid set ans q (chosen uid) s ≡ mark set ans q uid ans.checkpoint s' =
              ground (arith, done) in
            rw same (
              uid,
              mark-Complete uid started ans.checkpoint s' new
                  (ap (λ r. is_created r.0) (sym same) ∙ h),
              free,
              low,
            )
      ]

  locked-Made :
      (returning : Option (ℕ × List String)) (started : Option ℕ) (s : State)
      → is_created (locked set ans q returning s).0 ≡ true
      → Made s started (locked set ans q returning s)
  unfolding locked
  locked-Made returning started s h = elim (Bool-cases (has_account q.name s.files.accounts)) [
    | inl there ↦ absurd (ground (arith, h, there))
    | inr new ↦
        let same : locked set ans q returning s
            ≡ record_uid set ans q (choose_uid set q returning s) s =
          ground (arith, new) in
        rw same (
          record-Made (choose_uid set q returning s) started s (choose_uid-Fits returning s) new
            (ap (λ r. is_created r.0) (sym same) ∙ h))
  ]

  -- A creation that returns has made the account with a uid that no account had, at or above the
  -- least uid: its passwd entry is found by its name, and no part of it is missing.
  pub created-Complete :
      (s : State) (started : Option ℕ)
      → let r = step_create_account set ans q s in
        is_created r.0 ≡ true
        → (uid : ℕ) × Complete uid started r
          × (elem uid (used_uids s.files.accounts) ≡ false)
          × (set.uid_min ≤ uid)
  unfolding step_create_account Made
  created-Complete s started h = elim (Option-cases (returning_owner_uid ans q s.files.accounts)) [
    | inl broken ↦ absurd (ground (arith, h, broken))
    | inr (returning, found) ↦
        let same : step_create_account set ans q s ≡ locked set ans q returning s =
          ground (arith, found) in
        rw same (locked-Made returning started s (ap (λ r. is_created r.0) (sym same) ∙ h))
  ]
