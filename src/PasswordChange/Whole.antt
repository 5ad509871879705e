-- ===== src/PasswordChange/Whole.antt =====
-- The change is whole: everywhere the new hash, or everywhere the old one again.
use admin_infra_proposed.Base.{
  ℕ, String, Bool, true, false, none, some, List, ◌≡◌, refl, ◌∙◌, arith, ◌==◌, eq_refl, Bool-cases,
  Option-cases, inl, inr,
}
use admin_infra_proposed.Ledger.{Line}
use admin_infra_proposed.Requests.Hashes.{is_sha512_crypt}
use admin_infra_proposed.PasswordChange.{
  Shadow, Pod, Places, Answers, PasswordResult, changed, user_not_found, ledger_write_raised,
  secret_update_failed, pod_password_sync_failed, set_hash, update_account_secrets,
  sync_running_pod_password, restored_pods, restore_password, roll_back_password, change_pods,
  step_change_login_password,
}
use admin_infra_proposed.PasswordChange.InForce.{
  ledger_hash, secrets_hold, pods_hold, InForce, set_hash_lem, ledger_hash-set_hash,
  patch_secrets_lem, execute_running_lem, secrets_hold-execute_running,
}

-- Nobody else's hash is another one in the ledger.
abbrev pub OthersKeep : String → List (Line Shadow) → List (Line Shadow) → Type 0
OthersKeep user before after =
    (n : String) → (n == user) ≡ false → ledger_hash n after ≡ ledger_hash n before

update_lem :
    (answers : Answers) (hash : String) (pods : List Pod)
    → (update_account_secrets answers hash pods).0 ≡ true
    → secrets_hold hash (update_account_secrets answers hash pods).1 ≡ true
unfolding update_account_secrets
update_lem answers hash pods h = ground (arith, h, patch_secrets_lem answers.patches hash pods)

sync_lem :
    (answers : Answers) (hash : String) (pods : List Pod)
    → (sync_running_pod_password answers hash pods).0 ≡ true
    → pods_hold hash (sync_running_pod_password answers hash pods).1 ≡ true
unfolding sync_running_pod_password
sync_lem answers hash pods h = ground (arith, h, execute_running_lem answers.executes hash pods)

secrets_hold-sync :
    (answers : Answers) (hash h : String) (pods : List Pod)
    → secrets_hold h (sync_running_pod_password answers hash pods).1 ≡ secrets_hold h pods
unfolding sync_running_pod_password
secrets_hold-sync answers hash h pods =
    ground (arith, secrets_hold-execute_running answers.executes hash h pods)

-- Both rounds over the pods went through.
both_rounds :
    (answers : Answers) (user hash : String) (lines : List (Line Shadow)) (pods : List Pod)
    → ledger_hash user lines ≡ some hash
    → (update_account_secrets answers hash pods).0 ≡ true
    → let secrets = (update_account_secrets answers hash pods).1 in
      (sync_running_pod_password answers hash secrets).0 ≡ true
      → InForce user hash
          (record { ledger = lines; pods = (sync_running_pod_password answers hash secrets).1 })
both_rounds answers user hash lines pods l p q =
    let secrets = (update_account_secrets answers hash pods).1 in
    record {
      in_ledger = l;
      in_secrets = secrets_hold-sync answers hash hash secrets ∙ update_lem answers hash pods p;
      in_pods = sync_lem answers hash secrets q;
    }

-- What a rollback that reports success has restored.
abbrev Restored : String → String → Bool × Places → Type 0
Restored user old (true, s) = InForce user old s
Restored user old (false, s) = Unit {0}

restored_pods_lem :
    (today : ℕ) (answers : Answers) (user old : String) (lines : List (Line Shadow))
    (pods : List Pod)
    → ledger_hash user lines ≡ some old
    → Restored user old (restored_pods today answers old lines pods)
unfolding restored_pods
restored_pods_lem today answers user old lines pods h =
    let secrets = update_account_secrets answers old pods in
    elim (Bool-cases (is_sha512_crypt old)) [
      | inr other ↦ rw other tt
      | inl crypt ↦ elim (Bool-cases secrets.0) [
        | inr raised ↦ rw (crypt, raised) tt
        | inl p ↦ elim (Bool-cases (sync_running_pod_password answers old secrets.1).0) [
          | inr part ↦ rw (crypt, p, part) tt
          | inl q ↦ rw (crypt, p, q) (both_rounds answers user old lines pods h p q)
        ]
      ]
    ]

ledger-restored_pods :
    (today : ℕ) (answers : Answers) (old : String) (lines : List (Line Shadow)) (pods : List Pod)
    → (restored_pods today answers old lines pods).1.ledger ≡ lines
unfolding restored_pods
ledger-restored_pods today answers old lines pods = ground arith

module _ (today : ℕ) (back : Answers) (user hash old : String) (s : Places) where
  ledger-roll_back :
      (n : String)
      → (n == user) ≡ false
      → ledger_hash n (roll_back_password today back user hash old s).1.ledger
        ≡ ledger_hash n s.ledger
  unfolding roll_back_password restore_password
  ledger-roll_back n other = ground (
    arith,
    other,
    ledger-restored_pods today back old (set_hash today user old s.ledger).1 s.pods,
    ledger_hash-set_hash today user old n s.ledger,
  )

  roll_back_lem :
      {h : String}
      → ledger_hash user s.ledger ≡ some h
      → Restored user old (roll_back_password today back user hash old s)
  unfolding roll_back_password restore_password
  roll_back_lem l = elim (Bool-cases (old == hash)) [
    | inl same ↦ rw same tt
    | inr other ↦ elim (Bool-cases back.writes_ledger) [
      | inr full ↦ rw (other, full) tt
      | inl writes ↦
          rw (other, writes)
            (restored_pods_lem today back user old (set_hash today user old s.ledger).1 s.pods
              (ground (arith, l, ledger_hash-set_hash today user old user s.ledger, eq_refl user)))
    ]
  ]

-- After a rollback that is told as done, the hash that was in the ledger is in force again.
abbrev pub RolledBack : String → Places → Bool → Places → Type 0
RolledBack user before true after =
    (old : String) × (ledger_hash user before.ledger ≡ some old) × InForce user old after
RolledBack user before false after = Unit {0}

-- How the places stand after each result, and that nobody else's hash in the ledger is another.
abbrev pub IsWhole : String → String → Places → PasswordResult → Places → Type 0
IsWhole user hash before changed after = InForce user hash after
IsWhole user hash before user_not_found after =
    (ledger_hash user before.ledger ≡ none) × (after ≡ before)
IsWhole user hash before ledger_write_raised after = after ≡ before
IsWhole user hash before (secret_update_failed rolled_back) after =
    RolledBack user before rolled_back after
IsWhole user hash before (pod_password_sync_failed rolled_back) after =
    RolledBack user before rolled_back after

rolled_back :
    (user old : String) (before : Places) (r : Bool × Places)
    → ledger_hash user before.ledger ≡ some old
    → Restored user old r
    → RolledBack user before r.0 r.1
rolled_back user old before (true, s) l h = (old, l, h)
rolled_back user old before (false, s) l h = tt

change_pods_lem :
    (today : ℕ) (answers back : Answers) (user hash old : String) (lines : List (Line Shadow))
    (before : Places)
    → ledger_hash user before.ledger ≡ some old
    → ledger_hash user lines ≡ some hash
    → let r = change_pods today answers back user hash old lines before.pods in
      IsWhole user hash before r.0 r.1
unfolding change_pods
change_pods_lem today answers back user hash old lines before l l' =
    let secrets = update_account_secrets answers hash before.pods in
    let synced = sync_running_pod_password answers hash secrets.1 in
    let restored = λ (pods : List Pod).
      rolled_back user old before
        (roll_back_password today back user hash old (record { ledger = lines; pods = pods })) l
        (roll_back_lem today back user hash old (record { ledger = lines; pods = pods }) l') in
    elim (Bool-cases secrets.0) [
      | inr raised ↦ rw raised (restored secrets.1)
      | inl p ↦ elim (Bool-cases synced.0) [
        | inr part ↦ rw (p, part) (restored synced.1)
        | inl q ↦ rw (p, q) (both_rounds answers user hash lines before.pods l' p q)
      ]
    ]

ledger-change_pods :
    (today : ℕ) (answers back : Answers) (user hash old n : String) (lines : List (Line Shadow))
    (pods : List Pod)
    → (n == user) ≡ false
    → ledger_hash n (change_pods today answers back user hash old lines pods).1.ledger
      ≡ ledger_hash n lines
unfolding change_pods
ledger-change_pods today answers back user hash old n lines pods other =
    let secrets = (update_account_secrets answers hash pods).1 in
    let synced = (sync_running_pod_password answers hash secrets).1 in
    ground (
      arith,
      ledger-roll_back today back user hash old (record { ledger = lines; pods = secrets }) n other,
      ledger-roll_back today back user hash old (record { ledger = lines; pods = synced }) n other,
    )

-- A change that succeeds leaves the new hash in the ledger, in every account Secret of the user and
-- in every running pod; one that fails and tells that it rolled back leaves the hash that was in the
-- ledger in all of them; one that finds no user, or cannot write the ledger, changes nothing. Nobody
-- else's hash changes in the ledger, whatever happens.
pub step_change_login_password_lem :
    (today : ℕ) (answers back : Answers) (user hash : String) (s : Places)
    → let r = step_change_login_password today answers back user hash s in
      IsWhole user hash s r.0 r.1 × OthersKeep user s.ledger r.1.ledger
unfolding step_change_login_password
step_change_login_password_lem today answers back user hash s =
    let found = set_hash_lem today user hash s.ledger in
    elim (Option-cases (ledger_hash user s.ledger)) [
      | inl e ↦ rw (found ∙ e, step_change_login_password) ((e, refl), λ n other. refl)
      | inr (old, e) ↦ elim (Bool-cases answers.writes_ledger) [
        | inr full ↦ rw (found ∙ e, full, step_change_login_password) (refl, λ n other. refl)
        | inl writes ↦
            let lines = (set_hash today user hash s.ledger).1 in
            rw (found ∙ e, writes, step_change_login_password)
              (
                change_pods_lem today answers back user hash old lines s e (
                    ground
                      (arith, e, ledger_hash-set_hash today user hash user s.ledger, eq_refl user)),
                λ n other.
                    ledger-change_pods today answers back user hash old n lines s.pods other
                    ∙ ground (arith, other, ledger_hash-set_hash today user hash n s.ledger),
              )
      ]
    ]
