-- ===== src/PasswordChange/Again.antt =====
-- A repetition of the change ends it, whatever the attempts before it did.
use admin_infra_proposed.Base.{
  ℕ, String, Bool, true, false, some, List, [], ◌∷◌, ◌≡◌, refl, ◌∙◌, subst, arith, if◌then◌else◌,
  ◌==◌, Option-cases, Bool-cases, inl, inr,
}
use admin_infra_proposed.Ledger.{Line, entry, unparsed}
use admin_infra_proposed.PasswordChange.{
  Shadow, Pod, Places, Reply, replied, Answers, changed, set_hash, patch_secret, patch_secrets,
  update_account_secrets, execute, execute_running, sync_running_pod_password, restored_pods,
  restore_password, roll_back_password, change_pods, step_change_login_password,
}
use admin_infra_proposed.PasswordChange.InForce.{ledger_hash, InForce, set_hash_lem}
use admin_infra_proposed.PasswordChange.Whole.{IsWhole, step_change_login_password_lem}

-- Nothing fails.
pub record AllReply (answers : Answers) : Type 0 where
  pub writes_ledger : answers.writes_ledger ≡ true
  pub lists_for_secrets : answers.lists_for_secrets ≡ true
  pub patches : (pod : String) → answers.patches pod ≡ replied
  pub lists_for_pods : answers.lists_for_pods ≡ true
  pub executes : (pod : String) → answers.executes pod ≡ replied

patch_secret-replied : (hash : String) (p : Pod) → (patch_secret replied hash p).0 ≡ true
unfolding patch_secret
patch_secret-replied hash p = elim (Option-cases p.secret) [
  | inl e ↦ ground (arith, e)
  | inr (old, e) ↦ ground (arith, e)
]

patch_secrets-replied :
    (patches : String → Reply) (hash : String) (pods : List Pod)
    → ((pod : String) → patches pod ≡ replied)
    → (patch_secrets patches hash pods).0 ≡ true
unfolding patch_secrets
patch_secrets-replied patches hash [] h = refl
patch_secrets-replied patches hash (p ∷ pods) h =
    ground (arith, h p.name, patch_secret-replied hash p, patch_secrets-replied patches hash pods h)

execute_running-replied :
    (executes : String → Reply) (hash : String) (pods : List Pod)
    → ((pod : String) → executes pod ≡ replied)
    → (execute_running executes hash pods).0 ≡ true
unfolding execute_running execute
execute_running-replied executes hash [] h = refl
execute_running-replied executes hash (p ∷ pods) h =
    ground (arith, h p.name, execute_running-replied executes hash pods h)

unfoldable pub has_entry : String → List (Line Shadow) → Bool
has_entry user [] = false
has_entry user (entry s ∷ lines) =
    let rest = has_entry user lines in if s.name == user then true else rest
has_entry user (unparsed t ∷ lines) = has_entry user lines

ledger_hash-found :
    (user : String) (lines : List (Line Shadow))
    → has_entry user lines ≡ true
    → (old : String) × (ledger_hash user lines ≡ some old)
unfolding has_entry ledger_hash
ledger_hash-found user [] h = absurd (ground (arith, h))
ledger_hash-found user (entry s ∷ lines) h = elim (Bool-cases (s.name == user)) [
  | inl e ↦ (s.passwd, ground (arith, e))
  | inr e ↦
      let (old, p) = ledger_hash-found user lines (ground (arith, e, h)) in
      (old, ground (arith, e, p))
]
ledger_hash-found user (unparsed t ∷ lines) h = ledger_hash-found user lines h

has_entry-set_hash :
    (today : ℕ) (user hash n : String) (lines : List (Line Shadow))
    → has_entry n (set_hash today user hash lines).1 ≡ has_entry n lines
unfolding set_hash has_entry
has_entry-set_hash today user hash n [] = refl
has_entry-set_hash today user hash n (entry s ∷ lines) =
    ground (arith, has_entry-set_hash today user hash n lines)
has_entry-set_hash today user hash n (unparsed t ∷ lines) =
    ground (arith, has_entry-set_hash today user hash n lines)

has_entry-roll_back :
    (today : ℕ) (back : Answers) (user hash old : String) (s : Places)
    → has_entry user (roll_back_password today back user hash old s).1.ledger
      ≡ has_entry user s.ledger
unfolding roll_back_password restore_password restored_pods
has_entry-roll_back today back user hash old s =
    ground (arith, has_entry-set_hash today user old user s.ledger)

has_entry-change_pods :
    (today : ℕ) (answers back : Answers) (user hash old : String) (lines : List (Line Shadow))
    (pods : List Pod)
    → has_entry user (change_pods today answers back user hash old lines pods).1.ledger
      ≡ has_entry user lines
unfolding change_pods
has_entry-change_pods today answers back user hash old lines pods =
    let secrets = (update_account_secrets answers hash pods).1 in
    let synced = (sync_running_pod_password answers hash secrets).1 in
    ground (
      arith,
      has_entry-roll_back today back user hash old (record { ledger = lines; pods = secrets }),
      has_entry-roll_back today back user hash old (record { ledger = lines; pods = synced }),
    )

has_entry-step :
    (today : ℕ) (answers back : Answers) (user hash : String) (s : Places)
    → has_entry user (step_change_login_password today answers back user hash s).1.ledger
      ≡ has_entry user s.ledger
unfolding step_change_login_password
has_entry-step today answers back user hash s =
    let lines = (set_hash today user hash s.ledger).1 in
    elim (Option-cases (set_hash today user hash s.ledger).0) [
      | inl e ↦ rw (e, step_change_login_password) refl
      | inr (old, e) ↦ elim (Bool-cases answers.writes_ledger) [
        | inr full ↦ rw (e, full, step_change_login_password) refl
        | inl writes ↦
            rw (e, writes, step_change_login_password)
              (has_entry-change_pods today answers back user hash old lines s.pods
                ∙ has_entry-set_hash today user hash user s.ledger)
      ]
    ]

step-changed :
    (today : ℕ) (answers back : Answers) (user hash : String) (s : Places)
    → AllReply answers
    → has_entry user s.ledger ≡ true
    → (step_change_login_password today answers back user hash s).0 ≡ changed
unfolding step_change_login_password change_pods update_account_secrets sync_running_pod_password
step-changed today answers back user hash s a there =
    let (old, found) = ledger_hash-found user s.ledger there in
    let patched = patch_secrets-replied answers.patches hash s.pods a.patches in
    let secrets = (patch_secrets answers.patches hash s.pods).1 in
    let executed = execute_running-replied answers.executes hash secrets a.executes in
    rw (set_hash_lem today user hash s.ledger ∙ found, step_change_login_password)
      (ground (arith, a.writes_ledger, a.lists_for_secrets, a.lists_for_pods, patched, executed))

-- For a user of the ledger, and after an attempt in which whatever calls failed and whatever the
-- rollback could restore, a repetition in which nothing fails changes the password everywhere.
pub again_changes :
    (today : ℕ) (first first_back second second_back : Answers) (user hash : String) (s : Places)
    → has_entry user s.ledger ≡ true
    → AllReply second
    → let s' = (step_change_login_password today first first_back user hash s).1 in
      let r = step_change_login_password today second second_back user hash s' in
      (r.0 ≡ changed) × InForce user hash r.1
again_changes today first first_back second second_back user hash s there a =
    let s' = (step_change_login_password today first first_back user hash s).1 in
    let r = step_change_login_password today second second_back user hash s' in
    let ends : r.0 ≡ changed =
      step-changed today second second_back user hash s' a
        (has_entry-step today first first_back user hash s ∙ there) in
    (
      ends,
      subst (λ x. IsWhole user hash s' x r.1) ends
          (step_change_login_password_lem today second second_back user hash s').0,
    )
