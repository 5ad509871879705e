-- ===== src/PasswordChange/InForce.antt =====
-- Where a hash is in force, and what the calls of a round do to that.
use admin_infra_proposed.Base.{
  ℕ, String, Bool, true, not, ◌&&◌, ◌||◌, Option, none, some, List, [], ◌∷◌, ◌≡◌, refl, arith,
  if◌then◌else◌, ◌==◌, eq_iff, eq_refl, Option-cases, inl, inr,
}
use admin_infra_proposed.Ledger.{Line, entry, unparsed}
use admin_infra_proposed.PasswordChange.{
  Shadow, Pod, Places, Reply, replied, failed, lost, set_hash, patch_secret, patch_secrets, execute,
  execute_running,
}

-- The hash of a user's first entry in the ledger.
unfoldable pub ledger_hash : String → List (Line Shadow) → Option String
ledger_hash user [] = none
ledger_hash user (entry s ∷ lines) =
    let rest = ledger_hash user lines in if s.name == user then some s.passwd else rest
ledger_hash user (unparsed t ∷ lines) = ledger_hash user lines

abbrev pub secret_is : String → Option String → Bool
secret_is hash none = true
secret_is hash (some h) = h == hash

-- Every account Secret has the hash.
unfoldable pub secrets_hold : String → List Pod → Bool
secrets_hold hash [] = true
secrets_hold hash (p ∷ pods) = secret_is hash p.secret && secrets_hold hash pods

-- Every running pod has the hash.
unfoldable pub pods_hold : String → List Pod → Bool
pods_hold hash [] = true
pods_hold hash (p ∷ pods) = (not p.running || p.password == hash) && pods_hold hash pods

-- The ledger, the Secrets and the running pods all have the hash.
pub record InForce (user hash : String) (s : Places) : Type 0 where
  pub in_ledger : ledger_hash user s.ledger ≡ some hash
  pub in_secrets : secrets_hold hash s.pods ≡ true
  pub in_pods : pods_hold hash s.pods ≡ true

pub set_hash_lem :
    (today : ℕ) (user hash : String) (lines : List (Line Shadow))
    → (set_hash today user hash lines).0 ≡ ledger_hash user lines
unfolding set_hash ledger_hash
set_hash_lem today user hash [] = refl
set_hash_lem today user hash (entry s ∷ lines) = ground (arith, set_hash_lem today user hash lines)
set_hash_lem today user hash (unparsed t ∷ lines) = set_hash_lem today user hash lines

-- The write changes the hash of this user, who was there, and of nobody else.
pub ledger_hash-set_hash :
    (today : ℕ) (user hash n : String) (lines : List (Line Shadow))
    → ledger_hash n (set_hash today user hash lines).1 ≡ (
        if n == user
        then (elim (ledger_hash user lines) [ none ↦ none | some old ↦ some hash ])
        else ledger_hash n lines)
unfolding set_hash ledger_hash
ledger_hash-set_hash today user hash n [] = ground arith
ledger_hash-set_hash today user hash n (entry s ∷ lines) = ground (
  arith,
  ledger_hash-set_hash today user hash n lines,
  eq_iff s.name n,
  eq_iff s.name user,
  eq_iff n user,
)
ledger_hash-set_hash today user hash n (unparsed t ∷ lines) =
    ground (arith, ledger_hash-set_hash today user hash n lines)

patch_secret_lem :
    (r : Reply) (hash : String) (p : Pod)
    → (patch_secret r hash p).0 ≡ true
    → secret_is hash (patch_secret r hash p).1.secret ≡ true
unfolding patch_secret
patch_secret_lem r hash p h = elim (Option-cases p.secret) [
  | inl e ↦ ground (arith, e)
  | inr (old, e) ↦ replies r h e
]
  where
    replies :
        (r : Reply) {old : String}
        → (patch_secret r hash p).0 ≡ true
        → p.secret ≡ some old
        → secret_is hash (patch_secret r hash p).1.secret ≡ true
    replies replied h e = ground (arith, e, eq_refl hash)
    replies failed h e = absurd (ground (arith, e, h))
    replies lost h e = absurd (ground (arith, e, h))

pub patch_secrets_lem :
    (patches : String → Reply) (hash : String) (pods : List Pod)
    → (patch_secrets patches hash pods).0 ≡ true
    → secrets_hold hash (patch_secrets patches hash pods).1 ≡ true
unfolding patch_secrets secrets_hold
patch_secrets_lem patches hash [] h = refl
patch_secrets_lem patches hash (p ∷ pods) h =
    ground (arith, h, patch_secrets_lem patches hash pods, patch_secret_lem (patches p.name) hash p)

execute_lem :
    (r : Reply) (hash : String) (p : Pod)
    → ((execute r hash p).0 ≡ true → ((execute r hash p).1.password == hash) ≡ true)
      × ((execute r hash p).1.running ≡ p.running)
      × ((execute r hash p).1.secret ≡ p.secret)
unfolding execute
execute_lem replied hash p = (λ h. eq_refl hash, refl, refl)
execute_lem failed hash p = (λ h. absurd (ground (arith, h)), refl, refl)
execute_lem lost hash p = (λ h. eq_refl hash, refl, refl)

pub execute_running_lem :
    (executes : String → Reply) (hash : String) (pods : List Pod)
    → (execute_running executes hash pods).0 ≡ true
    → pods_hold hash (execute_running executes hash pods).1 ≡ true
unfolding execute_running pods_hold
execute_running_lem executes hash [] h = refl
execute_running_lem executes hash (p ∷ pods) h =
    ground (arith, h, execute_running_lem executes hash pods, execute_lem (executes p.name) hash p)

pub secrets_hold-execute_running :
    (executes : String → Reply) (hash h : String) (pods : List Pod)
    → secrets_hold h (execute_running executes hash pods).1 ≡ secrets_hold h pods
unfolding execute_running secrets_hold
secrets_hold-execute_running executes hash h [] = refl
secrets_hold-execute_running executes hash h (p ∷ pods) =
    ground (
      arith,
      secrets_hold-execute_running executes hash h pods,
      execute_lem (executes p.name) hash p,
    )
