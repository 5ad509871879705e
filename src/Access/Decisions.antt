-- ===== src/Access/Decisions.antt =====
-- Which decision on an account's access lasts: `step_set_account_access` on any order of decisions.
use admin_infra_proposed.Base.{
  if◌then◌else◌, ◌∙◌, ℕ, ◌≤◌, ◌<◌, ◌≡◌, refl, Bool, true, false, not, List, [], ◌∷◌, arith,
  contains, contains-without, length, Bool-cases,
}
use admin_infra_proposed.Access.{
  Service, Answer, changed, access_superseded, is_blocked, decided_at, superseded, is_stale,
  patched, patch_stale, set_account_access, same, accepted, answered, access_block_label,
}

patched-is_blocked :
    (blocked : Bool) (at : ℕ) (s : Service) → is_blocked (patched blocked at s) ≡ blocked
unfolding is_blocked patched contains
patched-is_blocked true at s = ground arith
patched-is_blocked false at s =
    ground (arith, contains-without access_block_label (access_block_label ∷ []) s.selector)

patched-decided_at :
    (blocked : Bool) (at : ℕ) (s : Service)
    → (at ≤ decided_at (patched blocked at s)) × (decided_at s ≤ decided_at (patched blocked at s))
unfolding patched
patched-decided_at true at s = ground arith
patched-decided_at false at s = ground arith

-- The service is in the state of the decision, and it carries its time or a later one.
pub IsDecided : Bool → ℕ → List Service → Type 0
IsDecided blocked at [] = Unit {0}
IsDecided blocked at (s ∷ services) =
    ((is_blocked s ≡ blocked) × (at ≤ decided_at s)) × IsDecided blocked at services

-- No service's time goes back.
pub NotEarlier : List Service → List Service → Type 0
NotEarlier [] services' = Unit {0}
NotEarlier (s ∷ services) [] = Unit {0}
NotEarlier (s ∷ services) (s' ∷ services') =
    (decided_at s ≤ decided_at s') × NotEarlier services services'

refl-NotEarlier : (services : List Service) → NotEarlier services services
unfolding NotEarlier
refl-NotEarlier [] = tt
refl-NotEarlier (s ∷ services) = (omega arith, refl-NotEarlier services)

module _ (answer : Service → Answer) (blocked : Bool) (at : ℕ) where
  fresh_decided :
      (s : Service) → is_stale blocked at s ≡ false → (is_blocked s ≡ blocked) × (at ≤ decided_at s)
  unfolding is_stale same
  fresh_decided s h = ground (arith, Bool-cases (is_blocked s), Bool-cases blocked)

  patch_stale-IsDecided :
      (services : List Service)
      → (patch_stale answer blocked at services).0 ≡ true
      → IsDecided blocked at (patch_stale answer blocked at services).1
  unfolding patch_stale answered IsDecided
  patch_stale-IsDecided [] h = tt
  patch_stale-IsDecided (s ∷ services) h = ground (
    arith,
    fresh_decided s,
    patched-is_blocked blocked at s,
    patched-decided_at blocked at s,
    patch_stale-IsDecided services,
  )

  patch_stale-NotEarlier :
      (services : List Service) → NotEarlier services (patch_stale answer blocked at services).1
  unfolding patch_stale answered NotEarlier
  patch_stale-NotEarlier [] = tt
  patch_stale-NotEarlier (s ∷ services) = ground (
    arith,
    patched-decided_at blocked at s,
    refl-NotEarlier services,
    patch_stale-NotEarlier services,
  )

  superseded-patch_stale :
      (services : List Service)
      → superseded services blocked at ≡ false
      → superseded (patch_stale answer blocked at services).1 blocked at ≡ false
  unfolding patch_stale answered superseded
  superseded-patch_stale [] h = refl
  superseded-patch_stale (s ∷ services) h =
      ground (
        arith,
        superseded-patch_stale services,
        Bool-cases blocked,
        patched-is_blocked blocked at s,
      )

  patched_fresh : (s : Service) → is_stale blocked at (patched blocked at s) ≡ false
  unfolding is_stale same
  patched_fresh s =
      ground (
        arith,
        patched-is_blocked blocked at s,
        patched-decided_at blocked at s,
        Bool-cases blocked,
      )

  patch_stale_again :
      (services : List Service)
      → patch_stale (λ s. accepted) blocked at (patch_stale answer blocked at services).1
        ≡ patch_stale (λ s. accepted) blocked at services
  unfolding patch_stale answered
  patch_stale_again [] = refl
  patch_stale_again (s ∷ services) = ground (arith, patch_stale_again services, patched_fresh s)

  patch_stale_ok :
      (services : List Service) → (patch_stale (λ s. accepted) blocked at services).0 ≡ true
  unfolding patch_stale answered
  patch_stale_ok [] = refl
  patch_stale_ok (s ∷ services) = ground (arith, patch_stale_ok services)

  -- However a run breaks off, the next one whose patches are all accepted ends as a single run
  -- whose patches are all accepted would have, and it reports success unless it is superseded.
  pub set_account_access_again :
      (services : List Service)
      → ((set_account_access
            (λ s. accepted)
            blocked
            at
            (set_account_access answer blocked at services).1).1
          ≡ (set_account_access (λ s. accepted) blocked at services).1)
        × ((set_account_access (λ s. accepted) blocked at services).0 ≡ (
            if superseded services blocked at
            then access_superseded
            else changed (length services)))
  unfolding set_account_access
  set_account_access_again services =
      ground (
        arith,
        patch_stale_again services,
        patch_stale_ok services,
        superseded-patch_stale services,
      )

  -- A decision that could be applied is in force on every service when it reports success, with its
  -- time or a later one, and then no service's time was moved back.
  pub set_account_access-IsDecided :
      (services : List Service) {count : ℕ}
      → (set_account_access answer blocked at services).0 ≡ changed count
      → (count ≡ length services)
        × IsDecided blocked at (set_account_access answer blocked at services).1
        × NotEarlier services (set_account_access answer blocked at services).1
  unfolding set_account_access
  set_account_access-IsDecided services h =
      ground (arith, patch_stale-IsDecided services, patch_stale-NotEarlier services)

-- The decision at `late` beats that for the other state at `early`: it is later, or at the same
-- time and a block.
abbrev pub Beats : Bool → ℕ → ℕ → Type 0
Beats true late early = early ≤ late
Beats false late early = early < late

module _ (blocked : Bool) (late early : ℕ) (beats : Beats blocked late early) where
  superseded-IsDecided :
      (s : Service) (services : List Service)
      → IsDecided blocked late (s ∷ services)
      → superseded (s ∷ services) (not blocked) early ≡ true
  unfolding IsDecided superseded
  superseded-IsDecided s services h = ground (arith, Bool-cases blocked, beats)

  superseded-older :
      (answer : Service → Answer) (services : List Service)
      → superseded services (not blocked) early ≡ false
      → superseded (patch_stale answer (not blocked) early services).1 blocked late
        ≡ superseded services blocked late
  unfolding patch_stale answered superseded
  superseded-older answer [] h = refl
  superseded-older answer (s ∷ services) h = ground (
    arith,
    beats,
    superseded-older answer services,
    Bool-cases blocked,
    patched-is_blocked (not blocked) early s,
  )

  accepted-IsDecided :
      (services : List Service)
      → superseded services blocked late ≡ false
      → IsDecided blocked late (set_account_access (λ s. accepted) blocked late services).1
  unfolding set_account_access
  accepted-IsDecided services h = ground (
    arith,
    patch_stale-IsDecided (λ s. accepted) blocked late services,
    patch_stale_ok (λ s. accepted) blocked late services,
  )

  superseded-set_account_access :
      (answer : Service → Answer) (services : List Service)
      → superseded (set_account_access answer (not blocked) early services).1 blocked late
        ≡ superseded services blocked late
  unfolding set_account_access
  superseded-set_account_access answer services = ground (arith, superseded-older answer services)

  decided_stays :
      (answer : Service → Answer) (services : List Service)
      → IsDecided blocked late services
      → (set_account_access answer (not blocked) early services).1 ≡ services
  unfolding set_account_access patch_stale
  decided_stays answer [] h = ground arith
  decided_stays answer (s ∷ services) h = ground (arith, superseded-IsDecided s services h)

  -- Of two opposite decisions, the one that beats the other lasts: where nothing supersedes it and
  -- its patches are accepted, it is in force whether the other runs before it, with any answers to
  -- its patches, or after it; and after it, the other changes nothing.
  pub later_decision_lasts :
      (answer : Service → Answer) (services : List Service)
      → superseded services blocked late ≡ false
      → let after = (set_account_access (λ s. accepted) blocked late services).1 in
        let before = (set_account_access answer (not blocked) early services).1 in
        IsDecided blocked late (set_account_access (λ s. accepted) blocked late before).1
        × IsDecided blocked late after
        × ((set_account_access answer (not blocked) early after).1 ≡ after)
  later_decision_lasts answer services h =
      let decided = accepted-IsDecided services h in
      (
        accepted-IsDecided (set_account_access answer (not blocked) early services).1
            (superseded-set_account_access answer services ∙ h),
        decided,
        decided_stays answer (set_account_access (λ s. accepted) blocked late services).1 decided,
      )
