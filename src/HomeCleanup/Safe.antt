-- ===== src/HomeCleanup/Safe.antt =====
-- A home is deleted only where nothing uses it and it is the expected user's.
use admin_infra_proposed.Base.{
  ℕ, zero, suc, ◌<◌, ◌≡◌, refl, sym, ap, ◌∙◌, ◌⊎◌, inl, inr, arith, eq_iff, Bool-cases,
  Option-cases, subst, not, Option, ◌≢◌, String, true, false, ◌&&◌, none, some, List, [], ◌∷◌,
  if◌then◌else◌, ◌=ℕ◌, ◌==◌, length,
}
use admin_infra_proposed.Journal.{take}
use admin_infra_proposed.HomeCleanup.{
  Home, Unfinished, Nas, Cleanup, deleted, delete_failed, Deletion, answered, refused, broken_off,
  unanswered, job_uses_home, home_unused, owner_of, drop_home, spoil_home, delete_home,
  delete_owned, step_delete_expired_home,
}

-- A list that is not cut off is all there is.
take_whole : (n : ℕ) (jobs : List Unfinished) → length (take n jobs) < n → take n jobs ≡ jobs
unfolding take
take_whole zero jobs h = absurd (omega (arith, h))
take_whole (suc n) [] h = refl
take_whole (suc n) (j ∷ jobs) h = ap (λ l. j ∷ l) (take_whole n jobs (omega (arith, h)))

unused_lem :
    (limit : ℕ) (user : String) (pods : List String) (jobs : List Unfinished)
    → home_unused limit user pods jobs ≡ true
    → (pods ≡ []) × (job_uses_home user jobs ≡ false)
unfolding home_unused
unused_lem limit user (p ∷ pods) jobs h = absurd (ground (arith, h))
unused_lem limit user [] jobs h = (
  refl,
  ap (job_uses_home user) (sym (take_whole limit jobs (ground (arith, h)))) ∙ ground (arith, h),
)

owner_of-drop_home :
    (user : String) (homes : List Home) → owner_of user (drop_home user homes) ≡ none
unfolding owner_of drop_home
owner_of-drop_home user [] = refl
owner_of-drop_home user (h ∷ homes) = ground (arith, owner_of-drop_home user homes)

-- The home of everyone but the user.
unfoldable pub home_of_other : String → String → List Home → Option Home
home_of_other user n [] = none
home_of_other user n (h ∷ homes) =
    let rest = home_of_other user n homes in if h.user == n && not (n == user) then some h else rest

drop_home_others :
    (user n : String) (homes : List Home)
    → home_of_other user n (drop_home user homes) ≡ home_of_other user n homes
unfolding home_of_other drop_home
drop_home_others user n [] = refl
drop_home_others user n (h ∷ homes) =
    ground
      (arith, drop_home_others user n homes, eq_iff h.user n, eq_iff h.user user, eq_iff n user)

spoil_home_others :
    (user n : String) (homes : List Home)
    → home_of_other user n (spoil_home user homes) ≡ home_of_other user n homes
unfolding home_of_other spoil_home
spoil_home_others user n [] = refl
spoil_home_others user n (h ∷ homes) =
    ground
      (arith, spoil_home_others user n homes, eq_iff h.user n, eq_iff h.user user, eq_iff n user)

-- What an attempt to delete the user's home leaves, by how it ended: everyone else's home, and not the
-- user's if it succeeded.
abbrev pub OnlyOwn : String → List Home → Cleanup × List Home → Type 0
OnlyOwn user homes r =
    ((r.0 ≡ delete_failed) ⊎ ((r.0 ≡ deleted) × (owner_of user r.1 ≡ none)))
    × ((n : String) → home_of_other user n r.1 ≡ home_of_other user n homes)

delete_home-OnlyOwn :
    (d : Deletion) (user : String) (homes : List Home)
    → OnlyOwn user homes (delete_home d user homes)
unfolding delete_home
delete_home-OnlyOwn answered user homes =
    (inr (refl, owner_of-drop_home user homes), λ n. drop_home_others user n homes)
delete_home-OnlyOwn refused user homes = (inl refl, λ n. refl)
delete_home-OnlyOwn broken_off user homes = (inl refl, λ n. spoil_home_others user n homes)
delete_home-OnlyOwn unanswered user homes = (inl refl, λ n. drop_home_others user n homes)

-- The homes are as before, and the cleanup did not report a deletion, unless it came to delete. It
-- comes to that only if the user has no pod, no job without an end creates or moves a pod of the
-- user, of all such jobs and not only of those within the limit, and the home has the expected
-- owner. However the deletion then ends, also where it breaks off in the middle or its answer is
-- lost, every other user's home is as it was; and where it is reported, the user's home is gone.
pub step_delete_expired_home_lem :
    (limit : ℕ) (nas : Nas) (user : String) (expected : ℕ) (pods : List String)
    (jobs : List Unfinished) (homes : List Home)
    → let r = step_delete_expired_home limit nas user expected pods jobs homes in
      ((r.1 ≡ homes) × (r.0 ≢ deleted))
      ⊎ ((pods ≡ [])
          × (job_uses_home user jobs ≡ false)
          × (owner_of user homes ≡ some expected)
          × OnlyOwn user homes r)
unfolding step_delete_expired_home delete_owned
step_delete_expired_home_lem limit nas user expected pods jobs homes =
    elim (Bool-cases (home_unused limit user pods jobs)) [
      | inr used ↦ inl (ground (arith, used), λ h. ground (arith, used, h))
      | inl unused ↦ elim (Option-cases (owner_of user homes)) [
        | inl gone ↦ inl (ground (arith, unused, gone), λ h. ground (arith, unused, gone, h))
        | inr (owner, there) ↦ elim (Bool-cases ((owner =ℕ expected) && nas.looks_up)) [
          | inr fails ↦
              inl
                (ground (arith, unused, there, fails), λ h. ground (arith, unused, there, fails, h))
          | inl works ↦
              let (no_pods, no_jobs) = unused_lem limit user pods jobs unused in
              let same : step_delete_expired_home limit nas user expected pods jobs homes
                  ≡ delete_home nas.deletes user homes =
                ground (arith, unused, there, works) in
              inr (
                no_pods,
                no_jobs,
                there ∙ ap some (ground (arith, works)),
                subst (OnlyOwn user homes) (sym same) (delete_home-OnlyOwn nas.deletes user homes),
              )
        ]
      ]
    ]
