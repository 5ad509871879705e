-- ===== src/Ledger/Free.antt =====
-- The number that an allocation gives out is new: `_allocate_next_uid`, `_allocate_next_gid`.
use admin_infra_proposed.Base.{
  ℕ, zero, suc, ◌+◌, ◌-◌, ◌≤◌, ◌<◌, ◌≡◌, ◌≢◌, refl, Bool, true, false, ◌||◌, ◌&&◌, not, leb, ◌=ℕ◌,
  some, List, [], ◌∷◌, arith, Bool-cases, inl, inr,
}
use admin_infra_proposed.Ledger.{
  Account, GroupEntry, Line, entry, unparsed, elem, max_of, used_uids, managed_uids, used_gids,
  managed_gids, seek, allocate_next_uid, allocate_next_gid, reserved_gids, candidate_of,
}

elem-max_of : (n d : ℕ) (ns : List ℕ) → elem n ns ≡ true → n ≤ max_of d ns
unfolding elem max_of
elem-max_of n d [] h = ground arith
elem-max_of n d (m ∷ []) h = ground arith
elem-max_of n d (m ∷ m' ∷ ns) h = ground (arith, elem-max_of n d (m' ∷ ns))

-- A candidate past every taken number is free; so `b - c` rounds and one are enough from `c`.
seek_free :
    (taken : ℕ → Bool) (b fuel c : ℕ)
    → ((n : ℕ) → taken n ≡ true → n < b)
    → b ≤ c + fuel
    → (n : ℕ) × (seek taken (suc fuel) c ≡ some n) × (taken n ≡ false) × (c ≤ n)
unfolding seek
seek_free taken b zero c h k = elim (Bool-cases (taken c)) [
  | inl full ↦ absurd (omega (arith, h c full, k))
  | inr free ↦ (c, ground (arith, free), free, omega arith)
]
seek_free taken b (suc fuel) c h k = elim (Bool-cases (taken c)) [
  | inl full ↦
      let (n, found, free, past) = seek_free taken b fuel (c + 1) h (omega (arith, k)) in
      (n, ground (arith, full, found), free, omega (arith, past))
  | inr free ↦ (c, ground (arith, free), free, omega arith)
]

min_bound :
    (min : ℕ) (ns : List ℕ) → ((n : ℕ) → elem n ns ≡ true → min ≤ n) → min ≤ max_of (min - 1) ns + 1
unfolding elem max_of
min_bound min [] h = omega arith
min_bound min (n ∷ []) h = ground (arith, h n)
min_bound min (n ∷ m ∷ ns) h = ground (arith, h n)

elem-managed_gids :
    (min n : ℕ) (gids : List ℕ)
    → elem n (managed_gids min gids) ≡ elem n gids && leb min n && not (n =ℕ 65534)
unfolding elem managed_gids
elem-managed_gids min n [] = refl
elem-managed_gids min n (g ∷ gids) = ground (arith, elem-managed_gids min n gids)

-- The gid that is given out always exists, no line has it, it is not the reserved one, it is above
-- every gid issued before and every managed gid of the file, and it is no less than the minimum.
pub allocate_next_gid_lem :
    (lines : List (Line GroupEntry)) (min_gid issued_max : ℕ)
    → (n : ℕ) × (allocate_next_gid lines min_gid issued_max ≡ some n)
      × (elem n (used_gids lines) ≡ false)
      × (n ≢ 65534)
      × (issued_max < n)
      × (min_gid ≤ n)
      × ((g : ℕ) → elem g (used_gids lines) ≡ true → min_gid ≤ g → g ≢ 65534 → g < n)
unfolding allocate_next_gid elem
allocate_next_gid_lem lines min_gid issued_max =
    let used = used_gids lines in
    let managed = managed_gids min_gid used in
    let (n, found, free, past) =
      seek_free (λ n. elem n used || elem n reserved_gids) (suc (max_of 0 (65534 ∷ used)))
        (max_of 0 (65534 ∷ used)) (candidate_of min_gid managed issued_max)
        (λ n h. ground (arith, elem-max_of n 0 (65534 ∷ used))) (omega arith) in
    (
      n,
      found,
      ground (arith, free),
      ground (arith, free),
      ground (arith, past),
      ground (
        arith,
        past,
        min_bound min_gid managed (λ n h. ground (arith, elem-managed_gids min_gid n used)),
      ),
      λ g h k r.
          ground
            (arith, past, elem-managed_gids min_gid g used, elem-max_of g (min_gid - 1) managed),
    )

elem-managed_uids :
    (min n : ℕ) (lines : List (Line Account)) → elem n (managed_uids min lines) ≡ true → min ≤ n
unfolding elem managed_uids
elem-managed_uids min n [] h = ground arith
elem-managed_uids min n (entry a ∷ lines) h = ground (arith, elem-managed_uids min n lines)
elem-managed_uids min n (unparsed t ∷ lines) h = elem-managed_uids min n lines h

-- The uid that is given out always exists, no line has it, it is above every uid issued before and
-- above every managed uid of the file, and it is no less than the minimum.
pub allocate_next_uid_lem :
    (lines : List (Line Account)) (min_uid issued_max : ℕ)
    → (n : ℕ) × (allocate_next_uid lines min_uid issued_max ≡ some n)
      × (elem n (used_uids lines) ≡ false)
      × (issued_max < n)
      × (min_uid ≤ n)
      × ((u : ℕ) → elem u (managed_uids min_uid lines) ≡ true → u < n)
unfolding allocate_next_uid
allocate_next_uid_lem lines min_uid issued_max =
    let used = used_uids lines in
    let managed = managed_uids min_uid lines in
    let (n, found, free, past) =
      seek_free (λ n. elem n used) (suc (max_of 0 used)) (max_of 0 used)
        (candidate_of min_uid managed issued_max) (λ n h. ground (arith, elem-max_of n 0 used))
        (omega arith) in
    (
      n,
      found,
      free,
      ground (arith, past),
      ground (arith, past, min_bound min_uid managed (λ n h. elem-managed_uids min_uid n lines h)),
      λ u h. ground (arith, past, elem-max_of u (min_uid - 1) managed),
    )
