-- ===== src/Evaluator/Verdicts.antt =====
-- What the verdicts of `evaluate_creation` and `evaluate_reclamation` say of what was collected.
use admin_infra_proposed.Base.{
  String, ◌≡◌, refl, ◌⊎◌, inl, inr, Bool, true, ◌&&◌, Option, none, some, List, [], ◌∷◌, ◌++◌,
  arith, contains, ◌==◌, eq_iff, ap,
}
use admin_infra_proposed.Evaluator.{
  Verdict, pass, Collected, collector_raised, domain_of, results, id_of, compared, found, Expected,
  endpoint_to_pod, mount_target, evaluate_creation, evaluate_reclamation, creation_checks,
  reclamation_checks, all_pass, ends_with,
}
use admin_infra_proposed.Evaluator.Folding.{Below, AllBelow, fold-AllBelow, fold_pass}

all_pass-append : (rs rs' : List Verdict) → all_pass (rs ++ rs') ≡ all_pass rs && all_pass rs'
unfolding all_pass
all_pass-append [] rs' = refl
all_pass-append (r ∷ rs) rs' = ground (arith, all_pass-append rs rs')

results_pass :
    (collect : String → Collected) (name : String) (names : List String)
    → all_pass (results collect names) ≡ true
    → contains name names ≡ true
    → (domain_of (collect name)).result ≡ pass
unfolding all_pass results contains
results_pass collect name [] h k = ground arith
results_pass collect name (n ∷ names) h k =
    ground (arith, h, k, results_pass collect name names, eq_iff name n)

compared_pass :
    (test : String → String → Bool) (a b : Option String)
    → compared test a b ≡ pass
    → (s : String) × (t : String) × (a ≡ some s) × (b ≡ some t) × (test s t ≡ true)
unfolding compared
compared_pass test none b h = ground arith
compared_pass test (some s) none h = ground arith
compared_pass test (some s) (some t) h = (s, t, refl, refl, ground (arith, h))

compared_same :
    (a b : Option String)
    → compared (λ s t. s == t) a b ≡ pass
    → (s : String) × (a ≡ some s) × (b ≡ some s)
unfolding compared
compared_same none b h = ground arith
compared_same (some s) none h = ground arith
compared_same (some s) (some t) h = (s, refl, ground (arith, h, eq_iff s t))

module _ (collect : String → Collected) where
  -- A creation passes only if the collector answered PASS on each of the seven checks, the endpoint
  -- and the login named one and the same pod, and the mounted home ends as expected.
  pub creation_pass :
      (expected : Expected)
      → evaluate_creation collect expected ≡ pass
      → ((name : String)
          → contains name creation_checks ≡ true
          → (domain_of (collect name)).result ≡ pass)
        × ((pod : String) × (found collect "endpoint" "backend_pod_uid" ≡ some pod)
            × (found collect "login" "pod_uid" ≡ some pod))
        × ((source : String) × (suffix : String) × (found collect "compute_nfs" "mount_source"
              ≡ some source)
            × (expected.home_suffix ≡ some suffix)
            × (ends_with source suffix ≡ true))
  unfolding evaluate_creation endpoint_to_pod mount_target all_pass
  creation_pass expected h =
      let relations = endpoint_to_pod collect ∷ mount_target collect expected ∷ [] in
      let split = all_pass-append (results collect creation_checks) relations in
      let all = fold_pass (results collect creation_checks ++ relations) h in
      let checks : all_pass (results collect creation_checks) ≡ true = ground (arith, all, split) in
      let endpoint : endpoint_to_pod collect ≡ pass = ground (arith, all, split) in
      let mount : mount_target collect expected ≡ pass = ground (arith, all, split) in
      let pods =
        compared_same (found collect "endpoint" "backend_pod_uid") (found collect "login" "pod_uid")
          endpoint in
      let (source, suffix, from, to, ends) =
        compared_pass ends_with (found collect "compute_nfs" "mount_source") expected.home_suffix
          mount in
      (
        λ name k. results_pass collect name creation_checks checks k,
        pods,
        (source, suffix, from, to, ends),
      )

  -- A reclamation passes only if the collector answered PASS on each of the four checks.
  pub reclamation_pass :
      evaluate_reclamation collect ≡ pass
      → (name : String) → contains name reclamation_checks ≡ true
      → (domain_of (collect name)).result ≡ pass
  unfolding evaluate_reclamation
  reclamation_pass h name k =
      results_pass collect name reclamation_checks
        (fold_pass (results collect reclamation_checks) h) k

module _ (collect blind : String → Collected)
    (worse : (name : String) → (blind name ≡ collector_raised) ⊎ (blind name ≡ collect name)) where
  domain-Below :
      (name : String) → Below (domain_of (blind name)).result (domain_of (collect name)).result
  unfolding domain_of
  domain-Below name = elim (worse name) [
    | inl gone ↦ inl (ap (λ c. (domain_of c).result) gone)
    | inr kept ↦ inr (ap (λ c. (domain_of c).result) kept)
  ]

  results_below :
      (names : List String) (rs rs' : List Verdict)
      → AllBelow rs rs'
      → AllBelow (results blind names ++ rs) (results collect names ++ rs')
  unfolding results AllBelow
  results_below [] rs rs' h = h
  results_below (n ∷ names) rs rs' h = (domain-Below n, results_below names rs rs' h)

  found_below :
      (check key : String)
      → (found blind check key ≡ none) ⊎ (found blind check key ≡ found collect check key)
  unfolding id_of domain_of
  found_below check key = elim (worse check) [
    | inl gone ↦ inl (ap (λ c. id_of key (domain_of c).evidence) gone)
    | inr kept ↦ inr (ap (λ c. id_of key (domain_of c).evidence) kept)
  ]

  compared-Below :
      (test : String → String → Bool) (a b a' b' : Option String)
      → (a ≡ none) ⊎ (a ≡ a')
      → (b ≡ none) ⊎ (b ≡ b')
      → Below (compared test a b) (compared test a' b')
  unfolding compared
  compared-Below test none b a' b' h k = inl refl
  compared-Below test (some s) none a' b' h k = inl refl
  compared-Below test (some s) (some t) a' b' h k = ground (arith, h, k)

  -- Where the collector breaks on some checks and answers as before on the others, a verdict can
  -- only become UNKNOWN: its failures make no violation, and they hide no missing success.
  pub broken_collector :
      (expected : Expected)
      → Below (evaluate_creation blind expected) (evaluate_creation collect expected)
        × Below (evaluate_reclamation blind) (evaluate_reclamation collect)
  unfolding evaluate_creation evaluate_reclamation endpoint_to_pod mount_target AllBelow
  broken_collector expected = (
    fold-AllBelow
        (results blind creation_checks ++ endpoint_to_pod blind ∷ mount_target blind expected ∷ [])
        (results collect creation_checks
          ++ endpoint_to_pod collect ∷ mount_target collect expected ∷ [])
        (results_below creation_checks (endpoint_to_pod blind ∷ mount_target blind expected ∷ [])
          (endpoint_to_pod collect ∷ mount_target collect expected ∷ [])
          (
            compared-Below (λ a b. a == b) (found blind "endpoint" "backend_pod_uid")
                (found blind "login" "pod_uid") (found collect "endpoint" "backend_pod_uid")
                (found collect "login" "pod_uid") (found_below "endpoint" "backend_pod_uid")
                (found_below "login" "pod_uid"),
            (
              compared-Below ends_with (found blind "compute_nfs" "mount_source")
                  expected.home_suffix (found collect "compute_nfs" "mount_source")
                  expected.home_suffix (found_below "compute_nfs" "mount_source") (inr refl),
              tt,
            ),
          )),
    fold-AllBelow (results blind reclamation_checks) (results collect reclamation_checks)
        (results_below reclamation_checks [] [] tt),
  )
