-- ===== src/Evaluator/Tests.antt =====
-- A trial that passes, and the same with a collector that breaks on one check.
use admin_infra_proposed.Base.{
  String, ◌≡◌, refl, ◌⊎◌, true, none, some, [], ◌∷◌, arith, contains, ◌==◌, if◌then◌else◌,
}
use admin_infra_proposed.Evaluator.{
  pass, unknown, Evidence, Collected, answered, collector_raised, domain_of, found, Expected,
  evaluate_creation, evaluate_reclamation, creation_checks, reclamation_checks, ends_with,
}
use admin_infra_proposed.Evaluator.Folding.{Below}
use admin_infra_proposed.Evaluator.Verdicts.{creation_pass, broken_collector}

abbrev evidence : Evidence
evidence = ("pod_uid", "p-1") ∷ ("backend_pod_uid", "p-1") ∷ ("mount_source", "nas:/home/kim") ∷ []

abbrev collect : String → Collected
collect name = answered pass evidence

abbrev collect_blind : String → Collected
collect_blind name = if name == "login" then collector_raised else answered pass evidence

abbrev expected : Expected
expected = record { home_suffix = some "/home/kim"; uid = none }

passes : evaluate_creation collect expected ≡ pass
unfolding evaluate_creation
passes = refl

blind_unknown : evaluate_creation collect_blind expected ≡ unknown
unfolding evaluate_creation
blind_unknown = refl

reclaimed : evaluate_reclamation collect ≡ pass
unfolding evaluate_reclamation
reclaimed = refl

worse :
    (name : String) → (collect_blind name ≡ collector_raised) ⊎ (collect_blind name ≡ collect name)
worse name = ground arith

creation_pass_example :
    ((name : String)
      → contains name creation_checks ≡ true
      → (domain_of (collect name)).result ≡ pass)
    × ((pod : String) × (found collect "endpoint" "backend_pod_uid" ≡ some pod)
        × (found collect "login" "pod_uid" ≡ some pod))
    × ((source : String) × (suffix : String) × (found collect "compute_nfs" "mount_source"
          ≡ some source)
        × (expected.home_suffix ≡ some suffix)
        × (ends_with source suffix ≡ true))
creation_pass_example = creation_pass collect expected passes

credential : contains "credential_blocked" reclamation_checks ≡ true
unfolding contains
credential = refl

broken_collector_example :
    Below (evaluate_creation collect_blind expected) (evaluate_creation collect expected)
    × Below (evaluate_reclamation collect_blind) (evaluate_reclamation collect)
broken_collector_example = broken_collector collect collect_blind worse expected
