-- ===== src/Evaluator.antt =====
-- The verdicts on a trial: harness/evaluator.py. The collector is the caller's; it is asked once
-- for every check, and it answers a result with its evidence, some other value, or raises.
pub mod Folding
pub mod Verdicts
mod Tests
use Prim.Native.String.{len, slice}
use admin_infra_proposed.Base.{
  ℕ, ◌-◌, String, Bool, true, false, not, ◌&&◌, ◌||◌, Option, none, some, List, [], ◌∷◌, ◌++◌,
  if◌then◌else◌, leb, ◌==◌,
}

pub data Verdict : Type 0 where
  pass fail unknown : Verdict

-- Evidence: the identifiers in it, by key, as texts. Evidence that is no dict has none.
abbrev pub Evidence : Type 0
Evidence = List (String × String)

pub data Collected : Type 0 where
  answered : Verdict → Evidence → Collected
  unexpected : Collected
  collector_raised : Collected

-- A domain of the record: the check, its result, and its evidence.
pub record Domain : Type 0 where
  pub result : Verdict
  pub evidence : Evidence

abbrev pub creation_checks : List String
creation_checks =
    "login" ∷ "compute_uid" ∷ "storage_rw" ∷ "credential" ∷ "compute_gpu" ∷ "compute_nfs"
    ∷ "endpoint" ∷ []

abbrev pub reclamation_checks : List String
reclamation_checks =
    "login_blocked" ∷ "credential_blocked" ∷ "compute_blocked" ∷ "endpoint_blocked" ∷ []

unfoldable pub any_fail : List Verdict → Bool
any_fail [] = false
any_fail (fail ∷ rs) = true
any_fail (pass ∷ rs) = any_fail rs
any_fail (unknown ∷ rs) = any_fail rs

unfoldable pub all_pass : List Verdict → Bool
all_pass [] = true
all_pass (pass ∷ rs) = all_pass rs
all_pass (fail ∷ rs) = false
all_pass (unknown ∷ rs) = false

-- `_fold`: the set of the results has FAIL, or it is {PASS}.
unfoldable pub fold : List Verdict → Verdict
unfolding any_fail all_pass
fold [] = unknown
fold (r ∷ rs) = if any_fail (r ∷ rs) then fail else if all_pass (r ∷ rs) then pass else unknown

-- One round of `_collect_all`; the evidence of a failure of the collector has no identifier.
unfoldable pub domain_of : Collected → Domain
domain_of (answered r evidence) = record { result = r; evidence = evidence }
domain_of unexpected = record { result = unknown; evidence = [] }
domain_of collector_raised = record { result = unknown; evidence = [] }

unfoldable pub results : (String → Collected) → List String → List Verdict
unfolding domain_of
results collect [] = []
results collect (name ∷ names) = (domain_of (collect name)).result ∷ results collect names

-- `_id`
unfoldable pub id_of : String → Evidence → Option String
id_of key [] = none
id_of key ((k, v) ∷ evidence) = let rest = id_of key evidence in if k == key then some v else rest

abbrev pub ends_with : String → String → Bool
ends_with s t = leb (len t) (len s) && slice s (len s - len t) (len s) == t

-- `_relation`: with an identifier missing, nothing is compared.
unfoldable pub compared : (String → String → Bool) → Option String → Option String → Verdict
compared test (some a) (some b) = if test a b then pass else fail
compared test (some a) none = unknown
compared test none b = unknown

pub record Expected : Type 0 where
  pub home_suffix : Option String
  pub uid : Option String

module _ (collect : String → Collected) where
  abbrev pub found : String → String → Option String
  found check key = id_of key (domain_of (collect check)).evidence

  -- The relations of `_relations`.
  unfoldable pub endpoint_to_pod : Verdict
  unfolding compared id_of domain_of
  endpoint_to_pod =
      compared (λ a b. a == b) (found "endpoint" "backend_pod_uid") (found "login" "pod_uid")

  unfoldable pub mount_target : Expected → Verdict
  unfolding compared id_of domain_of
  mount_target expected =
      compared ends_with (found "compute_nfs" "mount_source") expected.home_suffix

  unfoldable pub runtime_uid_vs_expected : Expected → Verdict
  unfolding compared id_of domain_of
  runtime_uid_vs_expected expected =
      compared (λ a b. a == b) (found "compute_uid" "runtime_uid") expected.uid

  -- `evaluate_creation`; the relation of the uid is recorded and is not one of the required.
  unfoldable pub evaluate_creation : Expected → Verdict
  unfolding fold results endpoint_to_pod mount_target
  evaluate_creation expected =
      fold (results collect creation_checks ++ endpoint_to_pod ∷ mount_target expected ∷ [])

  unfoldable pub evaluate_reclamation : Verdict
  unfolding fold results
  evaluate_reclamation = fold (results collect reclamation_checks)

pub record Bystander : Type 0 where
  pub username : String
  pub expected : Expected
  pub collector : String → Collected

named : String → List (String × Verdict) → Bool
named name [] = false
named name ((n, v) ∷ rs) = n == name || named name rs

-- The dict of the results by user: of two with one name the later is kept.
unfoldable pub bystander_results : List Bystander → List (String × Verdict)
unfolding evaluate_creation named
bystander_results [] = []
bystander_results (b ∷ bs) =
    let rest = bystander_results bs in
    if named b.username rest
    then rest
    else (b.username, evaluate_creation b.collector b.expected) ∷ rest

unfoldable pub verdicts : List (String × Verdict) → List Verdict
verdicts [] = []
verdicts ((n, v) ∷ rs) = v ∷ verdicts rs

unfoldable pub evaluate_protection : List Bystander → Option Verdict
unfolding fold bystander_results verdicts
evaluate_protection [] = none
evaluate_protection (b ∷ bs) = some (fold (verdicts (bystander_results (b ∷ bs))))
