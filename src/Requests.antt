-- ===== src/Requests.antt =====
-- The validators of the request bodies: config-server/request_models.py. A body here is one whose
-- fields have their types; the names' and hashes' regular expressions are not part of it.
pub mod Hashes
pub mod Valid
mod Tests
use admin_infra_proposed.Base.{
  ℕ, String, Bool, true, false, not, ◌&&◌, ◌||◌, Option, none, some, List, [], ◌∷◌, if◌then◌else◌,
  ltb, leb, ◌=ℕ◌, ◌==◌, starts_with, length, contains,
}
use admin_infra_proposed.Jobs.Types.{non_empty}
use admin_infra_proposed.Jobs.Plan.{Job, GroupOp, create, add, remove}
use admin_infra_proposed.Ledger.{elem}

abbrev pub is_given {ℓ} : {A : Type ℓ} → Option A → Bool
is_given none = false
is_given (some _) = true

-- `_optional_text` before the field, `_pod_name` after it.
unfoldable pub pod_name_ok : Option String → Bool
pod_name_ok none = true
pod_name_ok (some p) = starts_with p "ailab-"

pub record RevokeRequest : Type 0 where
  pub pod_name : Option String
  pub username : Option String
  pub node_name : Option String
  pub delete_account : Bool

abbrev blank_is_none : RevokeRequest → RevokeRequest
blank_is_none r = record {
  pod_name = non_empty r.pod_name;
  username = non_empty r.username;
  node_name = non_empty r.node_name;
  delete_account = r.delete_account;
}

check_revoke : RevokeRequest → Option RevokeRequest
unfolding pod_name_ok
check_revoke r =
    if pod_name_ok r.pod_name && (is_given r.pod_name || (is_given r.username && r.delete_account))
    then some r
    else none

unfoldable pub validate_revoke : RevokeRequest → Option RevokeRequest
unfolding check_revoke
validate_revoke r = check_revoke (blank_is_none r)

pub record MigrateRequest : Type 0 where
  pub pod_name : Option String
  pub recreate : Option Bool
  pub keep_changes : Option Bool
  pub image : Option String
  pub nodes : List String

abbrev is_true : Option Bool → Bool
is_true none = false
is_true (some b) = b

abbrev is_false : Option Bool → Bool
is_false none = false
is_false (some b) = not b

abbrev is_empty : List String → Bool
is_empty [] = true
is_empty (x ∷ xs) = false

unfoldable pub validate_migrate : MigrateRequest → Bool
unfolding pod_name_ok
validate_migrate r =
    (not (is_given r.image) || (is_true r.recreate && is_false r.keep_changes))
    && (not (is_empty r.nodes) || is_true r.recreate)
    && pod_name_ok (non_empty r.pod_name)

pub record GroupJobRequest : Type 0 where
  pub op : GroupOp
  pub username : Option String
  pub name : Option String
  pub groups : List String

-- `_fields_for_op`; an empty text cannot be a name.
unfoldable pub validate_group_job : GroupJobRequest → Bool
validate_group_job r = elim r.op [
  | create ↦ is_given r.name
  | add ↦ is_given r.username && not (is_empty r.groups)
  | remove ↦ is_given r.username && is_given r.name
]

pub record PortSpec : Type 0 where
  pub internal_port : ℕ
  pub usage_purpose : String

abbrev pub protected_ports : List ℕ
protected_ports = 22 ∷ 8888 ∷ 6080 ∷ []

abbrev pub reserved_purposes : List String
reserved_purposes = "ssh" ∷ "jupyter" ∷ "novnc" ∷ "vnc" ∷ []

abbrev pub max_extra_ports : ℕ
max_extra_ports = 10

pub numbers : List PortSpec → List ℕ
numbers [] = []
numbers (p ∷ ps) = p.internal_port ∷ numbers ps

-- `lower` is the lower case of a text, `size` its number of characters.
unfoldable pub spec_ok : (String → String) → (String → ℕ) → PortSpec → Bool
unfolding contains
spec_ok lower size p =
    leb 1 p.internal_port
    && leb p.internal_port 65535
    && leb 1 (size p.usage_purpose)
    && leb (size p.usage_purpose) 255
    && not (contains (lower p.usage_purpose) reserved_purposes)

unfoldable pub specs_ok : (String → String) → (String → ℕ) → List PortSpec → Bool
unfolding spec_ok
specs_ok lower size [] = true
specs_ok lower size (p ∷ ps) = spec_ok lower size p && specs_ok lower size ps

-- `len(set(numbers)) == len(numbers)`
unfoldable pub no_repeat : List ℕ → Bool
unfolding elem
no_repeat [] = true
no_repeat (p ∷ ps) = not (elem p ps) && no_repeat ps

unfoldable pub none_protected : List ℕ → Bool
unfolding elem
none_protected [] = true
none_protected (p ∷ ps) = not (elem p protected_ports) && none_protected ps

unfoldable pub validate_ports : (String → String) → (String → ℕ) → String → List PortSpec → Bool
unfolding specs_ok no_repeat none_protected numbers
validate_ports lower size pod ports =
    specs_ok lower size ports
    && leb (length ports) max_extra_ports
    && starts_with pod "ailab-"
    && no_repeat (numbers ports)
    && none_protected (numbers ports)
