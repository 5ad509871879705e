-- ===== src/Access.antt =====
-- Blocking the access ports of an account: config-server/lifecycle_steps/access.py.
--
-- The services are those that the selector of the account lists. The apiserver answers a patch: it
-- may accept it, refuse it (also where another job changed the service since it was listed) or
-- apply it and lose the response. Both of the last two raise, and end the step.
pub mod Decisions
mod Tests
use admin_infra_proposed.Base.{
  ℕ, String, Bool, true, false, not, ◌&&◌, ◌||◌, List, [], ◌∷◌, if◌then◌else◌, ltb, leb, contains,
  without, length,
}

-- The annotation with the time of the decision: absent, a number, or a text that `int` refuses.
pub data Annotation : Type 0 where
  absent : Annotation
  number : ℕ → Annotation
  malformed : Annotation

-- The keys of a service's selector, and its annotation.
pub record Service : Type 0 where
  pub selector : List String
  pub annotation : Annotation

abbrev pub access_block_label : String
access_block_label = "ailab.dgu/access-blocked"

unfoldable pub is_blocked : Service → Bool
unfolding contains
is_blocked s = contains access_block_label s.selector

abbrev number_of : Annotation → ℕ
number_of absent = 0
number_of (number n) = n
number_of malformed = 0

abbrev pub decided_at : Service → ℕ
decided_at s = number_of s.annotation

pub same : Bool → Bool → Bool
same true b = b
same false b = not b

unfoldable pub superseded : List Service → Bool → ℕ → Bool
unfolding is_blocked
superseded [] blocked at = false
superseded (s ∷ services) true at =
    not (is_blocked s) && ltb at (decided_at s) || superseded services true at
superseded (s ∷ services) false at =
    is_blocked s && leb at (decided_at s) || superseded services false at

unfoldable pub is_stale : Bool → ℕ → Service → Bool
unfolding is_blocked same
is_stale blocked at s = not (same (is_blocked s) blocked) || ltb (decided_at s) at

abbrev latest : ℕ → ℕ → ℕ
latest a b = if ltb a b then b else a

-- The merge patch: it sets or removes one key of the selector, and writes the later time.
unfoldable pub patched : Bool → ℕ → Service → Service
unfolding without contains
patched true at s = record {
  selector =
      if contains access_block_label s.selector
      then s.selector
      else access_block_label ∷ s.selector;
  annotation = number (latest at (decided_at s));
}
patched false at s = record {
  selector = without (access_block_label ∷ []) s.selector;
  annotation = number (latest at (decided_at s));
}

pub data Answer : Type 0 where
  accepted refused response_lost : Answer

pub data Change : Type 0 where
  changed : ℕ → Change
  change_failed : Change
  access_superseded : Change

answered : Answer → Service → Service → List Service → Bool × List Service → Bool × List Service
answered accepted s s' services (ok, services') = (ok, s' ∷ services')
answered refused s s' services rest = (false, s ∷ services)
answered response_lost s s' services rest = (false, s' ∷ services)

module _ (answer : Service → Answer) (blocked : Bool) (at : ℕ) where
  -- The loop over the services that are stale, in the order in which they are listed.
  unfoldable pub patch_stale : List Service → Bool × List Service
  unfolding is_stale patched answered
  patch_stale [] = (true, [])
  patch_stale (s ∷ services) =
      let rest = patch_stale services in
      if is_stale blocked at s
      then answered (answer s) s (patched blocked at s) services rest
      else (rest.0, s ∷ rest.1)

  -- `step_set_account_access`
  unfoldable pub set_account_access : List Service → Change × List Service
  unfolding superseded patch_stale
  set_account_access services =
      if superseded services blocked at
      then (access_superseded, services)
      else (let (ok, services') = patch_stale services in
          (if ok then changed (length services) else change_failed, services'))
