-- ===== src/JobControl/Tests.antt =====
-- Two controllers, "a" and "b", and job 7.
use admin_infra_proposed.Base.{String, ◌≡◌, ◌≢◌, refl, some, List, [], ◌∷◌, arith, eq_iff}
use mathlib.Core.Bool.{false≢true}
use admin_infra_proposed.JobControl.{
  Row, Table, select, won, refused, claim, claim_seen, recorded, record_step,
}
use admin_infra_proposed.JobControl.Claims.{race_one_winner}
use admin_infra_proposed.JobControl.Fencing.{handover_race}
use admin_infra_proposed.JobControl.Holder.{Op, run, holder_safe}

abbrev row : Row
row = record {
  owner = "a";
  lease_until = 30;
  done_steps = "step_prepare_pod" ∷ [];
  saved_ctx = "{}";
}

abbrev table : Table
table = (7, row) ∷ []

abbrev two : List String
two = "step_prepare_pod" ∷ "step_select_node" ∷ []

a-ne-b : ◌≢◌ {A = String} "a" "b"
a-ne-b p = false≢true ((eq_iff "a" "b").1 p)

b-ne-a : ◌≢◌ {A = String} "b" "a"
b-ne-a p = false≢true ((eq_iff "b" "a").1 p)

found : select 7 table ≡ some row
unfolding select
found = refl

taken : (claim "b" 30 40 7 table).0 ≡ won ("step_prepare_pod" ∷ []) "{}"
unfolding claim
taken = refl

recorded_first : (record_step "a" 7 two "{}" table).0 ≡ recorded
unfolding record_step
recorded_first = refl

taken_after : (claim "b" 30 40 7 (record_step "a" 7 two "{}" table).1).0 ≡ won two "{}"
unfolding claim record_step
taken_after = refl

-- A controller whose lease has the same end already is refused its own job.
same_tick : (claim "a" 30 0 7 table).0 ≡ refused
unfolding claim
same_tick = refl

race_one_winner_example :
    (claim_seen "c" 30 41 7 (select 7 table) (claim_seen "b" 30 40 7 (select 7 table) table).1).0
    ≢ won ("step_prepare_pod" ∷ []) "{}"
race_one_winner_example = race_one_winner 7 table "b" "c" 30 40 30 41 taken_seen
  where
    taken_seen :
        (claim_seen "b" 30 40 7 (select 7 table) table).0 ≡ won ("step_prepare_pod" ∷ []) "{}"
    taken_seen = unfold claim_seen select in refl

handover_race_example :
    ((record_step "a" 7 two "{}" table).0 ≡ recorded)
    × ((claim_seen "b" 30 40 7 (select 7 table) (record_step "a" 7 two "{}" table).1).0
        ≡ won row.done_steps row.saved_ctx)
handover_race_example =
    handover_race "a" "b" 30 40 7 two "{}" row table found a-ne-b refl (omega arith)

abbrev others : List Op
others =
    Op.claims "b" 30 20 7 (some row)
    ∷ Op.records "b" 7 [] "{}"
    ∷ Op.renews "b" 30 25 (7 ∷ [])
    ∷ Op.releases "b" 7
    ∷ []

holder_safe_example : select 7 (run others table) ≡ some row
holder_safe_example =
    holder_safe "a" 7 row refl others table
      ((b-ne-a, omega arith), (b-ne-a, (b-ne-a, (b-ne-a, tt)))) found
