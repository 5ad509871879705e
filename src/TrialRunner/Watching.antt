-- ===== src/TrialRunner/Watching.antt =====
-- What the loop of a trial sees, and when a trial counts as verified.
use admin_infra_proposed.Base.{
  ℕ, zero, suc, ◌+◌, ◌≤◌, String, Option, none, some, ◌≡◌, ◌≢◌, refl, arith, ◌⊎◌, inl, inr, ltb,
  Bool-cases, Option-cases,
}
use admin_infra_proposed.Evaluator.{Verdict, pass, fail, unknown}
use admin_infra_proposed.TrialRunner.{
  Setup, TrialRecord, Seen, Ports, Looped, horizon_reached, loop_raised, loop_out_of_fuel,
  verified_at, declared_of, verdict_of, evaluate, declares, samples_after, observe, observe_from,
  watch,
}

-- When a trial counts as verified, by its record: at the time of the first declaration if the verdict
-- was PASS then, else at the horizon's end if the verdict is PASS there; never where nothing was
-- declared.
abbrev pub IsVerified : TrialRecord → Option ℕ → Type 0
IsVerified r none = (r.declared ≡ none) ⊎ ((r.at_declaration ≢ some pass) × (r.at_horizon ≢ pass))
IsVerified r (some t) =
    (r.submitted ≤ t)
    × (t ≤ r.horizon_end)
    × ((value : String) × (u : ℕ) × (r.declared ≡ some (value, u))
        × (((r.at_declaration ≡ some pass) × (t ≡ u))
            ⊎ ((r.at_declaration ≢ some pass) × (t ≡ r.horizon_end) × (r.at_horizon ≡ pass))))

abbrev pub Within : ℕ → ℕ → Option (String × ℕ × Verdict) → Type 0
Within from to none = Unit {0}
Within from to (some (value, t, verdict)) = (from ≤ t) × (t ≤ to)

-- `verified_at` against the reading of the record.
pub verified_lem :
    (r : TrialRecord) (d : Option (String × ℕ × Verdict)) (v : Verdict)
    → r.declared ≡ declared_of d
    → r.at_declaration ≡ verdict_of d
    → r.at_horizon ≡ v
    → r.submitted ≤ r.horizon_end
    → Within r.submitted r.horizon_end d
    → IsVerified r (verified_at d r.horizon_end v)
unfolding verified_at
verified_lem r none v e a h l b = inl e
verified_lem r (some (x, t, pass)) v e a h l b = (b.0, b.1, (x, t, e, inl (a, refl)))
verified_lem r (some (x, t, fail)) pass e a h l b =
    (l, omega arith, (x, t, e, inr (λ n. cc (a, n), refl, h)))
verified_lem r (some (x, t, fail)) fail e a h l b = inr (λ n. cc (a, n), λ n. cc (h, n))
verified_lem r (some (x, t, fail)) unknown e a h l b = inr (λ n. cc (a, n), λ n. cc (h, n))
verified_lem r (some (x, t, unknown)) pass e a h l b =
    (l, omega arith, (x, t, e, inr (λ n. cc (a, n), refl, h)))
verified_lem r (some (x, t, unknown)) fail e a h l b = inr (λ n. cc (a, n), λ n. cc (h, n))
verified_lem r (some (x, t, unknown)) unknown e a h l b = inr (λ n. cc (a, n), λ n. cc (h, n))

module _ {W : Type 0} (ports : Ports W) where
  -- The rounds after the submission in which nothing was declared.
  pub data Waits (w : W) : W → Type 0 where
    here : Waits w w
    goes_on :
        {w' w'' : W}
        → Waits w w'
        → ports.advance w' ≡ some w''
        → ports.declaration w'' ≡ none
        → Waits w (ports.rests w'')

  -- No declaration until now, or the first one, with the time and the verdict of its round.
  abbrev pub IsSeen : Setup → W → W → Option (String × ℕ × Verdict) → Type 0
  IsSeen setup start now none = Waits start now
  IsSeen setup start now (some (value, t, verdict)) =
      (w' w'' : W) × Waits start w'
      × (ports.advance w' ≡ some w'')
      × (ports.declaration w'' ≡ some value)
      × (t ≡ ports.clock w'')
      × (verdict ≡ evaluate ports setup.operation setup.expected w'')
      × (ports.clock w'' ≤ ports.clock now)

  -- What the record tells of a trial that began in one world and ended in another.
  pub record IsObserved (setup : Setup) (before start : W) (r : TrialRecord) (after : W)
      : Type 0 where
    pub started_from : r.start_state ≡ setup.start_state
    pub submitted_at : r.submitted ≡ ports.clock before
    pub ended_at : r.horizon_end ≡ ports.clock after
    pub lasted : r.submitted + setup.horizon ≤ r.horizon_end
    pub seen : Option (String × ℕ × Verdict)
    pub declared : (r.declared ≡ declared_of seen) × (r.at_declaration ≡ verdict_of seen)
    pub first : IsSeen setup start after seen
    pub at_horizon : r.at_horizon ≡ evaluate ports setup.operation setup.expected after
    pub verified : IsVerified r r.verified

  module _ (rises : (w w' : W) → ports.advance w ≡ some w' → ports.clock w ≤ ports.clock w')
      (on : (w : W) → ports.clock w ≤ ports.clock (ports.rests w)) where
    pub Waits-le : {w w' : W} → Waits w w' → ports.clock w ≤ ports.clock w'
    Waits-le here = omega arith
    Waits-le (goes_on {w'} {w''} r e n) = omega (arith, Waits-le r, rises w' w'' e, on w'')

    declared-samples_after :
        (setup : Setup) (n : Option ℕ) (w : W) (seen : Seen)
        → (samples_after ports setup n w seen).declared ≡ seen.declared
    unfolding samples_after
    declared-samples_after setup none w seen = refl
    declared-samples_after setup (some n) w seen = ground arith

    observe_from-IsSeen :
        (setup : Setup) (start w w' : W) (seen : Seen) (d : Option (String × ℕ × Verdict))
        → seen.declared ≡ d
        → ports.advance w ≡ some w'
        → IsSeen setup start w d
        → IsSeen setup start (ports.rests w') (observe_from ports setup d w' seen).declared
    unfolding observe_from declares
    observe_from-IsSeen setup start w w' seen none q e h =
        elim (Option-cases (ports.declaration w')) [
          | inl n ↦ rw (n, q) (goes_on h e n)
          | inr (value, n) ↦ rw n (w, w', h, e, n, refl, refl, on w')
        ]
    observe_from-IsSeen setup start w w' seen (some (value, t, verdict)) q e
          (v, v', r, a, d, p, x, l) =
        rw (declared-samples_after setup setup.sample_every w' seen, q)
          (v, v', r, a, d, p, x, omega (arith, l, rises w w' e, on w'))

    abbrev pub Ended : Setup → ℕ → W → Looped W → Type 0
    Ended setup t start (horizon_reached w seen) =
        IsSeen setup start w seen.declared × (t + setup.horizon ≤ ports.clock w)
    Ended setup t start loop_raised = Unit {0}
    Ended setup t start loop_out_of_fuel = Unit {0}

    pub watch-Ended :
        (setup : Setup) (fuel t : ℕ) (start w : W) (seen : Seen)
        → IsSeen setup start w seen.declared
        → Ended setup t start (watch ports setup fuel t w seen)
    unfolding watch observe
    watch-Ended setup zero t start w seen h = tt
    watch-Ended setup (suc fuel) t start w seen h =
        elim (Bool-cases (ltb (ports.clock w) (t + setup.horizon))) [
          | inr late ↦ rw (late, watch) (h, ground (arith, late))
          | inl early ↦ elim (Option-cases (ports.advance w)) [
            | inl e ↦ rw (early, e, watch) tt
            | inr (v, e) ↦
                rw (early, e, watch)
                  (watch-Ended setup fuel t start (ports.rests v) (observe ports setup v seen)
                    (observe_from-IsSeen setup start w v seen seen.declared refl e h))
          ]
        ]

    pub IsSeen-Within :
        (setup : Setup) (t : ℕ) (start now : W) (d : Option (String × ℕ × Verdict))
        → t ≤ ports.clock start
        → IsSeen setup start now d
        → Within t (ports.clock now) d
    IsSeen-Within setup t start now none l h = tt
    IsSeen-Within setup t start now (some (value, u, verdict)) l (w', w'', r, a, d, p, x, b) =
        (omega (arith, l, Waits-le r, rises w' w'' a, p), omega (arith, p, b))
