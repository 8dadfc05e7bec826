-- ===== src/Acquisition/Budget/Admission.antt =====
-- What an admitted request guarantees of the budget, and how the policy bounds admission.
use tarkka.Prelude.{
  ◌≢◌, ℕ, ◌+◌, ◌≤◌, ◌<◌, ◌≡◌, refl, true, false, Option, none, some, arith, ◌↔◌, ltb, ◌&&◌,
}
use tarkka.Acquisition.Policy.{ResourceAcquisitionPolicy}
use tarkka.Acquisition.Budget.{AcquisitionBudgetState, admits, reaches, too_soon}

-- The elapsed time is below the limit, where there is one.
abbrev pub InTime : Option ℕ → ℕ → Type 0
InTime none elapsed = Unit
InTime (some limit) elapsed = elapsed < limit

-- The pause since the last request is at least the interval; a pause that is not known is none.
abbrev pub Paced : Option ℕ → ℕ → Type 0
Paced none interval = interval ≡ 0
Paced (some seconds) interval = interval ≤ seconds

-- What the policy asks of a request, stated by the order of numbers.
pub record IsWithin (b : AcquisitionBudgetState) (p : ResourceAcquisitionPolicy)
    (depth expected : ℕ) (since : Option ℕ) : Type 0 where
  pub depth_bound : depth ≤ p.max_depth
  pub request_left : b.requests_used + 1 ≤ p.max_requests
  pub bytes_left : b.bytes_used + expected ≤ p.max_bytes
  pub in_time : InTime p.max_elapsed_seconds b.elapsed_seconds
  pub paced : b.requests_used ≢ 0 → Paced since p.min_request_interval_seconds

admits-IsWithin :
    (b : AcquisitionBudgetState) (p : ResourceAcquisitionPolicy) (depth expected : ℕ)
    (since : Option ℕ)
    → admits b p depth expected since ≡ true
    → IsWithin b p depth expected since
unfolding admits
admits-IsWithin b p depth expected since h = record {
  depth_bound = ground arith;
  request_left = ground arith;
  bytes_left = ground arith;
  in_time = in_time p.max_elapsed_seconds (ground arith);
  paced = λ used. paced since (ground arith);
}
  where
    in_time :
        (limit : Option ℕ)
        → reaches limit b.elapsed_seconds ≡ false
        → InTime limit b.elapsed_seconds
    in_time none e = tt
    in_time (some limit) e = ground arith

    paced :
        (pause : Option ℕ)
        → (ltb 0 p.min_request_interval_seconds && too_soon pause p.min_request_interval_seconds)
          ≡ false
        → Paced pause p.min_request_interval_seconds
    paced none e = ground arith
    paced (some seconds) e = ground arith

IsWithin-admits :
    (b : AcquisitionBudgetState) (p : ResourceAcquisitionPolicy) (depth expected : ℕ)
    (since : Option ℕ)
    → IsWithin b p depth expected since
    → admits b p depth expected since ≡ true
unfolding admits
IsWithin-admits b p depth expected since h =
    ground (arith, h.paced, in_time p.max_elapsed_seconds h.in_time, paced since h.paced)
  where
    in_time :
        (limit : Option ℕ)
        → InTime limit b.elapsed_seconds
        → reaches limit b.elapsed_seconds ≡ false
    in_time none e = refl
    in_time (some limit) e = ground arith

    paced :
        (pause : Option ℕ)
        → (b.requests_used ≢ 0 → Paced pause p.min_request_interval_seconds)
        → (ltb 0 b.requests_used
            && ltb 0 p.min_request_interval_seconds
            && too_soon pause p.min_request_interval_seconds)
          ≡ false
    paced none e = grind (arith, e)
    paced (some seconds) e = grind (arith, e)

-- A request is admitted exactly when the depth, the request and byte counts, the elapsed time and
-- the pause since the last request are all within the policy.
pub admits_iff :
    (b : AcquisitionBudgetState) (p : ResourceAcquisitionPolicy) (depth expected : ℕ)
    (since : Option ℕ)
    → (admits b p depth expected since ≡ true) ↔ IsWithin b p depth expected since
admits_iff b p depth expected since =
    (admits-IsWithin b p depth expected since, IsWithin-admits b p depth expected since)
