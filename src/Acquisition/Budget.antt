-- ===== src/Acquisition/Budget.antt =====
-- AcquisitionBudgetState of domain/resource_acquisition.py.
pub mod Admission
use tarkka.Prelude.{
  ℕ, ◌+◌, Bool, true, false, not, ◌&&◌, ◌||◌, Option, none, some, ltb, leb, if◌then◌else◌, ℤ, Float,
  require_non_negative_int, require_finite_non_negative, Result, ok, ◌>>=◌, String,
}
use tarkka.Acquisition.Policy.{ResourceAcquisitionPolicy}

pub record AcquisitionBudgetState : Type 0 where
  pub requests_used : ℕ
  pub bytes_used : ℕ
  pub elapsed_seconds : ℕ

-- AcquisitionBudgetState.__post_init__
unfoldable pub post_init : ℤ → ℤ → Float → Result AcquisitionBudgetState
post_init requests_used bytes_used elapsed_seconds = do
  requests ← require_non_negative_int requests_used "acquisition requests_used"
  bytes ← require_non_negative_int bytes_used "acquisition bytes_used"
  elapsed ←
      require_finite_non_negative elapsed_seconds
        "acquisition elapsed_seconds must be finite and non-negative"
  ok (record { requests_used = requests; bytes_used = bytes; elapsed_seconds = elapsed })

abbrev pub reaches : Option ℕ → ℕ → Bool
reaches none elapsed = false
reaches (some limit) elapsed = leb limit elapsed

abbrev pub too_soon : Option ℕ → ℕ → Bool
too_soon none interval = true
too_soon (some seconds) interval = ltb seconds interval

-- seconds_since_last_request, checked when it is given
abbrev pub checked_seconds : Option Float → Result (Option ℕ)
checked_seconds none = ok none
checked_seconds (some x) = do
  seconds ←
      require_finite_non_negative x "seconds_since_last_request must be finite and non-negative"
  ok (some seconds)

-- The conditions of `allows_request` behind the checks of its arguments, in their order.
unfoldable pub admits : AcquisitionBudgetState → ResourceAcquisitionPolicy → ℕ → ℕ → Option ℕ → Bool
admits b p depth expected since =
    if ltb p.max_depth depth
    then false
    else if leb p.max_requests b.requests_used
    then false
    else if ltb p.max_bytes (b.bytes_used + expected)
    then false
    else if reaches p.max_elapsed_seconds b.elapsed_seconds
    then false
    else not (
        ltb 0 b.requests_used
        && ltb 0 p.min_request_interval_seconds
        && too_soon since p.min_request_interval_seconds)

-- AcquisitionBudgetState.allows_request
unfoldable pub allows_request :
    AcquisitionBudgetState → ResourceAcquisitionPolicy → ℤ → ℤ → Option Float → Result Bool
unfolding admits
allows_request b p depth expected_bytes seconds_since_last_request = do
  depth' ← require_non_negative_int depth "request depth"
  expected ← require_non_negative_int expected_bytes "expected_bytes"
  since ← checked_seconds seconds_since_last_request
  ok (admits b p depth' expected since)
