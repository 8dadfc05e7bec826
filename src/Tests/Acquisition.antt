-- ===== src/Tests/Acquisition.antt =====
-- Runs of the acquisition policy, and its theorems at concrete inputs.
use tarkka.Prelude.{◌≡◌, refl, ◌↔◌, true, false, none, codes, ok, ends_with}
use tarkka.Acquisition.Names.{matches_domain, normalize_domain, normalize_scheme}
use tarkka.Acquisition.Names.Labels.{IsSubdomain, matches_domain_iff}
use tarkka.Acquisition.Policy.{allows_uri}
use tarkka.Acquisition.Policy.Scope.{IsInScope, allows_uri-IsInScope}
use tarkka.Acquisition.Budget.{AcquisitionBudgetState, admits}
use tarkka.Acquisition.Budget.Admission.{IsWithin, admits_iff}
use tarkka.Tests.Samples.{library, policy}

matches_domain_runs :
    (matches_domain (codes "www.example.com") (codes "example.com") ≡ true)
    × (matches_domain (codes "evil-example.com") (codes "example.com") ≡ false)
unfolding matches_domain ends_with
matches_domain_runs = (refl, refl)

normalize_domain_runs : normalize_domain library (codes " Example.COM. ") ≡ ok (codes "example.com")
unfolding normalize_domain
normalize_domain_runs = refl

normalize_scheme_runs : normalize_scheme (codes "HTTPS:") ≡ ok (codes "https")
unfolding normalize_scheme
normalize_scheme_runs = refl

allows_uri_runs : allows_uri library policy (codes "https://www.example.com/a") ≡ true
unfolding allows_uri normalize_domain matches_domain
allows_uri_runs = refl

matches_domain_iff_example :
    (matches_domain (codes "a.b.org") (codes "b.org") ≡ true)
    ↔ IsSubdomain (codes "a.b.org") (codes "b.org")
matches_domain_iff_example = matches_domain_iff (codes "a.b.org") (codes "b.org")

allows_uri-IsInScope_example : IsInScope library policy (codes "https://www.example.com/a")
allows_uri-IsInScope_example =
    allows_uri-IsInScope library policy (codes "https://www.example.com/a") allows_uri_runs

abbrev busy : AcquisitionBudgetState
busy = record { requests_used = 3; bytes_used = 990; elapsed_seconds = 12 }

admits_iff_example : (admits busy policy 2 10 none ≡ true) ↔ IsWithin busy policy 2 10 none
admits_iff_example = admits_iff busy policy 2 10 none
