-- ===== src/Robots/Access.antt =====
-- domain/crawl_access.py and application/robots_access.py: what a fetched robots file and the
-- acquisition policy say about a crawl target.
pub mod Justified
use tarkka.Prelude.{
  ℕ, max, Bool, true, false, not, ◌&&◌, Option, none, some, List, [], ◌∷◌, leb, if◌then◌else◌,
  Result, ok, err, value_error, ◌>>=◌, ◌>>◌, require, ◌==◌, nat_eq, list_eq, Text, codes, strip,
}
use tarkka.Acquisition.Library.{Library, SplitResult}
use tarkka.Acquisition.Names.{is_none}
use tarkka.Acquisition.Policy.{ResourceAcquisitionPolicy, allows_uri}
use tarkka.Traversal.Target.{UriNormalizer, is_some}
use tarkka.Traversal.Frontier.{Environment}
use tarkka.Robots.Rules.{RobotsRules, is_product_token, can_fetch, crawl_delay, split_or_raise}
use tarkka.Robots.Rules.Parsing.{parse}

pub data RobotsFetchOutcome : Type 0 where
  success unavailable unreachable redirect_limit_exceeded : RobotsFetchOutcome

pub data CrawlAccessReason : Type 0 where
  technical_policy_deny robots_allow robots_disallow : CrawlAccessReason
  robots_unavailable robots_unreachable robots_redirect_limit : CrawlAccessReason

-- A negative status code is refused as 0 is.
pub record RobotsFetchResult : Type 0 where
  pub robots_uri : Text
  pub outcome : RobotsFetchOutcome
  pub content : Option Text
  pub status_code : Option ℕ

abbrev pub status_within : ℕ → ℕ → Option ℕ → Bool
status_within low high none = true
status_within low high (some code) = leb low code && leb code high

abbrev check_failed : ℕ → ℕ → RobotsFetchResult → Result (Unit {0})
check_failed low high r = do
  require (is_none r.content) "non-successful robots result must not include content"
  require (status_within low high r.status_code)
      "robots result must use a status code of its outcome"
  ok tt

-- The tests of RobotsFetchResult.__post_init__ that depend on the outcome.
unfoldable pub check_outcome : RobotsFetchResult → RobotsFetchOutcome → Result (Unit {0})
check_outcome r success = do
  require (is_some r.content) "successful robots result must include content"
  require (status_within 200 299 r.status_code)
      "successful robots result must use a 2xx status code"
  ok tt
check_outcome r unavailable = check_failed 400 499 r
check_outcome r unreachable = check_failed 500 599 r
check_outcome r redirect_limit_exceeded = check_failed 300 399 r

-- RobotsFetchResult.__post_init__
unfoldable pub fetched : UriNormalizer → RobotsFetchResult → Result RobotsFetchResult
unfolding check_outcome
fetched uris r = do
  uri ← uris.normalize r.robots_uri
  require (status_within 100 599 r.status_code) "robots status_code must be an HTTP status code"
  check_outcome r r.outcome >> ok (record r { robots_uri = uri })

-- The interval is a finite float that is not negative, kept as its place in the order.
pub record CrawlAccessDecision : Type 0 where
  pub target_uri : Text
  pub robots_uri : Text
  pub product_token : Text
  pub allowed : Bool
  pub reason : CrawlAccessReason
  pub robots_outcome : RobotsFetchOutcome
  pub effective_min_request_interval_seconds : ℕ

-- CrawlAccessDecision.__post_init__
unfoldable pub decided : UriNormalizer → CrawlAccessDecision → Result CrawlAccessDecision
unfolding is_product_token strip
decided uris d = do
  target_uri ← uris.normalize d.target_uri
  robots_uri ← uris.normalize d.robots_uri
  require (is_product_token (strip d.product_token))
      "crawl product_token must contain only ASCII letters, underscores, and hyphens"
  ok (record d {
    target_uri = target_uri;
    robots_uri = robots_uri;
    product_token = strip d.product_token;
  })

-- robots_uri_for
unfoldable pub robots_uri_for : Environment → Text → Result Text
robots_uri_for env target_uri = do
  normalized ← env.uris.normalize target_uri
  parsed ← split_or_raise (env.library.urlsplit normalized)
  ok (env.library.urlunsplit parsed.scheme parsed.netloc (codes "/robots.txt") [] [])

-- value or default
abbrev pub or_default {ℓ} : {A : Type ℓ} → Option A → A → A
or_default none default = default
or_default (some value) default = value

module _ (env : Environment) (policy : ResourceAcquisitionPolicy) (product_token : Text)
    (robots : RobotsFetchResult) where
  -- _decision
  unfoldable pub decision : Text → Bool → CrawlAccessReason → ℕ → Result CrawlAccessDecision
  unfolding decided
  decision target_uri allowed reason interval = decided env.uris (record {
    target_uri = target_uri;
    robots_uri = robots.robots_uri;
    product_token = product_token;
    allowed = allowed;
    reason = reason;
    robots_outcome = robots.outcome;
    effective_min_request_interval_seconds = interval;
  })

  -- The end of `evaluate_robots_access`, for a robots file that was fetched.
  unfoldable pub evaluate_rules : Text → Result CrawlAccessDecision
  evaluate_rules target = do
    rules ← parse env.library (or_default robots.content [])
    delay ← crawl_delay rules product_token
    allowed ← can_fetch env.library rules target product_token
    decision target allowed (if allowed then robots_allow else robots_disallow)
        (max policy.min_request_interval_seconds (or_default delay 0))

  unfoldable pub evaluate_outcome : Text → RobotsFetchOutcome → Result CrawlAccessDecision
  unfolding evaluate_rules
  evaluate_outcome target unavailable =
      decision target true robots_unavailable policy.min_request_interval_seconds
  evaluate_outcome target unreachable =
      decision target false robots_unreachable policy.min_request_interval_seconds
  evaluate_outcome target redirect_limit_exceeded =
      decision target false robots_redirect_limit policy.min_request_interval_seconds
  evaluate_outcome target success = evaluate_rules target

  -- evaluate_robots_access
  unfoldable pub evaluate_robots_access : Text → Result CrawlAccessDecision
  evaluate_robots_access target_uri = do
    target ← env.uris.normalize target_uri
    expected ← robots_uri_for env target
    require (robots.robots_uri == expected)
        "robots result does not belong to the crawl target authority"
    if allows_uri env.library policy target_uri
        then evaluate_outcome target robots.outcome
        else decision target false technical_policy_deny policy.min_request_interval_seconds
