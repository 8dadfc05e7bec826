-- ===== src/Tests/Robots.antt =====
-- Runs of the robots rules and their cache, and their theorems at concrete inputs.
use tarkka.Prelude.{
  All, ◌≤◌, ◌≡◌, refl, ◌↔◌, ◌⊎◌, true, false, none, some, [], ◌∷◌, ok, Text, codes, ends_with,
  is_blank,
}
use tarkka.Acquisition.Policy.{allows_uri}
use tarkka.Acquisition.Names.{normalize_domain, matches_domain}
use tarkka.Robots.Patterns.{pattern_matches, body_of}
use tarkka.Robots.Patterns.Meaning.{IsMatch, pattern_matches_iff}
use tarkka.Robots.Canonical.{canonicalize_rule_pattern}
use tarkka.Robots.Rules.{
  RobotsRule, RobotsGroup, RobotsRules, can_fetch, crawl_delay, matching_rules, permits,
}
use tarkka.Robots.Rules.Parsing.{parse}
use tarkka.Robots.Rules.Parsing.Groups.{IsNamed, parse-IsNamed}
use tarkka.Robots.Rules.Precedence.{IsPermitted, permits-IsPermitted_iff}
use tarkka.Robots.Access.{
  RobotsFetchResult, CrawlAccessDecision, success, robots_allow, evaluate_robots_access,
  robots_uri_for, evaluate_outcome, decision,
}
use tarkka.Robots.Access.Justified.{IsJustified, evaluate_robots_access-IsJustified}
use tarkka.Robots.Cache.{RobotsCacheEntry, is_fresh, may_reuse_after_unreachable, is_success}
use tarkka.Robots.Cache
use tarkka.Robots.Cache.Window.{IsInWindow, used-IsInWindow}
use tarkka.Tests.Samples.{library, environment, policy}

abbrev pub robots_text : Text
robots_text =
    codes "User-Agent: *\nDisallow: *private # all of it\nAllow: *private/index$\nCrawl-delay: 7"

abbrev disallow_private : RobotsRule
disallow_private = record { allow = false; pattern = codes "*private" }

abbrev allow_index : RobotsRule
allow_index = record { allow = true; pattern = codes "*private/index$" }

abbrev everyone : RobotsGroup
everyone = record {
  agents = codes "*" ∷ [];
  rules = disallow_private ∷ allow_index ∷ [];
  crawl_delay_seconds = some 1;
}

abbrev rules : RobotsRules
rules = record { groups = everyone ∷ [] }

abbrev pub index_uri : Text
index_uri = codes "https://www.example.com/private/index"

abbrev pub robots_result : RobotsFetchResult
robots_result = record {
  robots_uri = codes "https://www.example.com/robots.txt";
  outcome = success;
  content = some robots_text;
  status_code = some 200;
}

abbrev pub entry : RobotsCacheEntry
entry = record {
  result = robots_result;
  fetched_at = 1000;
  expires_at = 5000;
  source_observation_id = none;
  artifact_sha256 = none;
}

abbrev pub index_decision : CrawlAccessDecision
index_decision = record {
  target_uri = index_uri;
  robots_uri = codes "https://www.example.com/robots.txt";
  product_token = codes "Tarkka";
  allowed = true;
  reason = robots_allow;
  robots_outcome = success;
  effective_min_request_interval_seconds = 1;
}

model : Unit {0}
unfolding pattern_matches canonicalize_rule_pattern can_fetch crawl_delay parse
    evaluate_robots_access allows_uri Cache.post_init robots_uri_for is_blank normalize_domain
    matches_domain evaluate_outcome decision
model = tt

canonicalize_runs : canonicalize_rule_pattern (codes "/%7eme%2f*$") ≡ ok (codes "/~me%2F*$")
unfolding model
canonicalize_runs = refl

parse_runs : parse library robots_text ≡ ok rules
unfolding model
parse_runs = refl

can_fetch_runs :
    (can_fetch library rules index_uri (codes "Tarkka") ≡ ok true)
    × (can_fetch library rules (codes "https://www.example.com/private") (codes "Tarkka")
        ≡ ok false)
unfolding model
can_fetch_runs = (refl, refl)

evaluate_runs :
    evaluate_robots_access environment policy (codes "Tarkka") robots_result index_uri
    ≡ ok index_decision
unfolding model
evaluate_runs = refl

cache_runs : Cache.post_init library entry ≡ ok entry
unfolding model
cache_runs = refl

pattern_matches_iff_example :
    (pattern_matches (codes "/a*c$") (codes "/abc") ≡ true)
    ↔ IsMatch (ends_with (codes "$") (codes "/a*c$")) (body_of (codes "/a*c$")) (codes "/abc")
pattern_matches_iff_example = pattern_matches_iff (codes "/a*c$") (codes "/abc")

permits-IsPermitted_iff_example :
    (permits (matching_rules (everyone ∷ []) index_uri) ≡ true)
    ↔ IsPermitted (everyone ∷ []) index_uri
permits-IsPermitted_iff_example = permits-IsPermitted_iff (everyone ∷ []) index_uri

evaluate_robots_access-IsJustified_example :
    (target : Text) × (environment.uris.normalize index_uri ≡ ok target)
    × (environment.uris.normalize target ≡ ok index_uri)
    × IsJustified environment policy (codes "Tarkka") robots_result index_uri robots_allow true 1
evaluate_robots_access-IsJustified_example =
    evaluate_robots_access-IsJustified environment policy (codes "Tarkka") robots_result index_uri
      {d = index_decision} evaluate_runs

used-IsInWindow_example :
    (is_fresh entry 2000 ≡ true → IsInWindow entry 2000)
    × (may_reuse_after_unreachable entry 2000 ≡ true → IsInWindow entry 2000)
    × (is_fresh entry 2000 ≡ true
        → is_success success ≡ true
        → may_reuse_after_unreachable entry 2000 ≡ true)
    × (may_reuse_after_unreachable entry 2000 ≡ true → (is_fresh entry 2000 ≡ true) ⊎ (5000 ≤ 2000))
used-IsInWindow_example = used-IsInWindow library entry 2000 cache_runs

parse-IsNamed_example : All IsNamed (everyone ∷ [])
parse-IsNamed_example = parse-IsNamed library robots_text {robots = rules} parse_runs
