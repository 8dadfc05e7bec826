-- ===== src/Tests/Gate.antt =====
-- Runs of the crawl gate, and its theorems at concrete inputs.
use tarkka.Prelude.{
  finite, err, runtime_error, ◌≡◌, refl, ◌↔◌, true, false, none, some, [], ◌∷◌, ok, codes, is_blank,
  list_beq,
}
use tarkka.Acquisition.Policy
use tarkka.Acquisition.Policy.{allows_uri}
use tarkka.Acquisition.Names.{normalize_scheme, normalize_domain, matches_domain}
use tarkka.Acquisition.Budget.{allows_request}
use tarkka.Traversal.Target.{TraversalTarget, queued}
use tarkka.Traversal.Checkpoint.{TraversalCheckpoint, target}
use tarkka.Robots.Patterns.{pattern_matches}
use tarkka.Robots.Canonical.{canonicalize_rule_pattern}
use tarkka.Robots.Rules.{can_fetch, crawl_delay}
use tarkka.Robots.Rules.Parsing.{parse}
use tarkka.Robots.Access.{robots_uri_for, evaluate_robots_access, evaluate_outcome, decision}
use tarkka.Robots.Cache.{is_fresh}
use tarkka.Crawl.Rights.{RightsAccessDecision, no_override, allows, retrieve}
use tarkka.Crawl.Eligibility.{
  CrawlEligibilityDecision, combine_crawl_eligibility, combine_crawl_eligibility_iff, IsReason,
  allowed,
}
use tarkka.Crawl.Gate.Results
use tarkka.Crawl.Gate.{
  queued_target, evaluate, evaluate_refreshed_entry, evaluate_early_policy, early_budget,
  evaluate_cached, evaluate_entry_after_precheck, evaluate_pacing, with_interval, unchanged,
}
use tarkka.Crawl.Gate.Results.{ready}
use tarkka.Crawl.Gate.Results.{Ports, RecursiveCrawlGateResult}
use tarkka.Crawl.Gate.Explained.{IsExplained}
use tarkka.Crawl.Gate.Cleared.{IsCached, IsWanting, evaluate-IsExplained}
use tarkka.Crawl.Coordinator.{
  Network, Request, acquire_target, refresh_robots, RecursiveCrawlResult, acquire, acquire_ready,
  acquire_refreshed,
}
use tarkka.Crawl.Coordinator.Acquired.{acquire-Conduct}
use tarkka.Crawl.Coordinator.Conduct.{Conduct}
use tarkka.Tests.Samples.{environment, policy, target_in, checkpoint_of}
use tarkka.Tests.Robots.{entry, index_uri, index_decision}

abbrev index_target : TraversalTarget
index_target = record (target_in queued 0 0) { uri = index_uri }

abbrev index_checkpoint : TraversalCheckpoint
index_checkpoint = checkpoint_of (index_target ∷ []) 0 0

abbrev ports : Ports
ports = record { get = λ uri. some entry; takes = λ c. true }

abbrev rights : RightsAccessDecision
rights = record {
  target_uri = index_uri;
  retrieval_allowed = true;
  storage_allowed = true;
  analysis_allowed = false;
  redistribution_allowed = false;
  source_name = codes "example";
  policy_reference = none;
  requires_authentication = false;
  paywalled = false;
  operator_override = no_override;
  rationale = none;
}

abbrev index_eligibility : CrawlEligibilityDecision
index_eligibility = record {
  target_uri = index_uri;
  is_allowed = true;
  reason = allowed;
  crawl = index_decision;
  rights = rights;
}

abbrev ready_result : RecursiveCrawlGateResult
ready_result = record {
  status = ready;
  checkpoint = index_checkpoint;
  target_id = 7;
  robots_uri = some entry.result.robots_uri;
  robots_entry = some entry;
  eligibility = some index_eligibility;
  effective_policy = some (record policy { min_request_interval_seconds = 1 });
}

model : Unit {0}
unfolding pattern_matches canonicalize_rule_pattern can_fetch crawl_delay parse
    evaluate_robots_access allows_uri robots_uri_for is_blank normalize_domain matches_domain
    evaluate_outcome decision combine_crawl_eligibility evaluate queued_target allows_request
    is_fresh list_beq target evaluate_early_policy early_budget evaluate_cached
    evaluate_entry_after_precheck evaluate_pacing with_interval Policy.post_init normalize_scheme
    unchanged Results.post_init
model = tt

combine_runs :
    combine_crawl_eligibility environment.uris index_decision rights ≡ ok index_eligibility
unfolding model
combine_runs = refl

evaluate_runs :
    evaluate environment ports index_checkpoint policy none 7 (codes "Tarkka") rights 2000
    ≡ ok (ready_result, [])
unfolding model
evaluate_runs = refl

combine_crawl_eligibility_iff_example :
    (index_decision ≡ index_decision)
    × (rights ≡ rights)
    × ((true ≡ true) ↔ ((true ≡ true) × (allows rights retrieve ≡ true)))
    × (index_uri ≡ index_uri)
    × (index_uri ≡ index_uri)
    × IsReason index_decision rights allowed
combine_crawl_eligibility_iff_example =
    combine_crawl_eligibility_iff environment.uris index_decision rights {d = index_eligibility}
      combine_runs

evaluate-IsExplained_example :
    (t : TraversalTarget) × (queued_target index_checkpoint 7 ≡ ok t)
    × (index_uri ≡ t.uri)
    × IsExplained environment ports index_checkpoint policy none t
        (codes "Tarkka")
        rights
        (IsCached environment ports 2000 t)
        (IsWanting environment ports 2000 t)
        ready
        ready_result
        []
evaluate-IsExplained_example =
    evaluate-IsExplained environment ports index_checkpoint policy none 7 (codes "Tarkka") rights
      2000 {r = ready_result} {saved = []} evaluate_runs

-- The network answers an acquisition only while nothing was asked of it before.
abbrev net : Network
net = record {
  refresh = λ log c p uri depth now since. ok (record { checkpoint = c; entry = entry });
  acquire =
      λ log c id p uri since. elim log [ [] ↦ ok c | request ∷ log ↦ err (runtime_error "busy") ];
}

abbrev crawl_result : RecursiveCrawlResult
crawl_result = record {
  gate = ready_result;
  acquisition = some index_checkpoint;
  robots_refresh = none;
}

abbrev index_request : Request
index_request =
    acquire_target index_checkpoint 7 (record policy { min_request_interval_seconds = 1 }) none none

acquire_runs :
    acquire environment ports net policy 7 (codes "Tarkka") rights 2000 none index_checkpoint none
    ≡ (ok crawl_result, index_request ∷ [])
unfolding model acquire acquire_ready
acquire_runs = refl

-- With an empty cache the robots file is asked for first, and then the target.
acquire_refreshed_runs :
    acquire environment
      (record ports { get = λ uri. none })
      net
      policy
      7
      (codes "Tarkka")
      rights
      2000
      none
      index_checkpoint
      none
    ≡ (
      err (runtime_error "busy"),
      refresh_robots index_checkpoint policy entry.result.robots_uri 1 2000 none
          ∷ acquire_target index_checkpoint 7
              (record policy { min_request_interval_seconds = 1 })
              none
              (some (finite 0))
          ∷ [],
    )
unfolding model acquire acquire_ready acquire_refreshed evaluate_refreshed_entry
acquire_refreshed_runs = refl

acquire-Conduct_example :
    Conduct environment ports net policy 7
      (codes "Tarkka")
      rights
      2000
      none
      index_checkpoint
      none
      (ok crawl_result)
      (index_request ∷ [])
unfolding model acquire acquire_ready
acquire-Conduct_example =
    acquire-Conduct environment ports net policy 7 (codes "Tarkka") rights 2000 none
      index_checkpoint none
