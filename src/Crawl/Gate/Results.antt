-- ===== src/Crawl/Gate/Results.antt =====
-- The results of RecursiveCrawlPolicyGate of application/recursive_crawl.py, and what it calls.
use tarkka.Prelude.{
  ℕ, Bool, true, false, not, Option, none, some, List, Result, ok, ◌>>◌, require, ◌==◌, nat_eq,
  list_eq, Text,
}
use tarkka.Acquisition.Policy.{ResourceAcquisitionPolicy}
use tarkka.Traversal.Target.{is_some}
use tarkka.Traversal.Checkpoint.{TraversalCheckpoint}
use tarkka.Robots.Cache.{RobotsCacheEntry}
use tarkka.Crawl.Eligibility.{CrawlEligibilityDecision}

pub data RecursiveCrawlGateStatus : Type 0 where
  ready robots_refresh_required deferred_budget : RecursiveCrawlGateStatus
  deferred_pacing target_skipped : RecursiveCrawlGateStatus

pub record RecursiveCrawlGateResult : Type 0 where
  pub status : RecursiveCrawlGateStatus
  pub checkpoint : TraversalCheckpoint
  pub target_id : ℕ
  pub robots_uri : Option Text
  pub robots_entry : Option RobotsCacheEntry
  pub eligibility : Option CrawlEligibilityDecision
  pub effective_policy : Option ResourceAcquisitionPolicy

-- The robots cache, and whether the checkpoint repository takes a checkpoint or raises.
pub record Ports : Type 0 where
  pub get : Text → Option RobotsCacheEntry
  pub takes : TraversalCheckpoint → Bool

abbrev pub Evaluation : Type 0
Evaluation = Result (RecursiveCrawlGateResult × List TraversalCheckpoint)

abbrev pub entry_matches : Option RobotsCacheEntry → Option Text → Bool
entry_matches none uri = true
entry_matches (some entry) none = false
entry_matches (some entry) (some uri) = uri == entry.result.robots_uri

abbrev pub is_eligible : Option CrawlEligibilityDecision → Bool
is_eligible none = false
is_eligible (some decision) = decision.is_allowed

-- The tests of RecursiveCrawlGateResult.__post_init__ that depend on the status.
unfoldable pub check_status :
    RecursiveCrawlGateResult → RecursiveCrawlGateStatus → Result (Unit {0})
check_status r ready = do
  require (is_some r.eligibility) "ready recursive crawl gate requires eligibility and policy"
  require (is_some r.effective_policy) "ready recursive crawl gate requires eligibility and policy"
  require (is_eligible r.eligibility) "ready recursive crawl gate requires allowed eligibility"
  require (is_some r.robots_entry) "ready recursive crawl gate requires robots provenance"
  ok tt
check_status r robots_refresh_required = do
  require (not (is_some r.effective_policy))
      "only a ready recursive crawl gate may expose an effective policy"
  require (is_some r.robots_uri) "robots refresh result requires a robots URI"
  require (not (is_some r.eligibility)) "robots refresh result must not claim final eligibility"
  ok tt
check_status r _ = do
  require (not (is_some r.effective_policy))
      "only a ready recursive crawl gate may expose an effective policy"
  ok tt

-- RecursiveCrawlGateResult.__post_init__
unfoldable pub post_init : RecursiveCrawlGateResult → Result RecursiveCrawlGateResult
unfolding check_status
post_init r = do
  require (entry_matches r.robots_entry r.robots_uri)
      "recursive crawl robots entry must match robots URI"
  check_status r r.status >> ok r
