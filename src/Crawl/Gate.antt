-- ===== src/Crawl/Gate.antt =====
-- RecursiveCrawlPolicyGate of application/recursive_crawl.py. A call returns its result with the
-- checkpoints that it saved, in their order.
pub mod Explained
pub mod Entries
pub mod Cleared
pub mod Results
use tarkka.Prelude.{
  ℕ, max, Bool, true, false, not, Option, none, some, List, [], ◌∷◌, ◌++◌, if◌then◌else◌, pos,
  Float, finite, Result, ok, err, value_error, runtime_error, ◌>>=◌, ◌>>◌, require, ◌==◌, nat_eq,
  list_eq, Text, codes,
}
use tarkka.Acquisition.Library.{Library}
use tarkka.Acquisition.Policy as Policy
use tarkka.Acquisition.Policy.{ResourceAcquisitionPolicy, PolicyArguments, allows_uri}
use tarkka.Acquisition.Budget.{allows_request}
use tarkka.Traversal.Target.{TraversalTarget, is_queued, is_some}
use tarkka.Traversal.Checkpoint.{TraversalCheckpoint, target}
use tarkka.Traversal.Frontier.{Environment}
use tarkka.Traversal.Transitions.{skip}
use tarkka.Robots.Access.{CrawlAccessDecision, robots_uri_for, evaluate_robots_access}
use tarkka.Robots.Cache.{RobotsCacheEntry, is_fresh}
use tarkka.Crawl.Rights.{RightsAccessDecision}
use tarkka.Crawl.Eligibility.{
  CrawlEligibilityDecision, CrawlEligibilityReason, combine_crawl_eligibility, allowed,
  robots_or_technical_deny, rights_retrieval_deny,
}
use tarkka.Crawl.Gate.Results.{
  ready, robots_refresh_required, deferred_budget, deferred_pacing, target_skipped,
  RecursiveCrawlGateStatus, RecursiveCrawlGateResult, Ports, Evaluation, entry_matches, is_eligible,
  check_status, post_init,
}

abbrev or_no_target : Option TraversalTarget → Result TraversalTarget
or_no_target none = err (value_error "recursive crawl target does not exist")
or_no_target (some t) = ok t

-- _queued_target
unfoldable pub queued_target : TraversalCheckpoint → ℕ → Result TraversalTarget
unfolding target
queued_target c target_id = do
  t ← or_no_target (target c target_id)
  require (is_queued t.status) "recursive crawl policy gate requires a queued target"
  ok t

abbrev pub as_finite : Option ℕ → Option Float
as_finite none = none
as_finite (some seconds) = some (finite seconds)

-- replace(policy, min_request_interval_seconds=interval), which checks the policy again
unfoldable pub with_interval :
    Library → ResourceAcquisitionPolicy → ℕ → Result ResourceAcquisitionPolicy
with_interval py p interval = Policy.post_init py (record {
  max_depth = pos p.max_depth;
  max_requests = pos p.max_requests;
  max_bytes = pos p.max_bytes;
  max_retries = pos p.max_retries;
  max_redirects = pos p.max_redirects;
  max_elapsed_seconds = as_finite p.max_elapsed_seconds;
  min_request_interval_seconds = finite interval;
  allowed_schemes = p.allowed_schemes;
  allowed_domains = p.allowed_domains;
  allow_private_addresses = p.allow_private_addresses;
})

abbrev pub reason_text : CrawlEligibilityReason → Text
reason_text allowed = codes "allowed"
reason_text robots_or_technical_deny = codes "robots_or_technical_deny"
reason_text rights_retrieval_deny = codes "rights_retrieval_deny"

module _ (env : Environment) (ports : Ports) (c : TraversalCheckpoint)
    (policy : ResourceAcquisitionPolicy) (since : Option Float) where
  -- _save
  unfoldable pub save : TraversalCheckpoint → Result (Unit {0})
  save saved =
      if ports.takes saved
      then ok tt
      else err (runtime_error "unable to persist recursive crawl policy decision")

  abbrev bare : RecursiveCrawlGateStatus → TraversalCheckpoint → ℕ → RecursiveCrawlGateResult
  bare status checkpoint target_id = record {
    status = status;
    checkpoint = checkpoint;
    target_id = target_id;
    robots_uri = none;
    robots_entry = none;
    eligibility = none;
    effective_policy = none;
  }

  -- Skip the target, save the checkpoint and report what `result` makes of it.
  unfoldable pub skip_and_save :
      ℕ → Text → (TraversalCheckpoint → RecursiveCrawlGateResult) → Evaluation
  unfolding save
  skip_and_save target_id reason result = do
    skipped ← skip env c target_id reason
    save skipped
    r ← post_init (result skipped)
    ok (r, skipped ∷ [])

  -- A result that changes nothing.
  unfoldable pub unchanged : RecursiveCrawlGateResult → Evaluation
  unchanged result = do r ← post_init result; ok (r, [])

  unfoldable pub early_budget :
      TraversalTarget → Bool → Result (Option (RecursiveCrawlGateResult × List TraversalCheckpoint))
  early_budget t true = ok none
  early_budget t false = do early ← unchanged (bare deferred_budget c t.target_id); ok (some early)

  unfoldable pub early_skip :
      TraversalTarget → Result (Option (RecursiveCrawlGateResult × List TraversalCheckpoint))
  early_skip t = do
    early ←
        skip_and_save t.target_id (codes "technical acquisition policy denied target")
          (λ skipped. bare target_skipped skipped t.target_id)
    ok (some early)

  -- _evaluate_early_policy
  unfoldable pub evaluate_early_policy :
      TraversalTarget → Result (Option (RecursiveCrawlGateResult × List TraversalCheckpoint))
  evaluate_early_policy t =
      if allows_uri env.library policy t.uri
      then allows_request c.budget policy (pos t.depth) (pos 0) since >>= early_budget t
      else early_skip t

  -- What the three results of `_evaluate_entry_after_precheck` share.
  abbrev about :
      TraversalTarget → RobotsCacheEntry → CrawlEligibilityDecision → RecursiveCrawlGateResult
  about t entry eligibility = record {
    status = ready;
    checkpoint = c;
    target_id = t.target_id;
    robots_uri = some entry.result.robots_uri;
    robots_entry = some entry;
    eligibility = some eligibility;
    effective_policy = none;
  }

  -- The end of `_evaluate_entry_after_precheck`, for a target that may be fetched.
  unfoldable pub evaluate_pacing :
      TraversalTarget → RobotsCacheEntry → CrawlEligibilityDecision → ℕ → Evaluation
  evaluate_pacing t entry eligibility interval = do
    effective ← with_interval env.library policy (max policy.min_request_interval_seconds interval)
    admitted ← allows_request c.budget effective (pos t.depth) (pos 0) since
    unchanged (
        if admitted
        then record (about t entry eligibility) { effective_policy = some effective }
        else record (about t entry eligibility) { status = deferred_pacing })

  unfoldable pub evaluate_denied :
      TraversalTarget → RobotsCacheEntry → CrawlEligibilityDecision → Evaluation
  evaluate_denied t entry eligibility =
      skip_and_save t.target_id
        (codes "recursive crawl policy denied target: " ++ reason_text eligibility.reason)
        (λ skipped. record (about t entry eligibility) {
          status = target_skipped;
          checkpoint = skipped;
        })

  -- _evaluate_entry_after_precheck
  unfoldable pub evaluate_entry_after_precheck :
      TraversalTarget → Text → RightsAccessDecision → RobotsCacheEntry → Evaluation
  evaluate_entry_after_precheck t product_token rights entry = do
    crawl ← evaluate_robots_access env policy product_token entry.result t.uri
    eligibility ← combine_crawl_eligibility env.uris crawl rights
    if eligibility.is_allowed
        then evaluate_pacing t entry eligibility crawl.effective_min_request_interval_seconds
        else evaluate_denied t entry eligibility

  abbrev unless_early :
      Option (RecursiveCrawlGateResult × List TraversalCheckpoint) → Evaluation → Evaluation
  unless_early none later = later
  unless_early (some early) later = ok early

  abbrev refresh : TraversalTarget → Text → Option RobotsCacheEntry → RecursiveCrawlGateResult
  refresh t uri cached = record {
    status = robots_refresh_required;
    checkpoint = c;
    target_id = t.target_id;
    robots_uri = some uri;
    robots_entry = cached;
    eligibility = none;
    effective_policy = none;
  }

  -- The end of `evaluate`, with what the cache holds for the robots URI.
  unfoldable pub evaluate_cached :
      TraversalTarget
      → Text
      → RightsAccessDecision
      → ℕ
      → Text
      → Option RobotsCacheEntry
      → Evaluation
  evaluate_cached t product_token rights now uri cached = elim cached [
    | none ↦ unchanged (refresh t uri none)
    | some entry ↦
        if is_fresh entry now
        then evaluate_entry_after_precheck t product_token rights entry
        else unchanged (refresh t uri (some entry))
  ]

  -- RecursiveCrawlPolicyGate.evaluate
  unfoldable pub evaluate : ℕ → Text → RightsAccessDecision → ℕ → Evaluation
  evaluate target_id product_token rights now = do
    t ← queued_target c target_id
    require (rights.target_uri == t.uri)
        "rights decision does not belong to the recursive crawl target"
    early ← evaluate_early_policy t
    unless_early early do
      uri ← robots_uri_for env t.uri
      evaluate_cached t product_token rights now uri (ports.get uri)

  -- RecursiveCrawlPolicyGate.evaluate_refreshed_entry
  unfoldable pub evaluate_refreshed_entry :
      ℕ → Text → RightsAccessDecision → RobotsCacheEntry → Evaluation
  evaluate_refreshed_entry target_id product_token rights entry = do
    t ← queued_target c target_id
    require (rights.target_uri == t.uri)
        "rights decision does not belong to the recursive crawl target"
    early ← evaluate_early_policy t
    unless_early early do
      uri ← robots_uri_for env t.uri
      require (entry.result.robots_uri == uri)
          "robots entry does not belong to the recursive target authority"
      evaluate_entry_after_precheck t product_token rights entry
