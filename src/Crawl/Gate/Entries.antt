-- ===== src/Crawl/Gate/Entries.antt =====
-- What the gate makes of an entry and of the lack of one, wherever the entry comes from.
use tarkka.Prelude.{
  max, ◌≡◌, refl, ◌++◌, Bool, codes, inl, inr, true, false, Option, none, some, List, arith, pos,
  Float, Result, ok, on_ok, Bool-cases, nat_eq, list_eq, Text,
}
use tarkka.Acquisition.Policy.{ResourceAcquisitionPolicy}
use tarkka.Acquisition.Budget.{allows_request}
use tarkka.Traversal.Target.{TraversalTarget}
use tarkka.Traversal.Checkpoint.{TraversalCheckpoint}
use tarkka.Traversal.Frontier.{Environment}
use tarkka.Robots.Access.{CrawlAccessDecision, evaluate_robots_access}
use tarkka.Robots.Cache.{RobotsCacheEntry}
use tarkka.Crawl.Rights.{RightsAccessDecision, allows, retrieve}
use tarkka.Crawl.Eligibility.{
  CrawlEligibilityDecision, combine_crawl_eligibility, combine_crawl_eligibility_iff,
}
use tarkka.Crawl.Gate.{
  reason_text, with_interval, about, refresh, unchanged, evaluate_pacing, evaluate_denied,
  evaluate_entry_after_precheck, unless_early,
}
use tarkka.Crawl.Gate.Results.{deferred_pacing}
use tarkka.Crawl.Gate.Results.{RecursiveCrawlGateResult, Ports}
use tarkka.Crawl.Gate.Explained.{
  IsDenied, by_decision, skip_and_save-IsSkipped, unchanged-eq, Admits, IsCleared, IsExplained,
  IsExplained-of_skipped, EarlyResult, IsPrechecked,
}

false_of : {b : Bool} → b ≡ true → b ≡ false → ⊥
false_of h h' = cc

module _ (env : Environment) (ports : Ports) (c : TraversalCheckpoint)
    (policy : ResourceAcquisitionPolicy) (since : Option Float) (t : TraversalTarget)
    (product_token : Text) (rights : RightsAccessDecision) (Source : RobotsCacheEntry → Type 0)
    (Refresh : RecursiveCrawlGateResult → Type 0) where
  abbrev pub Explains : RecursiveCrawlGateResult → List TraversalCheckpoint → Type 0
  Explains r saved =
      IsExplained env ports c policy since t product_token rights Source Refresh r.status r saved

  pacing-IsExplained :
      (entry : RobotsCacheEntry) (eligibility : CrawlEligibilityDecision)
      (crawl : CrawlAccessDecision) {r : RecursiveCrawlGateResult}
      {saved : List TraversalCheckpoint}
      → IsPrechecked env ports c policy since t product_token rights Source Refresh
      → Source entry
      → evaluate_robots_access env policy product_token entry.result t.uri ≡ ok crawl
      → (crawl.allowed ≡ true) × (allows rights retrieve ≡ true)
      → evaluate_pacing env ports c policy since t entry eligibility
          crawl.effective_min_request_interval_seconds
        ≡ ok (r, saved)
      → Explains r saved
  unfolding evaluate_pacing
  pacing-IsExplained entry eligibility crawl {r} {saved} (inside, admitted) sourced evaluated both
        h =
      let interval =
        max policy.min_request_interval_seconds crawl.effective_min_request_interval_seconds in
      on_ok (with_interval env.library policy interval) _ h λ effective slowed h1.
        let cleared : IsCleared env ports c policy since t product_token rights Source Refresh entry
            effective =
          record {
            crawl = crawl;
            sourced = sourced;
            evaluated = evaluated;
            may_crawl = both.0;
            may_retrieve = both.1;
            slowed = slowed;
          } in
        on_ok (allows_request c.budget effective (pos t.depth) (pos 0) since) _ h1 λ answer e h2.
          elim (Bool-cases answer) [
            | inl paced ↦
                let result = record (about env ports c policy since t entry eligibility) {
                  effective_policy = some effective;
                } in
                let (e1, e2) =
                  unchanged-eq env ports c policy since result {r = r} {saved = saved}
                    (ground arith) in
                let admits : Admits env ports c policy since t effective true = cc in
                rw (e1, e2)
                  ((refl, refl), inside, admitted, (entry, effective, refl, refl, cleared, admits))
            | inr early ↦
                let result = record (about env ports c policy since t entry eligibility) {
                  status = deferred_pacing;
                } in
                let (e1, e2) =
                  unchanged-eq env ports c policy since result {r = r} {saved = saved}
                    (ground arith) in
                let admits : Admits env ports c policy since t effective false = cc in
                rw (e1, e2) ((refl, refl), inside, admitted, (entry, effective, cleared, admits))
          ]

  denied-IsExplained :
      (entry : RobotsCacheEntry) (eligibility : CrawlEligibilityDecision)
      {r : RecursiveCrawlGateResult} {saved : List TraversalCheckpoint}
      → IsDenied env ports c policy since t product_token rights Source Refresh
          (codes "recursive crawl policy denied target: " ++ reason_text eligibility.reason)
      → evaluate_denied env ports c policy since t entry eligibility ≡ ok (r, saved)
      → Explains r saved
  unfolding evaluate_denied
  denied-IsExplained entry eligibility {r} {saved} denied h =
      let (skipped, status) =
        skip_and_save-IsSkipped env ports c policy since t.target_id _ _ {r = r} {saved = saved}
          (λ c'. refl) (λ c'. refl) h in
      IsExplained-of_skipped env ports c policy since t product_token rights Source Refresh _ r
        saved status skipped (by_decision denied)

  pub entry-IsExplained :
      (entry : RobotsCacheEntry) {r : RecursiveCrawlGateResult} {saved : List TraversalCheckpoint}
      → IsPrechecked env ports c policy since t product_token rights Source Refresh
      → Source entry
      → evaluate_entry_after_precheck env ports c policy since t product_token rights entry
        ≡ ok (r, saved)
      → Explains r saved
  unfolding evaluate_entry_after_precheck
  entry-IsExplained entry {r} {saved} prechecked sourced h =
      on_ok (evaluate_robots_access env policy product_token entry.result t.uri) _ h
        λ crawl evaluated h1.
          on_ok (combine_crawl_eligibility env.uris crawl rights) _ h1 λ eligibility e h2.
            let combined = combine_crawl_eligibility_iff env.uris crawl rights e in
            let both = combined.2 in
            elim (Bool-cases eligibility.is_allowed) [
              | inl granted ↦
                  pacing-IsExplained entry eligibility crawl {r = r} {saved = saved} prechecked
                    sourced evaluated (both.0 granted) (ground arith)
              | inr denied ↦
                  denied-IsExplained entry eligibility {r = r} {saved = saved}
                    (record {
                      entry = entry;
                      crawl = crawl;
                      why = eligibility.reason;
                      inside = prechecked.0;
                      admitted = prechecked.1;
                      sourced = sourced;
                      evaluated = evaluated;
                      may_not = λ granted. false_of (both.1 granted) denied;
                      because = combined.5;
                      named = refl;
                    })
                    (ground arith)
            ]

  pub refresh-IsExplained :
      (uri : Text) (cached : Option RobotsCacheEntry) {r : RecursiveCrawlGateResult}
      {saved : List TraversalCheckpoint}
      → IsPrechecked env ports c policy since t product_token rights Source Refresh
      → Refresh (refresh env ports c policy since t uri cached)
      → unchanged env ports c policy since (refresh env ports c policy since t uri cached)
        ≡ ok (r, saved)
      → Explains r saved
  refresh-IsExplained uri cached {r} {saved} (inside, admitted) wanted h =
      let (e1, e2) =
        unchanged-eq env ports c policy since (refresh env ports c policy since t uri cached)
          {r = r} {saved = saved} h in
      rw (e1, e2) ((refl, refl), inside, admitted, wanted)

  pub unless_early-IsExplained :
      (early : Option (RecursiveCrawlGateResult × List TraversalCheckpoint))
      (later : Result (RecursiveCrawlGateResult × List TraversalCheckpoint))
      {r : RecursiveCrawlGateResult} {saved : List TraversalCheckpoint}
      → EarlyResult env ports c policy since t product_token rights Source Refresh early
      → (IsPrechecked env ports c policy since t product_token rights Source Refresh
          → later ≡ ok (r, saved)
          → Explains r saved)
      → unless_early env ports c policy since early later ≡ ok (r, saved)
      → Explains r saved
  unless_early-IsExplained none later early next h = next early h
  unless_early-IsExplained (some (r', saved')) later {r} {saved} early next h =
      let e : r ≡ r' = cc in let e' : saved ≡ saved' = cc in rw (e, e') early
