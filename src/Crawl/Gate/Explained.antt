-- ===== src/Crawl/Gate/Explained.antt =====
-- What each result of the policy gate stands for, and the results of its early tests.
use tarkka.Prelude.{
  ℕ, max, ◌≡◌, refl, sym, subst, inl, inr, Bool, true, false, Option, none, some, List, [], ◌∷◌,
  ◌++◌, arith, pos, Float, ok, on_ok, on_require, Bool-cases, nat_eq, list_eq, Text, codes,
}
use tarkka.Acquisition.Policy.{ResourceAcquisitionPolicy, allows_uri}
use tarkka.Acquisition.Budget.{allows_request}
use tarkka.Traversal.Target.{TraversalTarget}
use tarkka.Traversal.Checkpoint.{TraversalCheckpoint}
use tarkka.Traversal.Frontier.{Environment}
use tarkka.Traversal.Transitions.{skip}
use tarkka.Robots.Access.{CrawlAccessDecision, evaluate_robots_access}
use tarkka.Robots.Cache.{RobotsCacheEntry}
use tarkka.Crawl.Rights.{RightsAccessDecision, allows, retrieve}
use tarkka.Crawl.Eligibility.{CrawlEligibilityReason, IsReason}
use tarkka.Crawl.Gate.{
  reason_text, with_interval, save, bare, skip_and_save, unchanged, early_budget, early_skip,
  evaluate_early_policy,
}
use tarkka.Crawl.Gate.Results.{
  ready, robots_refresh_required, deferred_budget, deferred_pacing, target_skipped,
}
use tarkka.Crawl.Gate.Results.{
  RecursiveCrawlGateStatus, RecursiveCrawlGateResult, Ports, entry_matches, check_status, post_init,
}

module _ (env : Environment) (ports : Ports) (c : TraversalCheckpoint)
    (policy : ResourceAcquisitionPolicy) (since : Option Float) where
  post_init-eq :
      (r : RecursiveCrawlGateResult) {r' : RecursiveCrawlGateResult} → post_init r ≡ ok r' → r' ≡ r
  unfolding post_init
  post_init-eq r h =
      on_require (entry_matches r.robots_entry r.robots_uri) _ _ h
        λ t h1. on_ok (check_status r r.status) _ h1 λ u e h2. cc

  pub unchanged-eq :
      (result : RecursiveCrawlGateResult) {r : RecursiveCrawlGateResult}
      {saved : List TraversalCheckpoint}
      → unchanged env ports c policy since result ≡ ok (r, saved)
      → (r ≡ result) × (saved ≡ [])
  unfolding unchanged
  unchanged-eq result h =
      on_ok (post_init result) _ h λ r' e h1. let e' = post_init-eq result e in (cc, cc)

  -- The target was skipped for this reason, and the checkpoint saved.
  pub record IsSkipped (target_id : ℕ) (reason : Text) (r : RecursiveCrawlGateResult)
      (saved : List TraversalCheckpoint) : Type 0 where
    pub skipped : skip env c target_id reason ≡ ok r.checkpoint
    pub taken : ports.takes r.checkpoint ≡ true
    pub saved_once : saved ≡ r.checkpoint ∷ []

  pub skip_and_save-IsSkipped :
      (target_id : ℕ) (reason : Text) (result : TraversalCheckpoint → RecursiveCrawlGateResult)
      {r : RecursiveCrawlGateResult} {saved : List TraversalCheckpoint}
      → ((c' : TraversalCheckpoint) → (result c').checkpoint ≡ c')
      → ((c' : TraversalCheckpoint) → (result c').status ≡ target_skipped)
      → skip_and_save env ports c policy since target_id reason result ≡ ok (r, saved)
      → IsSkipped target_id reason r saved × (r.status ≡ target_skipped)
  unfolding skip_and_save save
  skip_and_save-IsSkipped target_id reason result {r} {saved} same same_status h =
      on_ok (skip env c target_id reason) _ h λ c' e h1.
        on_ok (save env ports c policy since c') _ h1 λ u e' h2.
          on_ok (post_init (result c')) _ h2 λ r' e'' h3.
            let e3 = post_init-eq (result c') e'' in
            let taken : ports.takes c' ≡ true = ground arith in
            let e4 : r ≡ result c' = cc in
            let e5 : r.checkpoint ≡ c' = rw e4 (same c') in
            (
              record { skipped = rw e5 e; taken = rw e5 taken; saved_once = rw e5 cc },
              rw e4 (same_status c'),
            )

  module _ (t : TraversalTarget) where
    -- The request that `start` is to charge is within the budget under the policy.
    abbrev pub Admits : ResourceAcquisitionPolicy → Bool → Type 0
    Admits p answer = allows_request c.budget p (pos t.depth) (pos 0) since ≡ ok answer

    -- Nothing was changed.
    abbrev pub IsKept : RecursiveCrawlGateResult → List TraversalCheckpoint → Type 0
    IsKept r saved = (r.checkpoint ≡ c) × (saved ≡ [])

    -- `Source` says which entries may be looked at, and `Refresh` which results may ask for another.
    module _ (product_token : Text) (rights : RightsAccessDecision)
        (Source : RobotsCacheEntry → Type 0) (Refresh : RecursiveCrawlGateResult → Type 0) where
      -- Robots and rights let the target be fetched, and the policy with the longer interval is
      -- `effective`.
      pub record IsCleared (entry : RobotsCacheEntry) (effective : ResourceAcquisitionPolicy)
          : Type 0 where
        pub crawl : CrawlAccessDecision
        pub sourced : Source entry
        pub evaluated :
            evaluate_robots_access env policy product_token entry.result t.uri ≡ ok crawl
        pub may_crawl : crawl.allowed ≡ true
        pub may_retrieve : allows rights retrieve ≡ true
        pub slowed :
            with_interval env.library policy
              (max policy.min_request_interval_seconds crawl.effective_min_request_interval_seconds)
            ≡ ok effective

      -- Robots or rights deny the target, and the reason says which.
      pub record IsDenied (reason : Text) : Type 0 where
        pub entry : RobotsCacheEntry
        pub crawl : CrawlAccessDecision
        pub why : CrawlEligibilityReason
        pub inside : allows_uri env.library policy t.uri ≡ true
        pub admitted : Admits policy true
        pub sourced : Source entry
        pub evaluated :
            evaluate_robots_access env policy product_token entry.result t.uri ≡ ok crawl
        pub may_not : ¬ ((crawl.allowed ≡ true) × (allows rights retrieve ≡ true))
        pub because : IsReason crawl rights why
        pub named : reason ≡ codes "recursive crawl policy denied target: " ++ reason_text why

      -- The grounds on which a target is skipped.
      pub data IsBarred (reason : Text) : Type 0 where
        technically :
            allows_uri env.library policy t.uri ≡ false
            → reason ≡ codes "technical acquisition policy denied target"
            → IsBarred reason
        by_decision : IsDenied reason → IsBarred reason

      -- What a result with each status says.
      abbrev pub IsExplained :
          RecursiveCrawlGateStatus → RecursiveCrawlGateResult → List TraversalCheckpoint → Type 0
      IsExplained ready r saved =
          IsKept r saved
          × (allows_uri env.library policy t.uri ≡ true)
          × Admits policy true
          × ((entry : RobotsCacheEntry) × (effective : ResourceAcquisitionPolicy)
              × (r.effective_policy ≡ some effective)
              × (r.robots_entry ≡ some entry)
              × IsCleared entry effective
              × Admits effective true)
      IsExplained deferred_pacing r saved =
          IsKept r saved
          × (allows_uri env.library policy t.uri ≡ true)
          × Admits policy true
          × ((entry : RobotsCacheEntry) × (effective : ResourceAcquisitionPolicy) × IsCleared entry
                effective
              × Admits effective false)
      IsExplained robots_refresh_required r saved =
          IsKept r saved
          × (allows_uri env.library policy t.uri ≡ true)
          × Admits policy true
          × Refresh r
      IsExplained deferred_budget r saved =
          IsKept r saved × (allows_uri env.library policy t.uri ≡ true) × Admits policy false
      IsExplained target_skipped r saved =
          (reason : Text) × IsSkipped t.target_id reason r saved × IsBarred reason

      pub IsExplained-of_skipped :
          (reason : Text) (r : RecursiveCrawlGateResult) (saved : List TraversalCheckpoint)
          → r.status ≡ target_skipped
          → IsSkipped t.target_id reason r saved
          → IsBarred reason
          → IsExplained r.status r saved
      IsExplained-of_skipped reason r saved status skipped barred =
          subst (λ (s : RecursiveCrawlGateStatus). IsExplained s r saved) (sym status)
            (reason, skipped, barred)

      abbrev pub EarlyResult : Option (RecursiveCrawlGateResult × List TraversalCheckpoint) → Type 0
      EarlyResult none = (allows_uri env.library policy t.uri ≡ true) × Admits policy true
      EarlyResult (some (r, saved)) = IsExplained r.status r saved

      early_budget-EarlyResult :
          (answer : Bool) {early : Option (RecursiveCrawlGateResult × List TraversalCheckpoint)}
          → allows_uri env.library policy t.uri ≡ true
          → Admits policy answer
          → early_budget env ports c policy since t answer ≡ ok early
          → EarlyResult early
      unfolding early_budget
      early_budget-EarlyResult true {early} inside admitted h =
          let e : early ≡ none = cc in rw e (inside, admitted)
      early_budget-EarlyResult false {early} inside refused h =
          let result = bare env ports c policy since deferred_budget c t.target_id in
          on_ok (unchanged env ports c policy since result) _ h λ pair e h1.
            let (e1, e2) = unchanged-eq result e in
            let e3 : early ≡ some (result, []) = cc in rw e3 ((refl, refl), inside, refused)

      early_skip-EarlyResult :
          {early : Option (RecursiveCrawlGateResult × List TraversalCheckpoint)}
          → allows_uri env.library policy t.uri ≡ false
          → early_skip env ports c policy since t ≡ ok early
          → EarlyResult early
      unfolding early_skip
      early_skip-EarlyResult {early} outside h =
          let reason = codes "technical acquisition policy denied target" in
          let result = λ (c' : TraversalCheckpoint).
            bare env ports c policy since target_skipped c' t.target_id in
          on_ok (skip_and_save env ports c policy since t.target_id reason result) _ h λ pair e h1.
            let (skipped, status) =
              skip_and_save-IsSkipped t.target_id reason result (λ c'. refl) (λ c'. refl) e in
            let e' : early ≡ some (pair.0, pair.1) = cc in
            rw e' (
              IsExplained-of_skipped reason pair.0 pair.1 status skipped (technically outside refl))

      pub early-EarlyResult :
          {early : Option (RecursiveCrawlGateResult × List TraversalCheckpoint)}
          → evaluate_early_policy env ports c policy since t ≡ ok early
          → EarlyResult early
      unfolding evaluate_early_policy
      early-EarlyResult {early} h = elim (Bool-cases (allows_uri env.library policy t.uri)) [
        | inl inside ↦
            on_ok (allows_request c.budget policy (pos t.depth) (pos 0) since)
              (early_budget env ports c policy since t) {r = early} (ground arith)
              λ answer e h1. early_budget-EarlyResult answer inside e h1
        | inr outside ↦ early_skip-EarlyResult outside (ground arith)
      ]

      -- What is known before the entry is looked at.
      abbrev pub IsPrechecked : Type 0
      IsPrechecked = (allows_uri env.library policy t.uri ≡ true) × Admits policy true
