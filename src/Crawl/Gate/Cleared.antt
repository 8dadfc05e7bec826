-- ===== src/Crawl/Gate/Cleared.antt =====
-- The policy gate explains each of its results.
use tarkka.Prelude.{
  ℕ, ◌≡◌, refl, sym, ap, ◌∙◌, inl, inr, true, false, Option, none, some, List, arith, Float, ok,
  on_ok, on_require, Bool-cases, ◌==◌, nat_eq, list_eq, list_beq_iff, Text,
}
use tarkka.Acquisition.Policy.{ResourceAcquisitionPolicy, allows_uri}
use tarkka.Traversal.Target.{TraversalTarget}
use tarkka.Traversal.Checkpoint.{TraversalCheckpoint}
use tarkka.Traversal.Frontier.{Environment}
use tarkka.Robots.Access.{robots_uri_for}
use tarkka.Robots.Cache.{RobotsCacheEntry, is_fresh}
use tarkka.Crawl.Rights.{RightsAccessDecision}
use tarkka.Crawl.Gate.{
  queued_target, evaluate_early_policy, evaluate_cached, evaluate, evaluate_refreshed_entry,
}
use tarkka.Crawl.Gate.Results.{RecursiveCrawlGateResult, Ports}
use tarkka.Crawl.Gate.Explained.{Admits, IsExplained, early-EarlyResult}
use tarkka.Crawl.Gate.Entries.{
  Explains, entry-IsExplained, refresh-IsExplained, unless_early-IsExplained,
}

-- The entry that the cache holds for the robots URI of the target, and it is fresh.
abbrev pub IsCached : Environment → Ports → ℕ → TraversalTarget → RobotsCacheEntry → Type 0
IsCached env ports now t entry =
    (uri : Text) × (robots_uri_for env t.uri ≡ ok uri)
    × (ports.get uri ≡ some entry)
    × (is_fresh entry now ≡ true)

abbrev pub IsUnusable : ℕ → Option RobotsCacheEntry → Type 0
IsUnusable now none = Unit
IsUnusable now (some entry) = is_fresh entry now ≡ false

-- The cache holds nothing fresh for the robots URI of the target, which the result names.
abbrev pub IsWanting : Environment → Ports → ℕ → TraversalTarget → RecursiveCrawlGateResult → Type 0
IsWanting env ports now t r =
    (uri : Text) × (robots_uri_for env t.uri ≡ ok uri)
    × (r.robots_uri ≡ some uri)
    × (r.robots_entry ≡ ports.get uri)
    × IsUnusable now (ports.get uri)

-- The entry that a refresh selected, and it is for the robots URI of the target.
abbrev pub IsSelected : Environment → TraversalTarget → RobotsCacheEntry → RobotsCacheEntry → Type 0
IsSelected env t selected entry =
    (entry ≡ selected) × (robots_uri_for env t.uri ≡ ok entry.result.robots_uri)

abbrev pub NoRefresh : RecursiveCrawlGateResult → Type 0
NoRefresh r = ⊥

module _ (env : Environment) (ports : Ports) (c : TraversalCheckpoint)
    (policy : ResourceAcquisitionPolicy) (since : Option Float) (t : TraversalTarget)
    (product_token : Text) (rights : RightsAccessDecision) (now : ℕ) where
  abbrev ExplainsCached : RecursiveCrawlGateResult → List TraversalCheckpoint → Type 0
  ExplainsCached =
      Explains env ports c policy since t product_token rights (IsCached env ports now t)
        (IsWanting env ports now t)

  cached-IsExplained :
      (uri : Text) (cached : Option RobotsCacheEntry) {r : RecursiveCrawlGateResult}
      {saved : List TraversalCheckpoint}
      → robots_uri_for env t.uri ≡ ok uri
      → ports.get uri ≡ cached
      → (allows_uri env.library policy t.uri ≡ true) × Admits env ports c policy since t policy true
      → evaluate_cached env ports c policy since t product_token rights now uri cached
        ≡ ok (r, saved)
      → ExplainsCached r saved
  unfolding evaluate_cached
  cached-IsExplained uri none {r} {saved} located held prechecked h =
      refresh-IsExplained env ports c policy since t product_token rights (IsCached env ports now t)
        (IsWanting env ports now t) uri none {r = r} {saved = saved} prechecked
        (uri, located, refl, held', rw held tt) h
    where
      held' : none ≡ ports.get uri
      held' = sym held
  cached-IsExplained uri (some entry) {r} {saved} located held prechecked h =
      elim (Bool-cases (is_fresh entry now)) [
        | inl fresh ↦
            entry-IsExplained env ports c policy since t product_token rights
              (IsCached env ports now t) (IsWanting env ports now t) entry {r = r} {saved = saved}
              prechecked (uri, located, held, fresh) (ground arith)
        | inr stale ↦
            refresh-IsExplained env ports c policy since t product_token rights
              (IsCached env ports now t) (IsWanting env ports now t) uri (some entry) {r = r}
              {saved = saved} prechecked (uri, located, refl, sym held, rw held stale)
              (ground arith)
      ]

module _ (env : Environment) (ports : Ports) (c : TraversalCheckpoint)
    (policy : ResourceAcquisitionPolicy) (since : Option Float) where
  -- A result of the gate, for a queued target, is what its status says. It is ready only if the
  -- policy allows the URI, a fresh entry of the cache and the rights let the target be fetched, and
  -- the budget admits the request under the policy and under its slowed copy. A refresh is asked for
  -- only if the cache holds no fresh entry for the robots URI. A target is skipped only if the
  -- technical policy denies it, or the fresh entry or the rights do, and the reason names which; the
  -- changed checkpoint is saved. Every other result leaves the checkpoint alone and saves nothing.
  pub evaluate-IsExplained :
      (target_id : ℕ) (product_token : Text) (rights : RightsAccessDecision) (now : ℕ)
      {r : RecursiveCrawlGateResult} {saved : List TraversalCheckpoint}
      → evaluate env ports c policy since target_id product_token rights now ≡ ok (r, saved)
      → (t : TraversalTarget) × (queued_target c target_id ≡ ok t)
        × (rights.target_uri ≡ t.uri)
        × IsExplained env ports c policy since t product_token rights
            (IsCached env ports now t)
            (IsWanting env ports now t)
            r.status
            r
            saved
  unfolding evaluate
  evaluate-IsExplained target_id product_token rights now {r} {saved} h =
      on_ok (queued_target c target_id) _ h λ t e h1.
        on_require (rights.target_uri == t.uri) _ _ h1 λ same h2.
          on_ok (evaluate_early_policy env ports c policy since t) _ h2 λ early e' h3. (
            t,
            e,
            (list_beq_iff rights.target_uri t.uri).0 same,
            unless_early-IsExplained env ports c policy since t product_token rights
                (IsCached env ports now t) (IsWanting env ports now t) early _ {r = r}
                {saved = saved}
                (early-EarlyResult env ports c policy since t product_token rights
                  (IsCached env ports now t) (IsWanting env ports now t) e')
                (λ prechecked h4. on_ok (robots_uri_for env t.uri) _ h4 λ uri e'' h5.
                  cached-IsExplained env ports c policy since t product_token rights now uri
                    (ports.get uri) {r = r} {saved = saved} e'' refl prechecked h5)
                h3,
          )

  -- The same for the entry that a refresh selected, which must belong to the robots URI of the target.
  pub evaluate_refreshed_entry-IsExplained :
      (target_id : ℕ) (product_token : Text) (rights : RightsAccessDecision)
      (entry : RobotsCacheEntry) {r : RecursiveCrawlGateResult} {saved : List TraversalCheckpoint}
      → evaluate_refreshed_entry env ports c policy since target_id product_token rights entry
        ≡ ok (r, saved)
      → (t : TraversalTarget) × (queued_target c target_id ≡ ok t)
        × (rights.target_uri ≡ t.uri)
        × IsExplained env ports c policy since t product_token rights
            (IsSelected env t entry)
            NoRefresh
            r.status
            r
            saved
  unfolding evaluate_refreshed_entry
  evaluate_refreshed_entry-IsExplained target_id product_token rights entry {r} {saved} h =
      on_ok (queued_target c target_id) _ h λ t e h1.
        on_require (rights.target_uri == t.uri) _ _ h1 λ same h2.
          on_ok (evaluate_early_policy env ports c policy since t) _ h2 λ early e' h3. (
            t,
            e,
            (list_beq_iff rights.target_uri t.uri).0 same,
            unless_early-IsExplained env ports c policy since t product_token rights
                (IsSelected env t entry) NoRefresh early _ {r = r} {saved = saved}
                (early-EarlyResult env ports c policy since t product_token rights
                  (IsSelected env t entry) NoRefresh e')
                (λ prechecked h4. on_ok (robots_uri_for env t.uri) _ h4 λ uri e'' h5.
                  on_require (entry.result.robots_uri == uri) _ _ h5 λ same' h6.
                    entry-IsExplained env ports c policy since t product_token rights
                      (IsSelected env t entry) NoRefresh entry {r = r} {saved = saved} prechecked
                      (refl, e'' ∙ ap ok (sym ((list_beq_iff entry.result.robots_uri uri).0 same')))
                      h6)
                h3,
          )
