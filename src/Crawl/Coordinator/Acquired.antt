-- ===== src/Crawl/Coordinator/Acquired.antt =====
-- The coordinator does what its specification says, for every outcome.
use tarkka.Prelude.{
  ℕ, ◌≡◌, refl, sym, ◌∙◌, inl, inr, true, false, if◌then◌else◌, Option, none, some, List, [], ◌∷◌,
  ◌++◌, arith, Float, finite, Result, ok, err, Bool-cases, Text, subst,
}
use tarkka.Acquisition.Policy.{ResourceAcquisitionPolicy}
use tarkka.Traversal.Target.{TraversalTarget}
use tarkka.Traversal.Checkpoint.{TraversalCheckpoint}
use tarkka.Traversal.Frontier.{Environment}
use tarkka.Robots.Cache.{RobotsCacheEntry}
use tarkka.Crawl.Rights.{RightsAccessDecision}
use tarkka.Crawl.Gate.{queued_target, evaluate, evaluate_refreshed_entry}
use tarkka.Crawl.Gate.Results.{ready, robots_refresh_required}
use tarkka.Crawl.Gate.Results.{
  Ports, Evaluation, RecursiveCrawlGateStatus, RecursiveCrawlGateResult,
}
use tarkka.Crawl.Gate.Explained.{IsExplained}
use tarkka.Crawl.Gate.Cleared.{
  IsCached, IsWanting, IsSelected, NoRefresh, evaluate-IsExplained,
  evaluate_refreshed_entry-IsExplained,
}
use tarkka.Crawl.Coordinator.{
  Network, Request, RobotsRefreshResult, RecursiveCrawlResult, is_ready, is_refresh, after,
  expected, acquire_ready, acquire_refreshed, acquire,
}
use tarkka.Crawl.Coordinator.Conduct.{
  Follows, raises, waits, asks, IsRefreshing, Conduct, at_once, refresh_raises, refreshes,
}

is_ready-eq : (status : RecursiveCrawlGateStatus) → is_ready status ≡ true → status ≡ ready
is_ready-eq status h = ground arith

is_refresh-eq :
    (status : RecursiveCrawlGateStatus)
    → is_refresh status ≡ true
    → status ≡ robots_refresh_required
is_refresh-eq status h = ground arith

module _ (env : Environment) (ports : Ports) (net : Network) (policy : ResourceAcquisitionPolicy)
    (target_id : ℕ) (product_token : Text) (rights : RightsAccessDecision) (now : ℕ)
    (request_uri : Option Text) where
  module _ (Source : TraversalTarget → RobotsCacheEntry → Type 0)
      (Refresh : TraversalTarget → RecursiveCrawlGateResult → Type 0) (log : List Request)
      (refreshed : Option RobotsRefreshResult) (c : TraversalCheckpoint) (since : Option Float)
      (evaluation : Evaluation) where
    none-ne-some : {A : Type 0} {a : A} → ◌≡◌ {A = Option A} none (some a) → ⊥
    none-ne-some h = cc

    asks_of :
        (t : TraversalTarget) (gate : RecursiveCrawlGateResult) (saved : List TraversalCheckpoint)
        (effective : ResourceAcquisitionPolicy)
        → evaluation ≡ ok (gate, saved)
        → queued_target c target_id ≡ ok t
        → IsExplained env ports c policy since t product_token rights
            (Source t)
            (Refresh t)
            ready
            gate
            saved
        → gate.effective_policy ≡ some effective
        → (answer : Result TraversalCheckpoint)
        → net.acquire log gate.checkpoint target_id effective request_uri since ≡ answer
        → let sent =
            log
            ++ Request.acquire_target gate.checkpoint target_id effective request_uri since ∷ [] in
          let result : Result RecursiveCrawlResult × List Request = after sent answer λ acquired. (
            ok (record { gate = gate; acquisition = some acquired; robots_refresh = refreshed }),
            sent,
          ) in
          Follows env ports net policy target_id product_token rights now request_uri Source Refresh
            log refreshed c since evaluation result.0 result.1
    asks_of t gate saved effective v q x p (ok acquired) e =
        asks t gate saved effective v q x p (rw e refl) refl
    asks_of t gate saved effective v q x p (err raised) e =
        asks t gate saved effective v q x p (rw e refl) refl

    asks_for :
        (t : TraversalTarget) (gate : RecursiveCrawlGateResult) (saved : List TraversalCheckpoint)
        → evaluation ≡ ok (gate, saved)
        → queued_target c target_id ≡ ok t
        → IsExplained env ports c policy since t product_token rights
            (Source t)
            (Refresh t)
            ready
            gate
            saved
        → (policy_of : Option ResourceAcquisitionPolicy) → gate.effective_policy ≡ policy_of
        → let result : Result RecursiveCrawlResult × List Request =
            after log (expected policy_of) λ effective.
              let sent =
                log
                ++ Request.acquire_target gate.checkpoint target_id effective request_uri since
                  ∷ [] in
              after sent
                (net.acquire log gate.checkpoint target_id effective request_uri since)
                λ acquired. (
                  ok (record {
                    gate = gate;
                    acquisition = some acquired;
                    robots_refresh = refreshed;
                  }),
                  sent,
                ) in
          Follows env ports net policy target_id product_token rights now request_uri Source Refresh
            log refreshed c since evaluation result.0 result.1
    asks_for t gate saved v q x (some effective) p = asks_of t gate saved effective v q x p _ refl
    asks_for t gate saved v q x none p =
        let p' : gate.effective_policy ≡ some x.3.1 = x.3.2 in absurd (none-ne-some (sym p ∙ p'))

    acquire_ready-Follows :
        (t : TraversalTarget) (gate : RecursiveCrawlGateResult) (saved : List TraversalCheckpoint)
        → evaluation ≡ ok (gate, saved)
        → queued_target c target_id ≡ ok t
        → IsExplained env ports c policy since t product_token rights
            (Source t)
            (Refresh t)
            gate.status
            gate
            saved
        → is_refresh gate.status ≡ false
        → let result =
            acquire_ready env ports net policy target_id product_token rights now request_uri log
              gate refreshed since in
          Follows env ports net policy target_id product_token rights now request_uri Source Refresh
            log refreshed c since evaluation result.0 result.1
    unfolding acquire_ready
    acquire_ready-Follows t gate saved v q explained still =
        elim (Bool-cases (is_ready gate.status)) [
          | inl go ↦
              let x =
                subst
                  (λ (s : RecursiveCrawlGateStatus).
                    IsExplained env ports c policy since t product_token rights (Source t)
                      (Refresh t) s gate saved)
                  (is_ready-eq gate.status go) explained in
              rw go (asks_for t gate saved v q x gate.effective_policy refl)
          | inr stop ↦ rw stop (waits gate saved v stop still refl refl)
        ]

  module _ (refreshed : RobotsRefreshResult) (sent : List Request) where
    abbrev again : Evaluation
    again =
        evaluate_refreshed_entry env ports refreshed.checkpoint policy (some (finite 0)) target_id
          product_token rights refreshed.entry

    abbrev FollowsRefresh : Result RecursiveCrawlResult → List Request → Type 0
    FollowsRefresh =
        Follows env ports net policy target_id product_token rights now request_uri
          (λ t'. IsSelected env t' refreshed.entry) (λ t'. NoRefresh) sent (some refreshed)
          refreshed.checkpoint (some (finite 0)) again

    again-Follows :
        (evaluation : Evaluation)
        → again ≡ evaluation
        → let result : Result RecursiveCrawlResult × List Request = after sent evaluation λ second.
          acquire_ready env ports net policy target_id product_token rights now request_uri sent
            second.0
            (some refreshed)
            (some (finite 0)) in
          FollowsRefresh result.0 result.1
    again-Follows (err e) v = raises e v refl refl
    again-Follows (ok (gate, saved)) v =
        let (t, q, same_uri, explained) =
          evaluate_refreshed_entry-IsExplained env ports refreshed.checkpoint policy
            (some (finite 0)) target_id product_token rights refreshed.entry {r = gate}
            {saved = saved} v in
        elim (Bool-cases (is_refresh gate.status)) [
          | inl more ↦
              let x =
                subst
                  (λ (s : RecursiveCrawlGateStatus).
                    IsExplained env ports refreshed.checkpoint policy (some (finite 0)) t
                      product_token rights (IsSelected env t refreshed.entry) NoRefresh s gate
                      saved)
                  (is_refresh-eq gate.status more) explained in
              absurd x.3
          | inr still ↦
              acquire_ready-Follows (λ t'. IsSelected env t' refreshed.entry) (λ t'. NoRefresh) sent
                (some refreshed) refreshed.checkpoint (some (finite 0)) again t gate saved v q
                explained still
        ]

  module _ (c : TraversalCheckpoint) (since : Option Float) where
    refresh_of :
        (t : TraversalTarget) (uri : Text)
        → IsRefreshing env ports net policy target_id product_token rights now request_uri c since t
            uri
        → (answer : Result RobotsRefreshResult)
        → net.refresh [] c policy uri t.depth now since ≡ answer
        → let sent = Request.refresh_robots c policy uri t.depth now since ∷ [] in
          let result : Result RecursiveCrawlResult × List Request = after sent answer λ refreshed.
            after sent (again refreshed sent) λ second.
              acquire_ready env ports net policy target_id product_token rights now request_uri sent
                second.0
                (some refreshed)
                (some (finite 0)) in
          Conduct env ports net policy target_id product_token rights now request_uri c since
            result.0 result.1
    refresh_of t uri asked (err e) answered_by = refresh_raises t uri e asked answered_by refl refl
    refresh_of t uri asked (ok refreshed) answered_by =
        let sent = Request.refresh_robots c policy uri t.depth now since ∷ [] in
        refreshes t uri refreshed asked answered_by (again-Follows refreshed sent _ refl)

    acquire_refreshed-Conduct :
        (t : TraversalTarget) (gate : RecursiveCrawlGateResult) (saved : List TraversalCheckpoint)
        → evaluate env ports c policy since target_id product_token rights now ≡ ok (gate, saved)
        → queued_target c target_id ≡ ok t
        → IsExplained env ports c policy since t product_token rights
            (IsCached env ports now t)
            (IsWanting env ports now t)
            robots_refresh_required
            gate
            saved
        → let result =
            acquire_refreshed env ports net policy target_id product_token rights now request_uri
              gate since in
          Conduct env ports net policy target_id product_token rights now request_uri c since
            result.0 result.1
    unfolding acquire_refreshed
    acquire_refreshed-Conduct t gate saved v q x =
        let kept : gate.checkpoint ≡ c = x.0.0 in
        let uri = x.3.0 in
        let located : gate.robots_uri ≡ some uri = x.3.2 in
        let asked : IsRefreshing env ports net policy target_id product_token rights now request_uri
            c since t uri =
          record {
            gate = gate;
            saved = saved;
            evaluated = v;
            target_queued = q;
            explained = x;
            located = located;
          } in
        rw (kept, q, located) (refresh_of t uri asked _ refl)

    evaluated-Conduct :
        (evaluation : Evaluation)
        → evaluate env ports c policy since target_id product_token rights now ≡ evaluation
        → let result : Result RecursiveCrawlResult × List Request = after [] evaluation λ first.
          if is_refresh first.0.status
          then acquire_refreshed env ports net policy target_id product_token rights now request_uri
              first.0 since
          else acquire_ready env ports net policy target_id product_token rights now request_uri []
              first.0 none since in
          Conduct env ports net policy target_id product_token rights now request_uri c since
            result.0 result.1
    evaluated-Conduct (err e) v = at_once (raises e v refl refl)
    evaluated-Conduct (ok (gate, saved)) v =
        let (t, q, same_uri, explained) =
          evaluate-IsExplained env ports c policy since target_id product_token rights now
            {r = gate} {saved = saved} v in
        elim (Bool-cases (is_refresh gate.status)) [
          | inl stale ↦
              let x =
                subst
                  (λ (s : RecursiveCrawlGateStatus).
                    IsExplained env ports c policy since t product_token rights
                      (IsCached env ports now t) (IsWanting env ports now t) s gate saved)
                  (is_refresh-eq gate.status stale) explained in
              rw stale (acquire_refreshed-Conduct t gate saved v q x)
          | inr still ↦ rw still (
              at_once (
                acquire_ready-Follows (IsCached env ports now) (IsWanting env ports now) [] none c
                  since (evaluate env ports c policy since target_id product_token rights now) t
                  gate saved v q explained still))
        ]

    -- Whatever a call of the coordinator returns or raises, these are all the calls that it makes of
    -- the network. If the first gate raises, or defers or skips the target, there is none. If it is
    -- ready, there is one: the target is asked for under the slowed policy of the gate, and the
    -- answer is the outcome. If it asks for a refresh, the robots file is asked for; if that raises,
    -- or the second gate raises or is not ready, there is no further call; and if the second gate is
    -- ready, for the checkpoint of the refresh with no time since it, the target is asked for once
    -- under the slowed policy of that gate.
    pub acquire-Conduct :
        let result =
          acquire env ports net policy target_id product_token rights now request_uri c since in
        Conduct env ports net policy target_id product_token rights now request_uri c since result.0
          result.1
    unfolding acquire
    acquire-Conduct = evaluated-Conduct _ refl
