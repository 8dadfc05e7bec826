-- ===== src/Crawl/Coordinator/Conduct.antt =====
-- What a call of the coordinator may do: the calls of the network that it makes, and the gate that
-- each of them stands behind.
use tarkka.Prelude.{
  ℕ, ◌≡◌, false, Option, none, some, List, [], ◌∷◌, ◌++◌, Float, finite, Result, ok, err, Text,
  Error,
}
use tarkka.Acquisition.Policy.{ResourceAcquisitionPolicy}
use tarkka.Traversal.Target.{TraversalTarget}
use tarkka.Traversal.Checkpoint.{TraversalCheckpoint}
use tarkka.Traversal.Frontier.{Environment}
use tarkka.Robots.Cache.{RobotsCacheEntry}
use tarkka.Crawl.Rights.{RightsAccessDecision}
use tarkka.Crawl.Gate.{queued_target, evaluate, evaluate_refreshed_entry}
use tarkka.Crawl.Gate.Results.{ready, robots_refresh_required}
use tarkka.Crawl.Gate.Results.{Ports, Evaluation, RecursiveCrawlGateResult}
use tarkka.Crawl.Gate.Explained.{IsExplained}
use tarkka.Crawl.Gate.Cleared.{IsCached, IsWanting, IsSelected, NoRefresh}
use tarkka.Crawl.Coordinator.{
  Network, Request, RobotsRefreshResult, RecursiveCrawlResult, is_ready, is_refresh,
}

module _ (env : Environment) (ports : Ports) (net : Network) (policy : ResourceAcquisitionPolicy)
    (target_id : ℕ) (product_token : Text) (rights : RightsAccessDecision) (now : ℕ)
    (request_uri : Option Text) where
  -- What the answer to the request for the target makes of the call.
  abbrev pub answered :
      RecursiveCrawlGateResult
      → Option RobotsRefreshResult
      → Result TraversalCheckpoint
      → Result RecursiveCrawlResult
  answered gate refreshed (ok acquired) =
      ok (record { gate = gate; acquisition = some acquired; robots_refresh = refreshed })
  answered gate refreshed (err e) = err e

  -- What follows a gate evaluation that asks for no refresh, after the calls in `log`: nothing is
  -- called if it raises or is not ready, and the target is asked for once if it is ready.
  pub data Follows (Source : TraversalTarget → RobotsCacheEntry → Type 0)
      (Refresh : TraversalTarget → RecursiveCrawlGateResult → Type 0) (log : List Request)
      (refreshed : Option RobotsRefreshResult) (c : TraversalCheckpoint) (since : Option Float)
      (evaluation : Evaluation) (outcome : Result RecursiveCrawlResult) (calls : List Request)
      : Type 0 where
    raises :
        (e : Error)
        → evaluation ≡ err e
        → outcome ≡ err e
        → calls ≡ log
        → Follows Source Refresh log refreshed c since evaluation outcome calls
    waits :
        (gate : RecursiveCrawlGateResult) (saved : List TraversalCheckpoint)
        → evaluation ≡ ok (gate, saved)
        → is_ready gate.status ≡ false
        → is_refresh gate.status ≡ false
        → outcome ≡ ok (record { gate = gate; acquisition = none; robots_refresh = refreshed })
        → calls ≡ log
        → Follows Source Refresh log refreshed c since evaluation outcome calls
    asks :
        (t : TraversalTarget) (gate : RecursiveCrawlGateResult) (saved : List TraversalCheckpoint)
        (effective : ResourceAcquisitionPolicy)
        → evaluation ≡ ok (gate, saved)
        → queued_target c target_id ≡ ok t
        → IsExplained env ports c policy since t product_token rights
            (Source t)
            (Refresh t)
            ready
            gate
            saved
        → gate.effective_policy ≡ some effective
        → outcome
          ≡ answered gate refreshed
              (net.acquire log gate.checkpoint target_id effective request_uri since)
        → calls
          ≡ log ++ Request.acquire_target gate.checkpoint target_id effective request_uri since ∷ []
        → Follows Source Refresh log refreshed c since evaluation outcome calls

  -- The first gate asks for a refresh of this robots URI.
  pub record IsRefreshing (c : TraversalCheckpoint) (since : Option Float) (t : TraversalTarget)
      (uri : Text) : Type 0 where
    pub gate : RecursiveCrawlGateResult
    pub saved : List TraversalCheckpoint
    pub evaluated :
        evaluate env ports c policy since target_id product_token rights now ≡ ok (gate, saved)
    pub target_queued : queued_target c target_id ≡ ok t
    pub explained :
        IsExplained env ports c policy since t product_token rights
          (IsCached env ports now t)
          (IsWanting env ports now t)
          robots_refresh_required
          gate
          saved
    pub located : gate.robots_uri ≡ some uri

  -- All that a call of the coordinator can do, with the calls of the network that it makes.
  pub data Conduct (c : TraversalCheckpoint) (since : Option Float)
      (outcome : Result RecursiveCrawlResult) (calls : List Request) : Type 0 where
    at_once :
        Follows
          (IsCached env ports now)
          (IsWanting env ports now)
          []
          none
          c
          since
          (evaluate env ports c policy since target_id product_token rights now)
          outcome
          calls
        → Conduct c since outcome calls
    refresh_raises :
        (t : TraversalTarget) (uri : Text) (e : Error)
        → IsRefreshing c since t uri
        → net.refresh [] c policy uri t.depth now since ≡ err e
        → outcome ≡ err e
        → calls ≡ Request.refresh_robots c policy uri t.depth now since ∷ []
        → Conduct c since outcome calls
    refreshes :
        (t : TraversalTarget) (uri : Text) (refreshed : RobotsRefreshResult)
        → IsRefreshing c since t uri
        → net.refresh [] c policy uri t.depth now since ≡ ok refreshed
        → Follows
            (λ t'. IsSelected env t' refreshed.entry)
            (λ t'. NoRefresh)
            (Request.refresh_robots c policy uri t.depth now since ∷ [])
            (some refreshed)
            refreshed.checkpoint
            (some (finite 0))
            (evaluate_refreshed_entry env ports refreshed.checkpoint policy
              (some (finite 0))
              target_id
              product_token
              rights
              refreshed.entry)
            outcome
            calls
        → Conduct c since outcome calls
