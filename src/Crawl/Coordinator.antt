-- ===== src/Crawl/Coordinator.antt =====
-- RecursiveCrawlCoordinator of application/recursive_crawl.py.
pub mod Acquired
pub mod Conduct
use tarkka.Prelude.{
  ℕ, Bool, true, false, Option, none, some, List, [], ◌∷◌, ◌++◌, if◌then◌else◌, Float, finite,
  Result, ok, err, value_error, Text,
}
use tarkka.Acquisition.Policy.{ResourceAcquisitionPolicy}
use tarkka.Traversal.Target.{TraversalTarget}
use tarkka.Traversal.Checkpoint.{TraversalCheckpoint}
use tarkka.Traversal.Frontier.{Environment}
use tarkka.Robots.Cache.{RobotsCacheEntry}
use tarkka.Crawl.Rights.{RightsAccessDecision}
use tarkka.Crawl.Gate.{queued_target, evaluate, evaluate_refreshed_entry}
use tarkka.Crawl.Gate.Results.{ready, robots_refresh_required}
use tarkka.Crawl.Gate.Results.{Ports, RecursiveCrawlGateStatus, RecursiveCrawlGateResult}

-- What the coordinator reads of a RobotsRefreshResult.
pub record RobotsRefreshResult : Type 0 where
  pub checkpoint : TraversalCheckpoint
  pub entry : RobotsCacheEntry

-- A call that the coordinator makes of the network, with its arguments in the order of the protocols
-- RobotsRefresher and RecursiveTargetAcquirer.
pub data Request : Type 0 where
  refresh_robots :
      TraversalCheckpoint → ResourceAcquisitionPolicy → Text → ℕ → ℕ → Option Float → Request
  acquire_target :
      TraversalCheckpoint → ℕ → ResourceAcquisitionPolicy → Option Text → Option Float → Request

-- The network answers each call by the calls that were made before it, in their order. Of an
-- acquisition its checkpoint is read.
pub record Network : Type 0 where
  pub refresh :
      List Request
      → TraversalCheckpoint
      → ResourceAcquisitionPolicy
      → Text
      → ℕ
      → ℕ
      → Option Float
      → Result RobotsRefreshResult
  pub acquire :
      List Request
      → TraversalCheckpoint
      → ℕ
      → ResourceAcquisitionPolicy
      → Option Text
      → Option Float
      → Result TraversalCheckpoint

-- What is returned or raised, with all calls of the network that were made until then.
abbrev pub Logged : Type 0 → Type 0
Logged A = Result A × List Request

-- An error ends the work, and the calls made so far stay made.
abbrev pub after : {A B : Type 0} → List Request → Result A → (A → Logged B) → Logged B
after log (ok a) next = next a
after log (err e) next = (err e, log)

pub record RecursiveCrawlResult : Type 0 where
  pub gate : RecursiveCrawlGateResult
  pub acquisition : Option TraversalCheckpoint
  pub robots_refresh : Option RobotsRefreshResult

-- RecursiveCrawlResult.checkpoint
unfoldable pub newest_checkpoint : RecursiveCrawlResult → TraversalCheckpoint
newest_checkpoint r = elim r.acquisition [ none ↦ r.gate.checkpoint | some acquired ↦ acquired ]

-- cast(T, value), of a value that the gate result has for its status
abbrev pub expected {ℓ} : {A : Type ℓ} → Option A → Result A
expected none = err (value_error "missing")
expected (some value) = ok value

abbrev pub is_refresh : RecursiveCrawlGateStatus → Bool
is_refresh robots_refresh_required = true
is_refresh _ = false

abbrev pub is_ready : RecursiveCrawlGateStatus → Bool
is_ready ready = true
is_ready _ = false

module _ (env : Environment) (ports : Ports) (net : Network) (policy : ResourceAcquisitionPolicy)
    (target_id : ℕ) (product_token : Text) (rights : RightsAccessDecision) (now : ℕ)
    (request_uri : Option Text) where
  -- The end of `acquire`, with the gate result that counts and the pacing that goes with it.
  unfoldable pub acquire_ready :
      List Request
      → RecursiveCrawlGateResult
      → Option RobotsRefreshResult
      → Option Float
      → Logged RecursiveCrawlResult
  acquire_ready log gate refreshed interval =
      if is_ready gate.status
      then (after log (expected gate.effective_policy) λ effective.
          let sent =
            log
            ++ Request.acquire_target gate.checkpoint target_id effective request_uri interval
              ∷ [] in
          after sent (net.acquire log gate.checkpoint target_id effective request_uri interval)
            λ acquired. (
              ok (record { gate = gate; acquisition = some acquired; robots_refresh = refreshed }),
              sent,
            ))
      else (ok (record { gate = gate; acquisition = none; robots_refresh = refreshed }), log)

  -- A refresh has just used the network, so that the pacing starts at zero.
  unfoldable pub acquire_refreshed :
      RecursiveCrawlGateResult → Option Float → Logged RecursiveCrawlResult
  acquire_refreshed gate since = after [] (queued_target gate.checkpoint target_id) λ t.
      after [] (expected gate.robots_uri) λ robots_uri.
        let sent =
          Request.refresh_robots gate.checkpoint policy robots_uri t.depth now since ∷ [] in
        after sent (net.refresh [] gate.checkpoint policy robots_uri t.depth now since) λ refreshed.
          after sent
            (evaluate_refreshed_entry env ports refreshed.checkpoint policy (some (finite 0))
              target_id product_token rights refreshed.entry)
            λ again. acquire_ready sent again.0 (some refreshed) (some (finite 0))

  -- RecursiveCrawlCoordinator.acquire; what the gate saved is in the two evaluations
  unfoldable pub acquire : TraversalCheckpoint → Option Float → Logged RecursiveCrawlResult
  acquire c since =
      after [] (evaluate env ports c policy since target_id product_token rights now) λ first.
        if is_refresh first.0.status
        then acquire_refreshed first.0 since
        else acquire_ready [] first.0 none since
