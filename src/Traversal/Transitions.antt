-- ===== src/Traversal/Transitions.antt =====
-- The methods of TraversalCheckpoint in domain/traversal.py that move one target through its
-- statuses and charge the budget.
pub mod Moves
pub mod Progress
pub mod Replaced
use tarkka.Prelude.{
  ℕ, ◌+◌, ◌-◌, Bool, false, Option, none, some, List, [], ◌∷◌, if◌then◌else◌, ℤ, pos, Float,
  require_non_negative_int, Result, ok, ◌>>=◌, ◌>>◌, require, Text,
}
use tarkka.Acquisition.Policy.{ResourceAcquisitionPolicy, allows_uri, allows_retry}
use tarkka.Acquisition.Budget.{AcquisitionBudgetState, allows_request}
use tarkka.Traversal.Target
use tarkka.Traversal.Target.{
  TraversalTarget, TraversalStatus, queued, in_progress, finalizing, completed, failed, skipped,
  is_queued, is_in_progress, is_finalizing, is_failed, is_sha256,
}
use tarkka.Traversal.Checkpoint
use tarkka.Traversal.Checkpoint.{TraversalCheckpoint, require_target, replace_target}
use tarkka.Traversal.Frontier.{
  Environment, require_reason, require_monotonic_elapsed, charge_request,
}

-- replace(c, budget=budget)
unfoldable pub with_budget :
    TraversalCheckpoint → AcquisitionBudgetState → Result TraversalCheckpoint
with_budget c budget = Checkpoint.post_init (record c { budget = budget })

module _ (env : Environment) (c : TraversalCheckpoint) (target_id : ℕ) where
  abbrev replaced : TraversalTarget → Result TraversalTarget
  replaced = Target.post_init env.uris

  -- `and` asks the budget only if the URI is allowed
  unfoldable pub is_eligible :
      ResourceAcquisitionPolicy → TraversalTarget → Option Float → Result Bool
  is_eligible p t since =
      if allows_uri env.library p t.uri
      then allows_request c.budget p (pos t.depth) (pos 0) since
      else ok false

  -- TraversalCheckpoint.start
  unfoldable pub start : ResourceAcquisitionPolicy → Option Float → Result TraversalCheckpoint
  start policy seconds_since_last_request = do
    t ← require_target c target_id
    require (is_queued t.status) "only queued traversal targets may be started"
    eligible ← is_eligible policy t seconds_since_last_request
    require eligible "traversal target is not eligible under the acquisition policy"
    updated ← replaced (record t {
      status = in_progress;
      attempts = t.attempts + 1;
      last_error = none;
      final_artifact_sha256 = none;
      final_observation_id = none;
    })
    c' ← replace_target c updated
    with_budget c' (charge_request c.budget)

  -- TraversalCheckpoint.record_followup_request
  unfoldable pub record_followup_request :
      ResourceAcquisitionPolicy → ℤ → Option Float → Result TraversalCheckpoint
  record_followup_request policy expected_bytes seconds_since_last_request = do
    t ← require_target c target_id
    require (is_in_progress t.status) "follow-up requests require an in-progress traversal target"
    allowed ← allows_request c.budget policy (pos t.depth) expected_bytes seconds_since_last_request
    require allowed "follow-up request exceeds the acquisition budget"
    with_budget c (charge_request c.budget)

  -- TraversalCheckpoint.record_response_bytes
  unfoldable pub record_response_bytes : ℤ → Result TraversalCheckpoint
  record_response_bytes bytes_acquired = do
    t ← require_target c target_id
    require (is_in_progress t.status) "response byte accounting requires an in-progress target"
    bytes ←
        require_non_negative_int bytes_acquired
          "response bytes_acquired must be a non-negative integer"
    updated ← replaced (record t { bytes_acquired = t.bytes_acquired + bytes })
    c' ← replace_target c updated
    with_budget c' (record c.budget { bytes_used = c.budget.bytes_used + bytes })

  -- TraversalCheckpoint.begin_finalization
  unfoldable pub begin_finalization : Text → ℕ → Float → Result TraversalCheckpoint
  begin_finalization artifact_sha256 observation_id elapsed_seconds = do
    t ← require_target c target_id
    require (is_in_progress t.status) "only in-progress traversal targets may begin finalization"
    require (is_sha256 artifact_sha256)
        "traversal artifact SHA-256 must be a 64-character hexadecimal string"
    elapsed ← require_monotonic_elapsed elapsed_seconds c.budget.elapsed_seconds
    updated ← replaced (record t {
      status = finalizing;
      final_artifact_sha256 = some artifact_sha256;
      final_observation_id = some observation_id;
    })
    c' ← replace_target c updated
    with_budget c' (record c.budget { elapsed_seconds = elapsed })

  -- TraversalCheckpoint.complete_finalization
  unfoldable pub complete_finalization : Float → Result TraversalCheckpoint
  complete_finalization elapsed_seconds = do
    t ← require_target c target_id
    require (is_finalizing t.status) "only finalizing traversal targets may be completed"
    elapsed ← require_monotonic_elapsed elapsed_seconds c.budget.elapsed_seconds
    updated ← replaced (record t { status = completed })
    c' ← replace_target c updated
    with_budget c' (record c.budget { elapsed_seconds = elapsed })

  -- TraversalCheckpoint.complete
  unfoldable pub complete : ℤ → Float → Result TraversalCheckpoint
  complete bytes_acquired elapsed_seconds = do
    t ← require_target c target_id
    require (is_in_progress t.status) "only in-progress traversal targets may be completed"
    bytes ←
        require_non_negative_int bytes_acquired
          "completed bytes_acquired must be a non-negative integer"
    elapsed ← require_monotonic_elapsed elapsed_seconds c.budget.elapsed_seconds
    updated ← replaced (record t {
      status = completed;
      bytes_acquired = t.bytes_acquired + bytes;
      last_error = none;
    })
    c' ← replace_target c updated
    with_budget c'
        (record c.budget { bytes_used = c.budget.bytes_used + bytes; elapsed_seconds = elapsed })

  -- TraversalCheckpoint.fail
  unfoldable pub fail : Text → Float → ℤ → Result TraversalCheckpoint
  fail error elapsed_seconds bytes_acquired = do
    t ← require_target c target_id
    require (is_in_progress t.status) "only in-progress traversal targets may fail"
    reason ← require_reason error "traversal failure error must be a non-blank string"
    bytes ←
        require_non_negative_int bytes_acquired
          "failed bytes_acquired must be a non-negative integer"
    elapsed ← require_monotonic_elapsed elapsed_seconds c.budget.elapsed_seconds
    updated ← replaced (record t {
      status = failed;
      bytes_acquired = t.bytes_acquired + bytes;
      last_error = some reason;
    })
    c' ← replace_target c updated
    with_budget c'
        (record c.budget { bytes_used = c.budget.bytes_used + bytes; elapsed_seconds = elapsed })

  -- TraversalCheckpoint.requeue_failed
  unfoldable pub requeue_failed : ResourceAcquisitionPolicy → Result TraversalCheckpoint
  requeue_failed policy = do
    t ← require_target c target_id
    require (is_failed t.status) "only failed traversal targets may be requeued"
    allowed ← allows_retry policy (pos (t.attempts - 1))
    require allowed "traversal retry budget is exhausted"
    updated ← replaced (record t { status = queued; last_error = none })
    replace_target c updated

  -- TraversalCheckpoint.skip
  unfoldable pub skip : Text → Result TraversalCheckpoint
  skip reason = do
    t ← require_target c target_id
    require (is_queued t.status) "only queued traversal targets may be skipped"
    normalized_reason ← require_reason reason "traversal skip reason must be a non-blank string"
    updated ← replaced (record t { status = skipped; last_error = some normalized_reason })
    replace_target c updated

module _ (env : Environment) where
  -- one target of `recover_interrupted`
  unfoldable pub recover_target : Text → TraversalTarget → Result TraversalTarget
  recover_target reason t =
      if is_in_progress t.status
      then Target.post_init env.uris (record t { status = failed; last_error = some reason })
      else ok t

  unfoldable pub recover_each : Text → List TraversalTarget → Result (List TraversalTarget)
  unfolding recover_target
  recover_each reason [] = ok []
  recover_each reason (t ∷ ts) = do
    t' ← recover_target reason t
    ts' ← recover_each reason ts
    ok (t' ∷ ts')

  -- TraversalCheckpoint.recover_interrupted
  unfoldable pub recover_interrupted : TraversalCheckpoint → Text → Result TraversalCheckpoint
  recover_interrupted c reason = do
    normalized_reason ←
        require_reason reason "interrupted traversal reason must be a non-blank string"
    targets ← recover_each normalized_reason c.targets
    Checkpoint.post_init (record c { targets = targets })
