-- ===== src/Traversal/Calls/Steps.antt =====
-- The specification of each call, the steps that the calls make, and runs of them.
use tarkka.Prelude.{
  ℕ, ◌≤◌, ◌≡◌, refl, true, Option, some, List, pos, [], ◌∷◌, arith, Text, Result, ok, err, strip,
}
use tarkka.Acquisition.Policy.{ResourceAcquisitionPolicy}
use tarkka.Traversal.Checkpoint.{TraversalCheckpoint, target}
use tarkka.Traversal.Target.{TraversalTarget}
use tarkka.Acquisition.Budget.{allows_request}
use tarkka.Traversal.Transitions.{is_eligible}
use tarkka.Traversal.Checkpoint.Validity.{IsWellFormed}
use tarkka.Traversal.Frontier.{Environment}
use tarkka.Traversal.Transitions.Moves.{
  start-admitted, record_followup_request-admitted, start-IsMoved, record_followup_request-IsMoved,
  record_response_bytes-IsMoved, begin_finalization-IsMoved, complete_finalization-IsMoved,
  complete-IsMoved, fail-IsMoved, requeue_failed-IsMoved, skip-IsMoved,
}
use tarkka.Traversal.Lifecycle.{IsMoved, Report}
use tarkka.Traversal.Lifecycle.Reports
use tarkka.Traversal.Calls.{
  Call, enqueue, start, record_followup_request, record_response_bytes, begin_finalization,
  complete_finalization, complete, fail, recover_interrupted, requeue_failed, skip, apply, run,
  kept_on_error,
}
use tarkka.Traversal.Calls.Soundness.{IsSound, IsMoved-IsSound}
use tarkka.Traversal.Calls.Enqueueing.{
  Enqueued, IsEnqueued, enriched, added, Enqueued-IsSound, enqueue-IsEnqueued,
}
use tarkka.Traversal.Calls.Recovery.{AllRecovered, recover_interrupted-eq, AllRecovered-IsSound}

-- What one call that returns has done to the checkpoint: its own move of the lifecycle table on its
-- own target, with the bytes, the time and the notes that it was given, an enqueued URI or a recovery.
abbrev pub StepOf :
    Environment
    → ResourceAcquisitionPolicy
    → TraversalCheckpoint
    → TraversalCheckpoint
    → Call
    → Type 0
StepOf env p c c' (enqueue uri depth link parent) = IsEnqueued env c uri depth link parent c'
StepOf env p c c' (start id since) =
    IsMoved p c id Reports.start c'
    × (t : TraversalTarget) × (target c id ≡ some t)
    × (is_eligible env c id p t since ≡ ok true)
StepOf env p c c' (record_followup_request id expected since) =
    IsMoved p c id Reports.follow c'
    × (t : TraversalTarget) × (target c id ≡ some t)
    × (allows_request c.budget p (pos t.depth) expected since ≡ ok true)
StepOf env p c c' (record_response_bytes id bytes) =
    (n : ℕ) × (bytes ≡ pos n) × IsMoved p c id (Reports.receive n) c'
StepOf env p c c' (begin_finalization id sha256 observation elapsed) =
    IsMoved p c id (Reports.finalize sha256 observation elapsed) c'
StepOf env p c c' (complete_finalization id elapsed) = IsMoved p c id (Reports.commit elapsed) c'
StepOf env p c c' (complete id bytes elapsed) =
    (n : ℕ) × (bytes ≡ pos n) × IsMoved p c id (Reports.complete n elapsed) c'
StepOf env p c c' (fail id error elapsed bytes) =
    (n : ℕ) × (bytes ≡ pos n) × IsMoved p c id (Reports.fail error elapsed n) c'
StepOf env p c c' (recover_interrupted reason) =
    IsWellFormed c'
    × AllRecovered (strip reason) c.targets c'.targets
    × (c'.budget ≡ c.budget)
    × (c'.checkpoint_id ≡ c.checkpoint_id)
StepOf env p c c' (requeue_failed id) = IsMoved p c id Reports.requeue c'
StepOf env p c c' (skip id reason) = IsMoved p c id (Reports.skip reason) c'

-- One step of the frontier, whatever the call was.
pub data Step (env : Environment) (p : ResourceAcquisitionPolicy) (c c' : TraversalCheckpoint)
    : Type 0 where
  moves : (id : ℕ) (report : Report) → IsMoved p c id report c' → Step env p c c'
  enqueues :
      (uri : Text) (depth : ℕ) (link parent : Option ℕ)
      → Enqueued env c uri depth link parent c'
      → IsWellFormed c'
      → Step env p c c'
  recovers :
      (reason : Text)
      → AllRecovered reason c.targets c'.targets
      → c'.budget ≡ c.budget
      → IsWellFormed c'
      → Step env p c c'

module _ (env : Environment) (p : ResourceAcquisitionPolicy) (c c' : TraversalCheckpoint) where
  pub Step-IsWellFormed : Step env p c c' → IsWellFormed c'
  Step-IsWellFormed (moves id report m) = m.well_formed
  Step-IsWellFormed (enqueues uri depth link parent e w) = w
  Step-IsWellFormed (recovers reason each b w) = w

  pub forget : (call : Call) → StepOf env p c c' call → Step env p c c'
  forget (enqueue uri depth link parent) r =
      enqueues r.normal r.asked link parent r.outcome r.well_formed
  forget (start id since) m = moves id _ m.0
  forget (record_followup_request id expected since) m = moves id _ m.0
  forget (record_response_bytes id bytes) m = moves id _ m.2
  forget (begin_finalization id sha256 observation elapsed) m = moves id _ m
  forget (complete_finalization id elapsed) m = moves id _ m
  forget (complete id bytes elapsed) m = moves id _ m.2
  forget (fail id error elapsed bytes) m = moves id _ m.2
  forget (recover_interrupted reason) r = recovers (strip reason) r.1 r.2 r.0
  forget (requeue_failed id) m = moves id _ m
  forget (skip id reason) m = moves id _ m

  -- Every call of a method that returns has done what that method is specified to do: its own row of
  -- the lifecycle table under its guard, on the target that it names, with the bytes, the time, the
  -- reason and the output that it was given and the request that it is charged for, where a start
  -- and a further request have passed the policy's tests; an enqueued URI; or a recovery for the
  -- stripped reason.
  pub apply-Step : (call : Call) → apply env p call c ≡ ok c' → StepOf env p c c' call
  unfolding apply
  apply-Step (enqueue uri depth link parent) h = enqueue-IsEnqueued env c uri depth link parent c' h
  apply-Step (start id since) h =
      let admitted = start-admitted env p c id c' since h in
      (start-IsMoved env p c id c' since h, admitted.0, admitted.1, admitted.2)
  apply-Step (record_followup_request id expected since) h =
      let admitted = record_followup_request-admitted env p c id c' expected since h in
      (
        record_followup_request-IsMoved env p c id c' expected since h,
        admitted.0,
        admitted.1,
        admitted.2,
      )
  apply-Step (record_response_bytes id bytes) h =
      record_response_bytes-IsMoved env p c id c' bytes h
  apply-Step (begin_finalization id sha256 observation elapsed) h =
      begin_finalization-IsMoved env p c id c' sha256 observation elapsed h
  apply-Step (complete_finalization id elapsed) h =
      complete_finalization-IsMoved env p c id c' elapsed h
  apply-Step (complete id bytes elapsed) h = complete-IsMoved env p c id c' bytes elapsed h
  apply-Step (fail id error elapsed bytes) h = fail-IsMoved env p c id c' error elapsed bytes h
  apply-Step (recover_interrupted reason) h = recover_interrupted-eq env c reason c' h
  apply-Step (requeue_failed id) h = requeue_failed-IsMoved env p c id c' h
  apply-Step (skip id reason) h = skip-IsMoved env p c id c' reason h

  Step-IsSound : Step env p c c' → IsSound p c → IsSound p c'
  Step-IsSound (moves id report m) s = IsMoved-IsSound p c id report c' m s
  Step-IsSound (enqueues uri depth link parent e w) s =
      Enqueued-IsSound env p c uri depth link parent c' e w s
  Step-IsSound (recovers reason each b w) s = AllRecovered-IsSound p c c' reason each b w s

  -- The elapsed time never moves backwards.
  Step-clock : Step env p c c' → c.budget.elapsed_seconds ≤ c'.budget.elapsed_seconds
  Step-clock (moves id report m) = m.move.clock
  Step-clock (enqueues uri depth link parent (enriched old new f k e) w) = rw e (omega arith)
  Step-clock (enqueues uri depth link parent (added new f k e) w) = rw e (omega arith)
  Step-clock (recovers reason each b w) = rw b (omega arith)

module _ (env : Environment) (p : ResourceAcquisitionPolicy) where
  -- A sound checkpoint stays sound over any calls, whether they return or raise: its bytes are those
  -- of its targets, its requests cover all attempts and stay within the policy, and so do the
  -- attempts of each target, and the depth of each target that was started.
  pub run-IsSound :
      (calls : List Call) (c : TraversalCheckpoint) → IsSound p c → IsSound p (run env p calls c)
  unfolding run
  run-IsSound [] c s = s
  run-IsSound (call ∷ calls) c s = run-IsSound calls _ (next (apply env p call c) refl)
    where
      next :
          (r : Result TraversalCheckpoint) → apply env p call c ≡ r → IsSound p (kept_on_error r c)
      next (ok c') e =
          Step-IsSound env p c c' (forget env p c c' call (apply-Step env p c c' call e)) s
      next (err e) _ = s

  -- Over any calls, whether they return or raise, the elapsed time never moves backwards.
  pub clock-le-run :
      (calls : List Call) (c : TraversalCheckpoint)
      → c.budget.elapsed_seconds ≤ (run env p calls c).budget.elapsed_seconds
  unfolding run
  clock-le-run [] c = omega arith
  clock-le-run (call ∷ calls) c = omega (
    arith,
    next (apply env p call c) refl,
    clock-le-run calls (kept_on_error (apply env p call c) c),
  )
    where
      next :
          (r : Result TraversalCheckpoint)
          → apply env p call c ≡ r
          → c.budget.elapsed_seconds ≤ (kept_on_error r c).budget.elapsed_seconds
      next (ok c') e = Step-clock env p c c' (forget env p c c' call (apply-Step env p c c' call e))
      next (err e) _ = omega arith
