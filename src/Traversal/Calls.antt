-- ===== src/Traversal/Calls.antt =====
-- A call of any method of TraversalCheckpoint in domain/traversal.py that returns a new checkpoint,
-- and a run of several calls, each on the checkpoint that the last one returned. The policy is one
-- and the same for the whole run.
pub mod Soundness
pub mod Recovery
pub mod Enqueueing
pub mod Steps
pub mod Settled
use tarkka.Prelude.{ℕ, List, [], ◌∷◌, Option, ℤ, Float, Text, Result, ok, err}
use tarkka.Acquisition.Policy.{ResourceAcquisitionPolicy}
use tarkka.Traversal.Checkpoint.{TraversalCheckpoint}
use tarkka.Traversal.Frontier
use tarkka.Traversal.Frontier.{Environment}
use tarkka.Traversal.Transitions

pub data Call : Type 0 where
  enqueue : Text → ℤ → Option ℕ → Option ℕ → Call
  start : ℕ → Option Float → Call
  record_followup_request : ℕ → ℤ → Option Float → Call
  record_response_bytes : ℕ → ℤ → Call
  begin_finalization : ℕ → Text → ℕ → Float → Call
  complete_finalization : ℕ → Float → Call
  complete : ℕ → ℤ → Float → Call
  fail : ℕ → Text → Float → ℤ → Call
  recover_interrupted : Text → Call
  requeue_failed : ℕ → Call
  skip : ℕ → Text → Call

-- A call that raises leaves the caller with the checkpoint that it had.
abbrev pub kept_on_error : Result TraversalCheckpoint → TraversalCheckpoint → TraversalCheckpoint
kept_on_error (ok c') c = c'
kept_on_error (err e) c = c

module _ (env : Environment) (p : ResourceAcquisitionPolicy) where
  unfoldable pub apply : Call → TraversalCheckpoint → Result TraversalCheckpoint
  apply (enqueue uri depth link parent) c = Frontier.enqueue env c uri depth link parent
  apply (start id since) c = Transitions.start env c id p since
  apply (record_followup_request id expected since) c =
      Transitions.record_followup_request env c id p expected since
  apply (record_response_bytes id bytes) c = Transitions.record_response_bytes env c id bytes
  apply (begin_finalization id sha256 observation elapsed) c =
      Transitions.begin_finalization env c id sha256 observation elapsed
  apply (complete_finalization id elapsed) c = Transitions.complete_finalization env c id elapsed
  apply (complete id bytes elapsed) c = Transitions.complete env c id bytes elapsed
  apply (fail id error elapsed bytes) c = Transitions.fail env c id error elapsed bytes
  apply (recover_interrupted reason) c = Transitions.recover_interrupted env c reason
  apply (requeue_failed id) c = Transitions.requeue_failed env c id p
  apply (skip id reason) c = Transitions.skip env c id reason

  unfoldable pub run : List Call → TraversalCheckpoint → TraversalCheckpoint
  unfolding apply
  run [] c = c
  run (call ∷ calls) c = run calls (kept_on_error (apply call c) c)
