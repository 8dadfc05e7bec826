-- ===== src/Traversal/Lifecycle.antt =====
-- The life of a traversal target, as a table: what each method of TraversalCheckpoint in
-- domain/traversal.py that moves one target does to its status, to its counters and to the budget.
-- This is the specification that the methods of `Transitions` are held to.
pub mod Reports
use tarkka.Prelude.{ℕ, ◌+◌, ◌-◌, ◌≤◌, ◌<◌, ◌≡◌, Option, none, some, map, Text, Float, ok}
use tarkka.Traversal.Frontier.{require_monotonic_elapsed}
use tarkka.Acquisition.Policy.{ResourceAcquisitionPolicy}
use tarkka.Acquisition.Budget.{AcquisitionBudgetState}
use tarkka.Traversal.Target.{
  TraversalTarget, TraversalStatus, queued, in_progress, finalizing, completed, failed, skipped,
}
use tarkka.Traversal.Checkpoint.{TraversalCheckpoint, target, swap_in}
use tarkka.Traversal.Checkpoint.Validity.{IsWellFormed}

pub data Kind : Type 0 where
  start follow receive finalize commit complete fail requeue skip : Kind

abbrev pub source : Kind → TraversalStatus
source start = queued
source skip = queued
source commit = finalizing
source requeue = failed
source _ = in_progress

abbrev pub destination : Kind → TraversalStatus
destination start = in_progress
destination follow = in_progress
destination receive = in_progress
destination finalize = finalizing
destination commit = completed
destination complete = completed
destination fail = failed
destination requeue = queued
destination skip = skipped

abbrev pub attempts_of : Kind → ℕ
attempts_of start = 1
attempts_of _ = 0

abbrev pub requests_of : Kind → ℕ
requests_of start = 1
requests_of follow = 1
requests_of _ = 0

-- The kinds of move that may report bytes of a response.
abbrev pub MayCarry : Kind → ℕ → Type 0
MayCarry receive bytes = Unit
MayCarry complete bytes = Unit
MayCarry fail bytes = Unit
MayCarry _ bytes = bytes ≡ 0

-- What the policy asks before a move.
abbrev pub Guard :
    ResourceAcquisitionPolicy → Kind → TraversalTarget → AcquisitionBudgetState → Type 0
Guard p start t b =
    (t.depth ≤ p.max_depth) × (b.requests_used + 1 ≤ p.max_requests) × (b.bytes_used ≤ p.max_bytes)
Guard p follow t b =
    (t.depth ≤ p.max_depth) × (b.requests_used + 1 ≤ p.max_requests) × (b.bytes_used ≤ p.max_bytes)
Guard p requeue t b = t.attempts - 1 < p.max_retries
Guard p _ t b = Unit

-- One row of the table, for the target and the budget before and after.
pub record IsMove (kind : Kind) (bytes : ℕ) (t t' : TraversalTarget) (b b' : AcquisitionBudgetState)
    : Type 0 where
  pub before : t.status ≡ source kind
  pub after : t'.status ≡ destination kind
  pub same_id : t'.target_id ≡ t.target_id
  pub same_depth : t'.depth ≡ t.depth
  pub attempts : t'.attempts ≡ t.attempts + attempts_of kind
  pub target_bytes : t'.bytes_acquired ≡ t.bytes_acquired + bytes
  pub carried : MayCarry kind bytes
  pub requests : b'.requests_used ≡ b.requests_used + requests_of kind
  pub budget_bytes : b'.bytes_used ≡ b.bytes_used + bytes
  pub clock : b.elapsed_seconds ≤ b'.elapsed_seconds

-- What a target says of its failure and of its output.
pub record Notes : Type 0 where
  pub last_error : Option Text
  pub sha256 : Option Text
  pub observation_id : Option ℕ

abbrev pub notes_of : TraversalTarget → Notes
notes_of t = record {
  last_error = t.last_error;
  sha256 = t.final_artifact_sha256;
  observation_id = t.final_observation_id;
}

-- What a call asks for: the row of the table, the bytes of a response, what becomes of the notes of
-- the target and, where the call reports one, the time.
pub record Report : Type 0 where
  pub kind : Kind
  pub bytes : ℕ
  pub note : Notes → Notes
  pub time : Option Float

-- The elapsed time moves on only where a call reports it.
abbrev pub IsTimed : Option Float → ℕ → ℕ → Type 0
IsTimed none before after = after ≡ before
IsTimed (some time) before after = require_monotonic_elapsed time before ≡ ok after

-- A checkpoint after a reported move of the target `id`: no other target changes.
pub record IsMoved (p : ResourceAcquisitionPolicy) (c : TraversalCheckpoint) (id : ℕ)
    (report : Report) (c' : TraversalCheckpoint) : Type 0 where
  pub old : TraversalTarget
  pub new : TraversalTarget
  pub found : target c id ≡ some old
  pub move : IsMove report.kind report.bytes old new c.budget c'.budget
  pub noted : notes_of new ≡ report.note (notes_of old)
  pub timed : IsTimed report.time c.budget.elapsed_seconds c'.budget.elapsed_seconds
  pub guarded : Guard p report.kind old c.budget
  pub well_formed : IsWellFormed c'
  pub same_checkpoint : c'.checkpoint_id ≡ c.checkpoint_id
  pub targets : c'.targets ≡ map (swap_in new) c.targets
