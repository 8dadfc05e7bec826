-- ===== src/Traversal/Calls/Soundness.antt =====
-- The accounts of a checkpoint: what its budget and counters say under one policy, and that a move
-- of the lifecycle keeps them.
use tarkka.Prelude.{
  ℕ, ◌+◌, ◌≤◌, ◌≡◌, ap, ◌∙◌, subst, some, List, map, arith, sum, All, All-map, find-All, nat_beq,
  Bool-cases, inl, inr,
}
use tarkka.Acquisition.Policy.{ResourceAcquisitionPolicy}
use tarkka.Acquisition.Budget.{AcquisitionBudgetState}
use tarkka.Traversal.Target.{TraversalTarget, TraversalStatus, queued, skipped}
use tarkka.Traversal.Checkpoint.{TraversalCheckpoint, target, swap_in}
use tarkka.Traversal.Checkpoint.Validity.{IsWellFormed}
use tarkka.Traversal.Checkpoint.Swap.{find_id, find_id-eq, sum-swap_in}
use tarkka.Traversal.Lifecycle.{
  Kind, Report, Guard, IsMove, IsMoved, attempts_of, requests_of, source, destination,
}

-- The attempts and the depth that the policy leaves a target in each status.
abbrev pub WithinPolicy : ResourceAcquisitionPolicy → TraversalStatus → ℕ → ℕ → Type 0
WithinPolicy p queued attempts depth = attempts ≤ p.max_retries
WithinPolicy p skipped attempts depth = attempts ≤ p.max_retries
WithinPolicy p _ attempts depth = (attempts ≤ p.max_retries + 1) × (depth ≤ p.max_depth)

abbrev pub TargetWithin : ResourceAcquisitionPolicy → TraversalTarget → Type 0
TargetWithin p t = WithinPolicy p t.status t.attempts t.depth

pub record IsSound (p : ResourceAcquisitionPolicy) (c : TraversalCheckpoint) : Type 0 where
  pub well_formed : IsWellFormed c
  pub bytes : sum (λ t. t.bytes_acquired) c.targets ≡ c.budget.bytes_used
  pub attempts : sum (λ t. t.attempts) c.targets ≤ c.budget.requests_used
  pub requests : c.budget.requests_used ≤ p.max_requests
  pub each : All (TargetWithin p) c.targets

attempts_of-le-requests_of : (kind : Kind) → attempts_of kind ≤ requests_of kind
attempts_of-le-requests_of kind = ground arith

-- Replacing a target keeps what every target has, if the new one has it.
pub All-swap_in :
    (P : TraversalTarget → Type 0) (u : TraversalTarget) (ts : List TraversalTarget)
    → P u
    → All P ts
    → All P (map (swap_in u) ts)
unfolding swap_in
All-swap_in P u ts hu h = All-map P (swap_in u) ts at_each h
  where
    at_each : (t : TraversalTarget) → P t → P (swap_in u t)
    at_each t ht = elim (Bool-cases (nat_beq t.target_id u.target_id)) [
      | inl same ↦ rw same hu
      | inr other ↦ rw other ht
    ]

module _ (p : ResourceAcquisitionPolicy) where
  within_move :
      (kind : Kind) (t : TraversalTarget) (b : AcquisitionBudgetState)
      → Guard p kind t b
      → WithinPolicy p (source kind) t.attempts t.depth
      → WithinPolicy p (destination kind) (t.attempts + attempts_of kind) t.depth
  within_move Kind.start t b g w = ground arith
  within_move Kind.follow t b g w = ground arith
  within_move Kind.receive t b g w = ground arith
  within_move Kind.finalize t b g w = ground arith
  within_move Kind.commit t b g w = ground arith
  within_move Kind.complete t b g w = ground arith
  within_move Kind.fail t b g w = ground arith
  within_move Kind.requeue t b g w = ground arith
  within_move Kind.skip t b g w = ground arith

  requests_move :
      (kind : Kind) (t : TraversalTarget) (b : AcquisitionBudgetState)
      → Guard p kind t b
      → b.requests_used ≤ p.max_requests
      → b.requests_used + requests_of kind ≤ p.max_requests
  requests_move Kind.start t b g h = omega arith
  requests_move Kind.follow t b g h = omega arith
  requests_move kind t b g h = omega arith

  IsMove-TargetWithin :
      {kind : Kind} {bytes : ℕ} {t t' : TraversalTarget} {b b' : AcquisitionBudgetState}
      → IsMove kind bytes t t' b b'
      → Guard p kind t b
      → TargetWithin p t
      → TargetWithin p t'
  IsMove-TargetWithin {kind} {bytes} {t} {t'} {b} {b'} m g w =
      rw (m.after, m.attempts, m.same_depth)
        (within_move kind t b g (subst (λ s. WithinPolicy p s t.attempts t.depth) m.before w))

  module _ (c : TraversalCheckpoint) (id : ℕ) (report : Report) (c' : TraversalCheckpoint)
      (m : IsMoved p c id report c') where
    old_id : m.old.target_id ≡ id
    unfolding target
    old_id = find_id-eq id c.targets m.old m.found

    pub found_by_new : find_id m.new.target_id c.targets ≡ some m.old
    unfolding target
    found_by_new = ap (λ (i : ℕ). find_id i c.targets) (m.move.same_id ∙ old_id) ∙ m.found

    sum-IsMoved :
        (f : TraversalTarget → ℕ)
        → IsWellFormed c
        → sum f c'.targets + f m.old ≡ sum f c.targets + f m.new
    sum-IsMoved f w =
        ap (λ (ts : List TraversalTarget). sum f ts + f m.old) m.targets
        ∙ sum-swap_in m.new f c.targets m.old found_by_new w.ids_once

    -- A move of the lifecycle keeps the accounts.
    pub IsMoved-IsSound : IsSound p c → IsSound p c'
    IsMoved-IsSound s =
        let before = find-All (TargetWithin p) _ c.targets m.old found_by_new s.each in
        record {
          well_formed = m.well_formed;
          bytes = omega (
            arith,
            sum-IsMoved (λ t. t.bytes_acquired) s.well_formed,
            s.bytes,
            m.move.target_bytes,
            m.move.budget_bytes,
          );
          attempts = omega (
            arith,
            sum-IsMoved (λ t. t.attempts) s.well_formed,
            s.attempts,
            m.move.attempts,
            m.move.requests,
            attempts_of-le-requests_of report.kind,
          );
          requests =
              rw m.move.requests (requests_move report.kind m.old c.budget m.guarded s.requests);
          each = rw m.targets (
              All-swap_in (TargetWithin p) m.new c.targets
                (IsMove-TargetWithin m.move m.guarded before.0) s.each);
        }
