-- ===== src/Traversal/Transitions/Replaced.antt =====
-- The end that the methods of TraversalCheckpoint share: one target and the budget are replaced.
use tarkka.Prelude.{nat_eq, ℕ, ◌≡◌, ap, ◌∙◌, map, ok, ◌>>=◌, >>=-eq-ok, on_ok}
use tarkka.Acquisition.Policy.{ResourceAcquisitionPolicy}
use tarkka.Acquisition.Budget.{AcquisitionBudgetState}
use tarkka.Traversal.Target
use tarkka.Traversal.Target.{
  is_sha256, TraversalTarget, TraversalStatus, queued, in_progress, finalizing, completed, failed,
  skipped, is_queued, is_in_progress, is_finalizing, is_failed,
}
use tarkka.Traversal.Target.Validity.{IsKept, post_init-IsKept}
use tarkka.Traversal.Checkpoint.{TraversalCheckpoint, require_target, swap_in, replace_target}
use tarkka.Traversal.Checkpoint.Validity.{
  IsWellFormed, post_init-eq, IsWellFormed-of_ok, require_target-eq, replace_target-eq,
  replace_target-IsWellFormed,
}
use tarkka.Traversal.Frontier.{Environment}
use tarkka.Traversal.Transitions.{with_budget}
use tarkka.Traversal.Lifecycle.{IsMove, IsMoved, Guard, Report, notes_of, IsTimed}

-- The end that the methods share: build the target, put it in its place, set the budget.
pub record IsReplaced (env : Environment) (c : TraversalCheckpoint) (t : TraversalTarget)
    (b : AcquisitionBudgetState) (c' : TraversalCheckpoint) : Type 0 where
  pub new : TraversalTarget
  pub kept : IsKept env.uris t new
  pub well_formed : IsWellFormed c'
  pub result : c' ≡ record {
    checkpoint_id = c.checkpoint_id;
    targets = map (swap_in new) c.targets;
    budget = b;
  }

module _ (env : Environment) (c : TraversalCheckpoint) (t : TraversalTarget)
    (b : AcquisitionBudgetState) (c' : TraversalCheckpoint) where
  pub update-IsReplaced :
      (Target.post_init env.uris t >>= λ u. replace_target c u >>= λ c₁. with_budget c₁ b) ≡ ok c'
      → IsReplaced env c t b c'
  unfolding with_budget
  update-IsReplaced h =
      let (u, built, h₁) = >>=-eq-ok (Target.post_init env.uris t) _ h in
      let (c₁, put, h₂) = >>=-eq-ok (replace_target c u) _ h₁ in
      record {
        new = u;
        kept = post_init-IsKept env.uris t u built;
        well_formed = IsWellFormed-of_ok (record c₁ { budget = b }) c' h₂;
        result = post_init-eq (record c₁ { budget = b }) c' h₂ ∙ rw (replace_target-eq c u c₁ put);
      }

-- `replace` without a change of the budget.
module _ (env : Environment) (c : TraversalCheckpoint) (t : TraversalTarget)
    (c' : TraversalCheckpoint) where
  pub put-IsReplaced :
      (Target.post_init env.uris t >>= λ u. replace_target c u) ≡ ok c'
      → IsReplaced env c t c.budget c'
  put-IsReplaced h = on_ok (Target.post_init env.uris t) _ h λ u built put. record {
    new = u;
    kept = post_init-IsKept env.uris t u built;
    well_formed = replace_target-IsWellFormed c u c' put;
    result = replace_target-eq c u c' put;
  }

module _ (env : Environment) (p : ResourceAcquisitionPolicy) (c : TraversalCheckpoint) (id : ℕ)
    (t changed : TraversalTarget) (b : AcquisitionBudgetState) (c' : TraversalCheckpoint) where
  pub moved :
      (report : Report)
      → require_target c id ≡ ok t
      → Guard p report.kind t c.budget
      → IsMove report.kind report.bytes t changed c.budget b
      → notes_of changed ≡ report.note (notes_of t)
      → IsTimed report.time c.budget.elapsed_seconds b.elapsed_seconds
      → IsReplaced env c changed b c'
      → IsMoved p c id report c'
  moved report found guarded m noted timed r = record {
    old = t;
    new = r.new;
    found = require_target-eq c id t found;
    move = rw r.result (record {
      before = m.before;
      after = r.kept.status ∙ m.after;
      same_id = r.kept.target_id ∙ m.same_id;
      same_depth = r.kept.depth ∙ m.same_depth;
      attempts = r.kept.attempts ∙ m.attempts;
      target_bytes = r.kept.bytes_acquired ∙ m.target_bytes;
      carried = m.carried;
      requests = m.requests;
      budget_bytes = m.budget_bytes;
      clock = m.clock;
    });
    noted = rw (r.kept.last_error, r.kept.final_artifact_sha256, r.kept.final_observation_id) noted;
    timed = rw r.result timed;
    guarded = guarded;
    well_formed = r.well_formed;
    same_checkpoint = ap (λ (d : TraversalCheckpoint). d.checkpoint_id) r.result;
    targets = ap (λ (d : TraversalCheckpoint). d.targets) r.result;
  }
