-- ===== src/Traversal/Transitions/Moves.antt =====
-- Each method that moves one target follows its row of the lifecycle table.
use tarkka.Prelude.{
  NoDup, nat_eq, ℕ, ◌+◌, ◌-◌, ◌≤◌, ◌<◌, ◌≡◌, refl, sym, strip, String, ap, ◌∙◌, true, Option, some,
  map, arith, ℤ, pos, negsuc, Float, Bool-cases, inl, inr, require_non_negative_int, ok, on_ok,
  on_require, Text,
}
use tarkka.Acquisition.Policy.{ResourceAcquisitionPolicy, allows_uri, allows_retry}
use tarkka.Acquisition.Budget.{AcquisitionBudgetState, allows_request, checked_seconds}
use tarkka.Acquisition.Budget.Admission.{admits_iff}
use tarkka.Traversal.Checkpoint.Swap.{swap_in_self, find_id, find_id-eq}
use tarkka.Traversal.Target.{
  is_sha256, TraversalTarget, is_queued, is_in_progress, is_finalizing, is_failed,
}
use tarkka.Traversal.Checkpoint.{TraversalCheckpoint, target, target_ids, require_target, swap_in}
use tarkka.Traversal.Checkpoint.Validity.{post_init-eq, IsWellFormed-of_ok, require_target-eq}
use tarkka.Traversal.Frontier.{
  Environment, charge_request, require_monotonic_elapsed, require_reason,
}
use tarkka.Traversal.Transitions.{
  with_budget, is_eligible, start, fail, record_followup_request, record_response_bytes,
  begin_finalization, complete_finalization, complete, requeue_failed, skip,
}
use tarkka.Traversal.Lifecycle.{IsMoved, Guard, Kind}
use tarkka.Traversal.Lifecycle.Reports
use tarkka.Traversal.Transitions.Replaced.{update-IsReplaced, put-IsReplaced, moved}

allows_request-Guard :
    (b : AcquisitionBudgetState) (p : ResourceAcquisitionPolicy) (depth : ℕ) (expected : ℤ)
    (since : Option Float)
    → allows_request b p (pos depth) expected since ≡ ok true
    → (depth ≤ p.max_depth) × (b.requests_used + 1 ≤ p.max_requests) × (b.bytes_used ≤ p.max_bytes)
unfolding allows_request
allows_request-Guard b p depth (pos expected) since h =
    on_ok (checked_seconds since) _ h λ seconds e h₁.
      let within = (admits_iff b p depth expected seconds).0 (ground arith) in
      (within.depth_bound, within.request_left, omega (arith, within.bytes_left))
allows_request-Guard b p depth (negsuc n) since h = cc

require_monotonic_elapsed-le :
    (value : Float) (previous elapsed : ℕ)
    → require_monotonic_elapsed value previous ≡ ok elapsed
    → previous ≤ elapsed
unfolding require_monotonic_elapsed
require_monotonic_elapsed-le value previous elapsed h = ground arith

require_non_negative_int-eq :
    (value : ℤ) (n : ℕ) (message : String)
    → require_non_negative_int value message ≡ ok n
    → value ≡ pos n
require_non_negative_int-eq value n message h = ground arith

require_reason-eq :
    (text reason : Text) (message : String)
    → require_reason text message ≡ ok reason
    → reason ≡ strip text
unfolding require_reason
require_reason-eq text reason message h = ground arith

kept_in_place :
    (c : TraversalCheckpoint) (id : ℕ) (t : TraversalTarget)
    → target c id ≡ some t
    → NoDup (target_ids c.targets)
    → map (swap_in t) c.targets ≡ c.targets
unfolding target
kept_in_place c id t e once =
    swap_in_self t c.targets (ap (λ (i : ℕ). find_id i c.targets) (find_id-eq id c.targets t e) ∙ e)
      once

module _ (env : Environment) (p : ResourceAcquisitionPolicy) (c : TraversalCheckpoint) (id : ℕ)
    (c' : TraversalCheckpoint) where
  is_eligible-Guard :
      (t : TraversalTarget) (since : Option Float)
      → is_eligible env c id p t since ≡ ok true
      → Guard p Kind.start t c.budget
  unfolding is_eligible
  is_eligible-Guard t since h = elim (Bool-cases (allows_uri env.library p t.uri)) [
    | inl allowed ↦ allows_request-Guard c.budget p t.depth (pos 0) since (rw allowed at h)
    | inr denied ↦ let h' = rw denied at h in ground arith
  ]

  pub start-IsMoved :
      (since : Option Float) → start env c id p since ≡ ok c' → IsMoved p c id Reports.start c'
  unfolding start
  start-IsMoved since h = on_ok (require_target c id) _ h λ t found h₁.
      on_require (is_queued t.status) _ _ h₁ λ status h₂.
        on_ok (is_eligible env c id p t since) _ h₂ λ eligible e h₃.
          on_require eligible _ _ h₃ λ granted h₄.
            moved env p c id t _ _ c' Reports.start found
              (is_eligible-Guard t since (rw granted at e)) (ground arith) refl refl
              (update-IsReplaced env c _ _ c' h₄)

  pub start-admitted :
      (since : Option Float)
      → start env c id p since ≡ ok c'
      → (t : TraversalTarget) × (target c id ≡ some t) × (is_eligible env c id p t since ≡ ok true)
  unfolding start
  start-admitted since h = on_ok (require_target c id) _ h λ t found h₁.
      on_require (is_queued t.status) _ _ h₁ λ status h₂.
        on_ok (is_eligible env c id p t since) _ h₂ λ eligible e h₃.
          on_require eligible _ _ h₃
            λ granted h₄. (t, require_target-eq c id t found, e ∙ ap ok granted)

  pub record_followup_request-admitted :
      (expected : ℤ) (since : Option Float)
      → record_followup_request env c id p expected since ≡ ok c'
      → (t : TraversalTarget) × (target c id ≡ some t)
        × (allows_request c.budget p (pos t.depth) expected since ≡ ok true)
  unfolding record_followup_request
  record_followup_request-admitted expected since h = on_ok (require_target c id) _ h λ t found h₁.
      on_require (is_in_progress t.status) _ _ h₁ λ status h₂.
        on_ok (allows_request c.budget p (pos t.depth) expected since) _ h₂ λ allowed e h₃.
          on_require allowed _ _ h₃
            λ granted h₄. (t, require_target-eq c id t found, e ∙ ap ok granted)

  pub fail-IsMoved :
      (error : Text) (elapsed : Float) (bytes : ℤ)
      → fail env c id error elapsed bytes ≡ ok c'
      → (n : ℕ) × (bytes ≡ pos n) × IsMoved p c id (Reports.fail error elapsed n) c'
  unfolding fail
  fail-IsMoved error elapsed bytes h = on_ok (require_target c id) _ h λ t found h₁.
      on_require (is_in_progress t.status) _ _ h₁ λ status h₂.
        on_ok (require_reason error _) _ h₂ λ reason named h₃.
          on_ok (require_non_negative_int bytes _) _ h₃ λ n given h₄.
            on_ok (require_monotonic_elapsed elapsed _) _ h₄ λ time monotonic h₅. (
              n,
              require_non_negative_int-eq bytes n _ given,
              moved env p c id t _ _ c' (Reports.fail error elapsed n) found tt
                  (ground (arith, require_monotonic_elapsed-le elapsed _ time monotonic))
                  (rw (require_reason-eq error reason _ named) refl) monotonic
                  (update-IsReplaced env c _ _ c' h₅),
            )

  pub record_followup_request-IsMoved :
      (expected : ℤ) (since : Option Float)
      → record_followup_request env c id p expected since ≡ ok c'
      → IsMoved p c id Reports.follow c'
  unfolding record_followup_request with_budget
  record_followup_request-IsMoved expected since h = on_ok (require_target c id) _ h λ t found h₁.
      on_require (is_in_progress t.status) _ _ h₁ λ status h₂.
        on_ok (allows_request c.budget p (pos t.depth) expected since) _ h₂ λ allowed e h₃.
          on_require allowed _ _ h₃ λ granted h₄.
            let charged = record c { budget = charge_request c.budget } in
            let result = post_init-eq charged c' h₄ in
            let once = rw result at (IsWellFormed-of_ok charged c' h₄) in
            let at_id = require_target-eq c id t found in
            record {
              old = t;
              new = t;
              found = at_id;
              move = rw result (ground arith);
              noted = refl;
              timed = rw result refl;
              well_formed = IsWellFormed-of_ok charged c' h₄;
              guarded = allows_request-Guard c.budget p t.depth expected since (rw granted at e);
              same_checkpoint = ap (λ (d : TraversalCheckpoint). d.checkpoint_id) result;
              targets =
                  ap (λ (d : TraversalCheckpoint). d.targets) result
                  ∙ sym (kept_in_place c id t at_id once.ids_once);
            }

  pub record_response_bytes-IsMoved :
      (bytes : ℤ)
      → record_response_bytes env c id bytes ≡ ok c'
      → (n : ℕ) × (bytes ≡ pos n) × IsMoved p c id (Reports.receive n) c'
  unfolding record_response_bytes
  record_response_bytes-IsMoved bytes h = on_ok (require_target c id) _ h λ t found h₁.
      on_require (is_in_progress t.status) _ _ h₁ λ status h₂.
        on_ok (require_non_negative_int bytes _) _ h₂ λ n given h₃. (
          n,
          require_non_negative_int-eq bytes n _ given,
          moved env p c id t _ _ c' (Reports.receive n) found tt (ground arith) refl refl
              (update-IsReplaced env c _ _ c' h₃),
        )

  pub begin_finalization-IsMoved :
      (sha256 : Text) (observation : ℕ) (elapsed : Float)
      → begin_finalization env c id sha256 observation elapsed ≡ ok c'
      → IsMoved p c id (Reports.finalize sha256 observation elapsed) c'
  unfolding begin_finalization
  begin_finalization-IsMoved sha256 observation elapsed h =
      on_ok (require_target c id) _ h λ t found h₁.
        on_require (is_in_progress t.status) _ _ h₁ λ status h₂.
          on_require (is_sha256 sha256) _ _ h₂ λ _ h₃.
            on_ok (require_monotonic_elapsed elapsed _) _ h₃ λ time monotonic h₄.
              moved env p c id t _ _ c' (Reports.finalize sha256 observation elapsed) found tt
                (ground (arith, require_monotonic_elapsed-le elapsed _ time monotonic)) refl
                monotonic (update-IsReplaced env c _ _ c' h₄)

  pub complete_finalization-IsMoved :
      (elapsed : Float)
      → complete_finalization env c id elapsed ≡ ok c'
      → IsMoved p c id (Reports.commit elapsed) c'
  unfolding complete_finalization
  complete_finalization-IsMoved elapsed h = on_ok (require_target c id) _ h λ t found h₁.
      on_require (is_finalizing t.status) _ _ h₁ λ status h₂.
        on_ok (require_monotonic_elapsed elapsed _) _ h₂ λ time monotonic h₃.
          moved env p c id t _ _ c' (Reports.commit elapsed) found tt
            (ground (arith, require_monotonic_elapsed-le elapsed _ time monotonic)) refl monotonic
            (update-IsReplaced env c _ _ c' h₃)

  pub complete-IsMoved :
      (bytes : ℤ) (elapsed : Float)
      → complete env c id bytes elapsed ≡ ok c'
      → (n : ℕ) × (bytes ≡ pos n) × IsMoved p c id (Reports.complete n elapsed) c'
  unfolding complete
  complete-IsMoved bytes elapsed h = on_ok (require_target c id) _ h λ t found h₁.
      on_require (is_in_progress t.status) _ _ h₁ λ status h₂.
        on_ok (require_non_negative_int bytes _) _ h₂ λ n given h₃.
          on_ok (require_monotonic_elapsed elapsed _) _ h₃ λ time monotonic h₄. (
            n,
            require_non_negative_int-eq bytes n _ given,
            moved env p c id t _ _ c' (Reports.complete n elapsed) found tt
                (ground (arith, require_monotonic_elapsed-le elapsed _ time monotonic)) refl
                monotonic (update-IsReplaced env c _ _ c' h₄),
          )

  allows_retry-lt : (used : ℕ) → allows_retry p (pos used) ≡ ok true → used < p.max_retries
  unfolding allows_retry
  allows_retry-lt used h = ground arith

  pub requeue_failed-IsMoved : requeue_failed env c id p ≡ ok c' → IsMoved p c id Reports.requeue c'
  unfolding requeue_failed
  requeue_failed-IsMoved h = on_ok (require_target c id) _ h λ t found h₁.
      on_require (is_failed t.status) _ _ h₁ λ status h₂.
        on_ok (allows_retry p (pos (t.attempts - 1))) _ h₂ λ allowed e h₃.
          on_require allowed _ _ h₃ λ granted h₄.
            moved env p c id t _ _ c' Reports.requeue found
              (allows_retry-lt (t.attempts - 1) (rw granted at e)) (ground arith) refl refl
              (put-IsReplaced env c _ c' h₄)

  pub skip-IsMoved :
      (reason : Text) → skip env c id reason ≡ ok c' → IsMoved p c id (Reports.skip reason) c'
  unfolding skip
  skip-IsMoved reason h = on_ok (require_target c id) _ h λ t found h₁.
      on_require (is_queued t.status) _ _ h₁ λ status h₂.
        on_ok (require_reason reason _) _ h₂ λ normalized named h₃.
          moved env p c id t _ _ c' (Reports.skip reason) found tt (ground arith)
            (rw (require_reason-eq reason normalized _ named) refl) refl
            (put-IsReplaced env c _ c' h₃)
