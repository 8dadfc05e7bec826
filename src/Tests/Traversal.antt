-- ===== src/Tests/Traversal.antt =====
-- Runs of the frontier, and its theorems at concrete inputs.
use tarkka.Prelude.{
  ℕ, ◌≡◌, refl, ◌↔◌, ◌≤◌, true, none, some, List, [], ◌∷◌, arith, pos, finite, codes, ok, err,
  value_error, strip, unique, all_distinct, is_blank, list_beq,
}
use tarkka.Traversal.Target
use tarkka.Traversal.Target.{TraversalTarget, queued, in_progress, completed, failed, is_sha256}
use tarkka.Traversal.Target.Validity.{IsValid, post_init-IsValid_iff}
use tarkka.Traversal.Checkpoint
use tarkka.Traversal.Checkpoint.{
  TraversalCheckpoint, require_target, replace_target, target, swap_in,
}
use tarkka.Traversal.Checkpoint.Validity.{IsWellFormed, post_init-IsWellFormed_iff}
use tarkka.Traversal.Frontier.{
  enqueue, enqueue_at, enrich, add, append_uuid, target_id_for, require_reason,
  require_monotonic_elapsed, next_eligible,
}
use tarkka.Acquisition.Names.{normalize_domain, matches_domain}
use tarkka.Acquisition.Policy.{allows_uri}
use tarkka.Acquisition.Budget.{allows_request}
use tarkka.Traversal.Transitions.{
  recover_interrupted, recover_each, start, record_response_bytes, complete, skip, with_budget,
  is_eligible,
}
use tarkka.Traversal.Transitions.Progress.{next_eligible-start}
use tarkka.Traversal.Lifecycle.{IsMoved}
use tarkka.Traversal.Lifecycle.Reports
use tarkka.Traversal.Calls.{Call, apply, run}
use tarkka.Traversal.Calls.Soundness.{IsSound}
use tarkka.Traversal.Calls.Recovery.{AllRecovered, recover_interrupted-AllRecovered}
use tarkka.Traversal.Calls.Enqueueing.{IsEnqueued, enqueue-IsEnqueued}
use tarkka.Traversal.Calls.Steps.{apply-Step, run-IsSound, clock-le-run}
use tarkka.Traversal.Calls.Settled.{Holds, run-Holds}
use tarkka.Tests.Samples.{environment, policy, target_in, checkpoint_of}

abbrev empty : TraversalCheckpoint
empty = checkpoint_of [] 0 0

abbrev one_queued : TraversalCheckpoint
one_queued = checkpoint_of (target_in queued 0 0 ∷ []) 0 0

abbrev one_started : TraversalCheckpoint
one_started = checkpoint_of (target_in in_progress 1 0 ∷ []) 1 0

abbrev one_completed : TraversalCheckpoint
one_completed = checkpoint_of (target_in completed 1 40 ∷ []) 1 40

abbrev crawl : List Call
crawl =
    Call.enqueue (codes "http://a") (pos 1) none none
    ∷ Call.start 33 none
    ∷ Call.record_response_bytes 33 (pos 40)
    ∷ Call.complete 33 (pos 2) (finite 9)
    ∷ Call.skip 33 (codes "too late")
    ∷ []

model : Unit {0}
unfolding run apply enqueue enqueue_at enrich add append_uuid target_id_for require_reason
    require_monotonic_elapsed Target.post_init Checkpoint.post_init target require_target
    replace_target swap_in with_budget is_eligible start record_response_bytes complete skip
    recover_interrupted recover_each allows_uri normalize_domain matches_domain allows_request
    unique all_distinct is_blank is_sha256 list_beq
model = tt

crawl_runs :
    (run environment policy crawl empty).budget
    ≡ record { requests_used = 1; bytes_used = 42; elapsed_seconds = 9 }
unfolding model
crawl_runs = refl

start_runs : start environment one_queued 7 policy none ≡ ok one_started
unfolding model
start_runs = refl

enqueue_runs :
    enqueue environment one_queued (codes "http://a") (pos 0) (some 3) none
    ≡ ok (
        checkpoint_of
          (record (target_in queued 0 0) { depth = 0; discovery_link_ids = 3 ∷ [] } ∷ [])
          0
          0)
unfolding model
enqueue_runs = refl

recovery_runs :
    recover_interrupted environment one_started (codes " lost ")
    ≡ ok (
        checkpoint_of (record (target_in failed 1 0) { last_error = some (codes "lost") } ∷ []) 1 0)
unfolding model
recovery_runs = refl

-- The started target is no longer there to be started.
start_twice :
    start environment one_started 7 policy none
    ≡ err (value_error "only queued traversal targets may be started")
unfolding model
start_twice = refl

post_init-IsValid_iff_example :
    (Target.post_init environment.uris (target_in in_progress 1 0) ≡ ok (target_in in_progress 1 0))
    ↔ IsValid environment.uris (target_in in_progress 1 0)
post_init-IsValid_iff_example = post_init-IsValid_iff environment.uris (target_in in_progress 1 0)

post_init-IsWellFormed_iff_example :
    (Checkpoint.post_init one_started ≡ ok one_started) ↔ IsWellFormed one_started
post_init-IsWellFormed_iff_example = post_init-IsWellFormed_iff one_started

apply-Step_example :
    IsMoved policy one_queued 7 Reports.start one_started
    × (t : TraversalTarget) × (target one_queued 7 ≡ some t)
    × (is_eligible environment one_queued 7 policy t none ≡ ok true)
unfolding model
apply-Step_example = apply-Step environment policy one_queued one_started (Call.start 7 none) refl

empty-IsSound : IsSound policy empty
empty-IsSound = record {
  well_formed = record { ids_once = tt; uris_once = tt; parents_exist = tt };
  bytes = refl;
  attempts = omega arith;
  requests = omega arith;
  each = tt;
}

run-IsSound_example : IsSound policy (run environment policy crawl empty)
run-IsSound_example = run-IsSound environment policy crawl empty empty-IsSound

clock-le-run_example : 5 ≤ (run environment policy crawl empty).budget.elapsed_seconds
clock-le-run_example = clock-le-run environment policy crawl empty

one_completed-IsWellFormed : IsWellFormed one_completed
one_completed-IsWellFormed = record {
  ids_once = (refl, tt);
  uris_once = (refl, tt);
  parents_exist = (tt, tt);
}

one_completed-Holds : Holds one_completed 7 completed 1 40
unfolding model
one_completed-Holds = record {
  entry = target_in completed 1 40;
  found = refl;
  status_held = refl;
  attempts_held = refl;
  bytes_held = refl;
}

run-Holds_example : Holds (run environment policy crawl one_completed) 7 completed 1 40
run-Holds_example =
    run-Holds environment policy 7 completed 1 40 tt crawl one_completed one_completed-IsWellFormed
      one_completed-Holds

enqueue-IsEnqueued_example :
    IsEnqueued environment one_queued (codes "http://a") (pos 0) (some 3) none (
      checkpoint_of
        (record (target_in queued 0 0) { depth = 0; discovery_link_ids = 3 ∷ [] } ∷ [])
        0
        0)
enqueue-IsEnqueued_example =
    enqueue-IsEnqueued environment one_queued (codes "http://a") (pos 0) (some 3) none
      (checkpoint_of (record (target_in queued 0 0) { depth = 0; discovery_link_ids = 3 ∷ [] } ∷ [])
        0 0)
      enqueue_runs

recover_interrupted-AllRecovered_example :
    AllRecovered
      (strip (codes " lost "))
      one_started.targets
      (record (target_in failed 1 0) { last_error = some (codes "lost") } ∷ [])
    × (one_started.budget ≡ one_started.budget)
    × (◌≡◌ {A = ℕ} 1 1)
recover_interrupted-AllRecovered_example =
    recover_interrupted-AllRecovered environment one_started (codes " lost ")
      (checkpoint_of (record (target_in failed 1 0) { last_error = some (codes "lost") } ∷ []) 1 0)
      recovery_runs

one_queued-IsWellFormed : IsWellFormed one_queued
one_queued-IsWellFormed = record {
  ids_once = (refl, tt);
  uris_once = (refl, tt);
  parents_exist = (tt, tt);
}

queued-IsValid : IsValid environment.uris (target_in queued 0 0)
unfolding model
queued-IsValid = (post_init-IsValid_iff environment.uris (target_in queued 0 0)).0 refl

next_eligible_runs :
    next_eligible environment.library policy none one_queued ≡ ok (some (target_in queued 0 0))
unfolding model next_eligible
next_eligible_runs = refl

next_eligible-start_example : start environment one_queued 7 policy none ≡ ok one_started
unfolding model
next_eligible-start_example =
    next_eligible-start environment one_queued policy none (target_in queued 0 0)
      one_queued-IsWellFormed (queued-IsValid, tt) next_eligible_runs
