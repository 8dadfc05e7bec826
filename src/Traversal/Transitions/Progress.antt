-- ===== src/Traversal/Transitions/Progress.antt =====
-- What `next_eligible` returns can be started.
use tarkka.Prelude.{
  ◌+◌, ◌≡◌, refl, true, Option, none, some, List, [], ◌∷◌, map, arith, Bool-cases, inl, inr,
  nat_beq, nat_beq_iff, find-All, All, All-map, NoDup, nat_eq, pos, Float, ok, on_ok, if◌then◌else◌,
}
use tarkka.Acquisition.Library.{Library}
use tarkka.Acquisition.Policy.{ResourceAcquisitionPolicy, allows_uri}
use tarkka.Acquisition.Budget.{AcquisitionBudgetState, allows_request}
use tarkka.Traversal.Target.{TraversalTarget, in_progress, is_queued}
use tarkka.Traversal.Target.Validity.{IsValid, post_init-eq_of_IsValid}
use tarkka.Traversal.Checkpoint.{
  TraversalCheckpoint, target, target_ids, require_target, replace_target, swap_in,
}
use tarkka.Traversal.Checkpoint.Swap.{find_id, find_id-contains, target_ids-swap_in, swap_in-absent}
use tarkka.Traversal.Checkpoint.Validity.{IsWellFormed, ParentsAmong, post_init_of_IsWellFormed}
use tarkka.Traversal.Frontier.{Environment, first_eligible, next_eligible, charge_request}
use tarkka.Traversal.Transitions.{start, is_eligible, with_budget}

module _ (py : Library) (p : ResourceAcquisitionPolicy) (since : Option Float)
    (b : AcquisitionBudgetState) where
  -- A queued target that the policy and the budget let be requested.
  record IsChosen (ts : List TraversalTarget) (t : TraversalTarget) : Type 0 where
    found : find_id t.target_id ts ≡ some t
    waits : is_queued t.status ≡ true
    in_policy : allows_uri py p t.uri ≡ true
    admitted : allows_request b p (pos t.depth) (pos 0) since ≡ ok true

  later-IsChosen :
      (x : TraversalTarget) (xs : List TraversalTarget) (t : TraversalTarget)
      → NoDup (target_ids (x ∷ xs))
      → IsChosen xs t
      → IsChosen (x ∷ xs) t
  later-IsChosen x xs t d i = record {
    found =
        let known = find_id-contains t.target_id xs t i.found in
        ground (arith, nat_beq_iff x.target_id t.target_id, i.found);
    waits = i.waits;
    in_policy = i.in_policy;
    admitted = i.admitted;
  }

  first_eligible-IsChosen :
      (ts : List TraversalTarget) (t : TraversalTarget)
      → NoDup (target_ids ts)
      → first_eligible py p since b ts ≡ ok (some t)
      → IsChosen ts t
  unfolding first_eligible
  first_eligible-IsChosen [] t d h = cc
  first_eligible-IsChosen (x ∷ xs) t d h = elim (Bool-cases (is_queued x.status)) [
    | inr other ↦ later-IsChosen x xs t d (first_eligible-IsChosen xs t d.1 (ground arith))
    | inl waits ↦ elim (Bool-cases (allows_uri py p x.uri)) [
      | inr outside ↦ later-IsChosen x xs t d (first_eligible-IsChosen xs t d.1 (ground arith))
      | inl inside ↦
          on_ok {B = Option TraversalTarget} (allows_request b p (pos x.depth) (pos 0) since)
            (λ allowed. if allowed then ok (some x) else first_eligible py p since b xs)
            {r = some t} (ground arith)
            λ allowed e h1. elim (Bool-cases allowed) [
              | inl yes_now ↦
                  let same : t ≡ x = ground arith in
                  rw same (record {
                    found = ground arith;
                    waits = waits;
                    in_policy = inside;
                    admitted = rw yes_now at e;
                  })
              | inr no_now ↦
                  later-IsChosen x xs t d (first_eligible-IsChosen xs t d.1 (ground arith))
            ]
    ]
  ]

-- A target that takes the place of one with its ID and URI leaves the URIs as they are.
uris-swap_in :
    (u : TraversalTarget) (ts : List TraversalTarget) (t : TraversalTarget)
    → find_id u.target_id ts ≡ some t
    → NoDup (target_ids ts)
    → u.uri ≡ t.uri
    → map (λ (x : TraversalTarget). x.uri) (map (swap_in u) ts)
      ≡ map (λ (x : TraversalTarget). x.uri) ts
unfolding swap_in
uris-swap_in u [] t h d e = refl
uris-swap_in u (x ∷ xs) t h d e = elim (Bool-cases (nat_beq x.target_id u.target_id)) [
  | inl here ↦ ground (arith, swap_in-absent u xs, nat_beq_iff x.target_id u.target_id)
  | inr later ↦ ground (arith, uris-swap_in u xs t)
]

swap_in-IsWellFormed :
    (c : TraversalCheckpoint) (u t : TraversalTarget) (b : AcquisitionBudgetState)
    → IsWellFormed c
    → find_id u.target_id c.targets ≡ some t
    → u.uri ≡ t.uri
    → u.parent_target_ids ≡ t.parent_target_ids
    → IsWellFormed (record c { targets = map (swap_in u) c.targets; budget = b })
unfolding swap_in
swap_in-IsWellFormed c u t b w found same_uri same_parents =
    let ids = target_ids-swap_in u c.targets in
    let uris = uris-swap_in u c.targets t found w.ids_once same_uri in
    let parents =
      (find-All (ParentsAmong (target_ids c.targets)) _ c.targets t found w.parents_exist).0 in
    let own : ParentsAmong (target_ids c.targets) u = rw same_parents parents in
    record {
      ids_once = rw ids w.ids_once;
      uris_once = rw uris w.uris_once;
      parents_exist = rw ids (
          All-map (ParentsAmong (target_ids c.targets)) (swap_in u) c.targets
            (λ x among. elim (Bool-cases (nat_beq x.target_id u.target_id)) [
              | inl here ↦ rw here own
              | inr other ↦ rw other among
            ])
            w.parents_exist);
    }

abbrev started : TraversalTarget → TraversalTarget
started t = record t {
  status = in_progress;
  attempts = t.attempts + 1;
  last_error = none;
  final_artifact_sha256 = none;
  final_observation_id = none;
}

module _ (env : Environment) where
  started-IsValid : (t : TraversalTarget) → IsValid env.uris t → IsValid env.uris (started t)
  started-IsValid t v = record {
    normal = v.normal;
    fields = (omega arith, refl, refl);
    reason = refl;
    together = refl;
    sha256 = refl;
    links_once = v.links_once;
    parents_once = v.parents_once;
    not_own_parent = v.not_own_parent;
  }

  -- In a well-formed frontier of valid targets, the target that `next_eligible` returns can be started
  -- under the same policy and time: `start` returns the frontier with the target in progress, one
  -- attempt more, and one request charged.
  pub next_eligible-start :
      (c : TraversalCheckpoint) (p : ResourceAcquisitionPolicy) (since : Option Float)
      (t : TraversalTarget)
      → IsWellFormed c
      → All (IsValid env.uris) c.targets
      → next_eligible env.library p since c ≡ ok (some t)
      → start env c t.target_id p since
        ≡ ok (record c {
          targets = map (swap_in (started t)) c.targets;
          budget = charge_request c.budget;
        })
  unfolding next_eligible start is_eligible require_target target replace_target with_budget
  next_eligible-start c p since t w valid h =
      let i = first_eligible-IsChosen env.library p since c.budget c.targets t w.ids_once h in
      let v = (find-All (IsValid env.uris) _ c.targets t i.found valid).0 in
      let u = started t in
      let built = post_init-eq_of_IsValid env.uris u (started-IsValid t v) in
      let swapped =
        post_init_of_IsWellFormed (record c { targets = map (swap_in u) c.targets })
          (swap_in-IsWellFormed c u t c.budget w i.found refl refl) in
      let charged =
        post_init_of_IsWellFormed
          (record c { targets = map (swap_in u) c.targets; budget = charge_request c.budget })
          (swap_in-IsWellFormed c u t (charge_request c.budget) w i.found refl refl) in
      rw (i.found, i.waits, i.in_policy, i.admitted, built, swapped, charged) refl
