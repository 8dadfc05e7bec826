-- ===== src/Traversal/Calls/Recovery.antt =====
-- `recover_interrupted` of domain/traversal.py: what it does to each target.
use tarkka.Prelude.{
  ℕ, ◌≡◌, ◌≢◌, refl, ap, ap₂, ◌+◌, true, some, List, [], ◌∷◌, arith, sum, All, Bool-cases, inl, inr,
  ok, on_ok, Text, ◌↔◌, strip,
}
use tarkka.Acquisition.Policy.{ResourceAcquisitionPolicy}
use tarkka.Traversal.Target.{TraversalTarget, TraversalStatus, in_progress, failed, is_in_progress}
use tarkka.Traversal.Target.Validity.{post_init-IsKept}
use tarkka.Traversal.Checkpoint.{TraversalCheckpoint}
use tarkka.Traversal.Checkpoint.Validity.{IsWellFormed, post_init-eq, IsWellFormed-of_ok}
use tarkka.Traversal.Frontier.{Environment, require_reason}
use tarkka.Traversal.Transitions.{recover_target, recover_each, recover_interrupted}
use tarkka.Traversal.Calls.Soundness.{WithinPolicy, TargetWithin, IsSound}

-- The status that recovery leaves.
abbrev pub recovered : TraversalStatus → TraversalStatus
recovered in_progress = failed
recovered s = s

-- An interrupted target fails for the given reason, with its counters kept; any other target is
-- left as it is.
pub record IsRecovered (reason : Text) (t t' : TraversalTarget) : Type 0 where
  pub target_id : t'.target_id ≡ t.target_id
  pub status : t'.status ≡ recovered t.status
  pub attempts : t'.attempts ≡ t.attempts
  pub depth : t'.depth ≡ t.depth
  pub bytes_acquired : t'.bytes_acquired ≡ t.bytes_acquired
  pub explained : t.status ≡ in_progress → t'.last_error ≡ some reason
  pub untouched : t.status ≢ in_progress → t' ≡ t

abbrev pub AllRecovered : Text → List TraversalTarget → List TraversalTarget → Type 0
AllRecovered reason [] [] = Unit
AllRecovered reason (t ∷ ts) (t' ∷ ts') = IsRecovered reason t t' × AllRecovered reason ts ts'
AllRecovered reason _ _ = ⊥

is_in_progress_iff : (s : TraversalStatus) → (is_in_progress s ≡ true) ↔ (s ≡ in_progress)
is_in_progress_iff s = ground arith

module _ (env : Environment) (reason : Text) where
  recover_target-IsRecovered :
      (t t' : TraversalTarget) → recover_target env reason t ≡ ok t' → IsRecovered reason t t'
  unfolding recover_target
  recover_target-IsRecovered t t' h = elim (Bool-cases (is_in_progress t.status)) [
    | inl running ↦
        let kept = post_init-IsKept env.uris _ t' (rw running at h) in
        let here = (is_in_progress_iff t.status).0 running in
        record {
          target_id = kept.target_id;
          status = rw here kept.status;
          attempts = kept.attempts;
          depth = kept.depth;
          bytes_acquired = kept.bytes_acquired;
          explained = λ _. kept.last_error;
          untouched = λ idle. absurd (idle here);
        }
    | inr idle ↦
        let e : t' ≡ t = ground arith in
        rw e (record {
          target_id = refl;
          status = ground arith;
          attempts = refl;
          depth = refl;
          bytes_acquired = refl;
          explained = λ running. ground arith;
          untouched = λ _. refl;
        })
  ]

  recover_each-AllRecovered :
      (ts ts' : List TraversalTarget)
      → recover_each env reason ts ≡ ok ts'
      → AllRecovered reason ts ts'
  unfolding recover_each
  recover_each-AllRecovered [] ts' h = let e : [] ≡ ts' = cc in rw (← e) tt
  recover_each-AllRecovered (t ∷ ts) ts' h = on_ok (recover_target env reason t) _ h λ t' e h₁.
      on_ok (recover_each env reason ts) _ h₁ λ us e' h₂.
        let cons : t' ∷ us ≡ ts' = cc in
        rw (← cons) (recover_target-IsRecovered t t' e, recover_each-AllRecovered ts us e')

module _ (env : Environment) (c : TraversalCheckpoint) (reason : Text)
    (c' : TraversalCheckpoint) where
  pub recover_interrupted-eq :
      recover_interrupted env c reason ≡ ok c'
      → IsWellFormed c'
        × AllRecovered (strip reason) c.targets c'.targets
        × (c'.budget ≡ c.budget)
        × (c'.checkpoint_id ≡ c.checkpoint_id)
  unfolding recover_interrupted require_reason
  recover_interrupted-eq h = on_ok (require_reason reason _) _ h λ normalized e h₁.
      on_ok (recover_each env normalized c.targets) _ h₁ λ ts e' h₂.
        let result = post_init-eq (record c { targets = ts }) c' h₂ in
        let stripped : normalized ≡ strip reason = ground arith in
        (
          IsWellFormed-of_ok _ c' h₂,
          rw (result, ← stripped) (recover_each-AllRecovered env normalized c.targets ts e'),
          ap (λ (d : TraversalCheckpoint). d.budget) result,
          ap (λ (d : TraversalCheckpoint). d.checkpoint_id) result,
        )

  -- After a recovery that returns, each interrupted target has failed for the stripped reason with
  -- its counters kept, each other target is as it was, and so are the budget and the ID.
  pub recover_interrupted-AllRecovered :
      recover_interrupted env c reason ≡ ok c'
      → AllRecovered (strip reason) c.targets c'.targets
        × (c'.budget ≡ c.budget)
        × (c'.checkpoint_id ≡ c.checkpoint_id)
  recover_interrupted-AllRecovered h = let r = recover_interrupted-eq h in (r.1, r.2, r.3)

recovered-WithinPolicy :
    (p : ResourceAcquisitionPolicy) (s : TraversalStatus) (attempts depth : ℕ)
    → WithinPolicy p s attempts depth
    → WithinPolicy p (recovered s) attempts depth
recovered-WithinPolicy p s attempts depth h = ground arith

module _ (p : ResourceAcquisitionPolicy) (reason : Text) where
  sum-AllRecovered :
      (f : TraversalTarget → ℕ) (ts ts' : List TraversalTarget)
      → ((t t' : TraversalTarget) → IsRecovered reason t t' → f t' ≡ f t)
      → AllRecovered reason ts ts'
      → sum f ts' ≡ sum f ts
  sum-AllRecovered f [] [] same h = refl
  sum-AllRecovered f (t ∷ ts) (t' ∷ ts') same h =
      ap₂ ◌+◌ (same t t' h.0) (sum-AllRecovered f ts ts' same h.1)
  sum-AllRecovered f [] (t' ∷ ts') same h = absurd h
  sum-AllRecovered f (t ∷ ts) [] same h = absurd h

  AllRecovered-TargetWithin :
      (ts ts' : List TraversalTarget)
      → AllRecovered reason ts ts'
      → All (TargetWithin p) ts
      → All (TargetWithin p) ts'
  AllRecovered-TargetWithin [] [] h a = tt
  AllRecovered-TargetWithin (t ∷ ts) (t' ∷ ts') (r, rs) a = (
    rw (r.status, r.attempts, r.depth) (recovered-WithinPolicy p t.status t.attempts t.depth a.0),
    AllRecovered-TargetWithin ts ts' rs a.1,
  )
  AllRecovered-TargetWithin [] (t' ∷ ts') h a = absurd h
  AllRecovered-TargetWithin (t ∷ ts) [] h a = absurd h

pub AllRecovered-IsSound :
    (p : ResourceAcquisitionPolicy) (c c' : TraversalCheckpoint) (reason : Text)
    → AllRecovered reason c.targets c'.targets
    → c'.budget ≡ c.budget
    → IsWellFormed c'
    → IsSound p c
    → IsSound p c'
AllRecovered-IsSound p c c' reason each budget well_formed s =
    let bytes =
      sum-AllRecovered p reason (λ t. t.bytes_acquired) c.targets c'.targets
        (λ t t' r. r.bytes_acquired) each in
    let attempts =
      sum-AllRecovered p reason (λ t. t.attempts) c.targets c'.targets (λ t t' r. r.attempts)
        each in
    record {
      well_formed = well_formed;
      bytes = rw (bytes, budget) s.bytes;
      attempts = rw (attempts, budget) s.attempts;
      requests = rw budget s.requests;
      each = AllRecovered-TargetWithin p reason c.targets c'.targets each s.each;
    }
