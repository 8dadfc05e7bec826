-- ===== src/Traversal/Calls/Enqueueing.antt =====
-- `enqueue` of domain/traversal.py: a URI that is in the frontier enriches its target, and any
-- other is added behind the rest.
use tarkka.Prelude.{
  ℕ, ◌≡◌, refl, ap, ◌∙◌, Bool, not, Option, none, some, List, [], ◌∷◌, ◌++◌, map, arith, sum-append,
  All-append, find, find-All, Bool-cases, inl, inr, nat_beq_iff, ok, on_ok, on_require, Text,
  String, ℤ, pos, NoDup, nat_eq, list_eq, ◌==◌, unique, require_non_negative_int,
}
use tarkka.Acquisition.Policy.{ResourceAcquisitionPolicy}
use tarkka.Traversal.Target
use tarkka.Traversal.Target.{TraversalTarget, TraversalStatus, queued}
use tarkka.Traversal.Target.Validity.{post_init-IsKept}
use tarkka.Traversal.Checkpoint.{TraversalCheckpoint, target_ids, swap_in}
use tarkka.Traversal.Checkpoint.Validity.{
  IsWellFormed, post_init-eq, IsWellFormed-of_ok, replace_target-eq, replace_target-IsWellFormed,
}
use tarkka.Traversal.Checkpoint.Swap.{find_id, find_id-contains, sum-swap_in}
use tarkka.Traversal.Frontier.{
  Environment, append_uuid, enriched_depth, optional, is_id, parent_exists, target_id_for, enrich,
  add, enqueue_at, enqueue,
}
use tarkka.Traversal.Calls.Soundness.{WithinPolicy, TargetWithin, IsSound, All-swap_in}

-- The first target with a property is also the one that its ID finds.
pub find_id_of_find :
    (q : TraversalTarget → Bool) (ts : List TraversalTarget) (t : TraversalTarget)
    → find q ts ≡ some t
    → NoDup (target_ids ts)
    → find_id t.target_id ts ≡ some t
find_id_of_find q [] t h d = ground arith
find_id_of_find q (x ∷ xs) t h d = elim (Bool-cases (q x)) [
  | inl here ↦ ground (arith, nat_beq_iff t.target_id t.target_id)
  | inr later ↦
      let there = find_id_of_find q xs t (ground arith) d.1 in
      ground (arith, there, find_id-contains t.target_id xs t there)
]

-- The target that `enqueue` leaves at its URI.
pub record IsEnriched (env : Environment) (old new : TraversalTarget) (asked : ℕ)
    (link parent : Option ℕ) : Type 0 where
  pub target_id : new.target_id ≡ old.target_id
  pub uri : env.uris.normalize old.uri ≡ ok new.uri
  pub status : new.status ≡ old.status
  pub attempts : new.attempts ≡ old.attempts
  pub bytes_acquired : new.bytes_acquired ≡ old.bytes_acquired
  pub depth : new.depth ≡ enriched_depth old.status old.depth asked
  pub links : new.discovery_link_ids ≡ unique (append_uuid old.discovery_link_ids link)
  pub parents : new.parent_target_ids ≡ unique (append_uuid old.parent_target_ids parent)
  pub last_error : new.last_error ≡ old.last_error
  pub final_artifact_sha256 : new.final_artifact_sha256 ≡ old.final_artifact_sha256
  pub final_observation_id : new.final_observation_id ≡ old.final_observation_id

-- The target that `enqueue` adds to the checkpoint with this ID, for a normal URI.
pub record IsAdded (env : Environment) (checkpoint_id : ℕ) (normal : Text) (new : TraversalTarget)
    (asked : ℕ) (link parent : Option ℕ) : Type 0 where
  pub target_id : new.target_id ≡ target_id_for env checkpoint_id normal
  pub uri : env.uris.normalize normal ≡ ok new.uri
  pub status : new.status ≡ queued
  pub attempts : new.attempts ≡ 0
  pub bytes_acquired : new.bytes_acquired ≡ 0
  pub depth : new.depth ≡ asked
  pub links : new.discovery_link_ids ≡ optional link
  pub parents : new.parent_target_ids ≡ optional parent
  pub last_error : new.last_error ≡ none
  pub final_artifact_sha256 : new.final_artifact_sha256 ≡ none
  pub final_observation_id : new.final_observation_id ≡ none

enriched-WithinPolicy :
    (p : ResourceAcquisitionPolicy) (s : TraversalStatus) (attempts old new : ℕ)
    → WithinPolicy p s attempts old
    → WithinPolicy p s attempts (enriched_depth s old new)
enriched-WithinPolicy p s attempts old new h = ground arith

unique-optional : (id : Option ℕ) → unique (optional id) ≡ optional id
unfolding unique
unique-optional none = refl
unique-optional (some id) = refl

module _ (env : Environment) (c : TraversalCheckpoint) (depth : ℕ) (link parent : Option ℕ)
    (c' : TraversalCheckpoint) where
  enrich-IsEnriched :
      (old : TraversalTarget)
      → enrich env c old depth link parent ≡ ok c'
      → (new : TraversalTarget) × IsEnriched env old new depth link parent
        × (c' ≡ record c { targets = map (swap_in new) c.targets })
        × IsWellFormed c'
  unfolding enrich
  enrich-IsEnriched old h = on_require (not (is_id parent old.target_id)) _ _ h λ _ h₁.
      on_ok (Target.post_init env.uris _) _ h₁ λ new e put.
        let kept = post_init-IsKept env.uris _ new e in
        (
          new,
          record {
            target_id = kept.target_id;
            uri = kept.uri;
            status = kept.status;
            attempts = kept.attempts;
            bytes_acquired = kept.bytes_acquired;
            depth = kept.depth;
            links = kept.discovery_link_ids;
            parents = kept.parent_target_ids;
            last_error = kept.last_error;
            final_artifact_sha256 = kept.final_artifact_sha256;
            final_observation_id = kept.final_observation_id;
          },
          replace_target-eq c new c' put,
          replace_target-IsWellFormed c new c' put,
        )

  add-IsAdded :
      (uri : Text)
      → add env c uri depth link parent ≡ ok c'
      → (new : TraversalTarget) × IsAdded env c.checkpoint_id uri new depth link parent
        × (c' ≡ record c { targets = c.targets ++ new ∷ [] })
        × IsWellFormed c'
  unfolding add
  add-IsAdded uri h =
      on_require (not (is_id parent (target_id_for env c.checkpoint_id uri))) _ _ h λ _ h₁.
        on_ok (Target.post_init env.uris _) _ h₁ λ new e put.
          let kept = post_init-IsKept env.uris _ new e in
          (
            new,
            record {
              target_id = kept.target_id;
              uri = kept.uri;
              status = kept.status;
              attempts = kept.attempts;
              bytes_acquired = kept.bytes_acquired;
              depth = kept.depth;
              links = kept.discovery_link_ids ∙ unique-optional link;
              parents = kept.parent_target_ids ∙ unique-optional parent;
              last_error = kept.last_error;
              final_artifact_sha256 = kept.final_artifact_sha256;
              final_observation_id = kept.final_observation_id;
            },
            post_init-eq _ c' put,
            IsWellFormed-of_ok _ c' put,
          )

-- What a call of `enqueue` that returns has done, for the normal form of its URI.
pub data Enqueued (env : Environment) (c : TraversalCheckpoint) (uri : Text) (asked : ℕ)
    (link parent : Option ℕ) (c' : TraversalCheckpoint) : Type 0 where
  enriched :
      (old new : TraversalTarget)
      → find (λ t. t.uri == uri) c.targets ≡ some old
      → IsEnriched env old new asked link parent
      → c' ≡ record c { targets = map (swap_in new) c.targets }
      → Enqueued env c uri asked link parent c'
  added :
      (new : TraversalTarget)
      → find (λ t. t.uri == uri) c.targets ≡ none
      → IsAdded env c.checkpoint_id uri new asked link parent
      → c' ≡ record c { targets = c.targets ++ new ∷ [] }
      → Enqueued env c uri asked link parent c'

module _ (env : Environment) (c : TraversalCheckpoint) (uri : Text) (asked : ℕ)
    (link parent : Option ℕ) (c' : TraversalCheckpoint) where
  enqueue_at-Enqueued :
      (o : Option TraversalTarget)
      → find (λ t. t.uri == uri) c.targets ≡ o
      → enqueue_at env c o uri asked link parent ≡ ok c'
      → Enqueued env c uri asked link parent c' × IsWellFormed c'
  unfolding enqueue_at
  enqueue_at-Enqueued (some old) e h =
      let (new, kept, result, w) = enrich-IsEnriched env c asked link parent c' old h in
      (enriched old new e kept result, w)
  enqueue_at-Enqueued none e h =
      let (new, fresh, result, w) = add-IsAdded env c asked link parent c' uri h in
      (added new e fresh result, w)

module _ (env : Environment) (p : ResourceAcquisitionPolicy) (c : TraversalCheckpoint) (uri : Text)
    (asked : ℕ) (link parent : Option ℕ) (c' : TraversalCheckpoint) where
  pub Enqueued-IsSound :
      Enqueued env c uri asked link parent c' → IsWellFormed c' → IsSound p c → IsSound p c'
  Enqueued-IsSound (enriched old new found kept result) w s =
      let here =
        ap (λ (i : ℕ). find_id i c.targets) kept.target_id
        ∙ find_id_of_find _ c.targets old found s.well_formed.ids_once in
      let within = find-All (TargetWithin p) _ c.targets old here s.each in
      let swapped =
        λ (f : TraversalTarget → ℕ). sum-swap_in new f c.targets old here s.well_formed.ids_once in
      record {
        well_formed = w;
        bytes =
            rw result
              (omega (arith, swapped (λ t. t.bytes_acquired), kept.bytes_acquired, s.bytes));
        attempts = rw result (omega (arith, swapped (λ t. t.attempts), kept.attempts, s.attempts));
        requests = rw result s.requests;
        each = rw result (
            All-swap_in (TargetWithin p) new c.targets
              (rw (kept.status, kept.attempts, kept.depth)
                (enriched-WithinPolicy p old.status old.attempts old.depth asked within.0))
              s.each);
      }
  Enqueued-IsSound (added new found fresh result) w s = record {
    well_formed = w;
    bytes = rw result (
        omega (
          arith,
          sum-append (λ (t : TraversalTarget). t.bytes_acquired) c.targets (new ∷ []),
          fresh.bytes_acquired,
          s.bytes,
        ));
    attempts = rw result (
        omega (
          arith,
          sum-append (λ (t : TraversalTarget). t.attempts) c.targets (new ∷ []),
          fresh.attempts,
          s.attempts,
        ));
    requests = rw result s.requests;
    each = rw result (
        All-append (TargetWithin p) c.targets (new ∷ []) s.each
          (rw (fresh.status, fresh.attempts) (omega arith), tt));
  }

-- A call of `enqueue` that returns has normalized the URI and checked the depth.
pub record IsEnqueued (env : Environment) (c : TraversalCheckpoint) (uri : Text) (depth : ℤ)
    (link parent : Option ℕ) (c' : TraversalCheckpoint) : Type 0 where
  pub normal : Text
  pub asked : ℕ
  pub normalized : env.uris.normalize uri ≡ ok normal
  pub depth_given : depth ≡ pos asked
  pub outcome : Enqueued env c normal asked link parent c'
  pub well_formed : IsWellFormed c'

depth-eq :
    (depth : ℤ) (asked : ℕ) (message : String)
    → require_non_negative_int depth message ≡ ok asked
    → depth ≡ pos asked
depth-eq depth asked message h = ground arith

module _ (env : Environment) (c : TraversalCheckpoint) (uri : Text) (depth : ℤ)
    (link parent : Option ℕ) (c' : TraversalCheckpoint) where
  -- A call of `enqueue` that returns either enriches the one target that has the normal form of the
  -- URI, whose ID, status, counters, error and output it keeps, or adds a queued target with fresh
  -- counters behind the others, whose ID is derived from the checkpoint and the normal form, which
  -- the constructor normalizes again; and the checkpoint that it returns is well formed.
  pub enqueue-IsEnqueued :
      enqueue env c uri depth link parent ≡ ok c' → IsEnqueued env c uri depth link parent c'
  unfolding enqueue
  enqueue-IsEnqueued h = on_ok (env.uris.normalize uri) _ h λ normal e h₁.
      on_ok (require_non_negative_int depth _) _ h₁ λ asked given h₂.
        on_require (parent_exists c parent) _ _ h₂ λ _ h₃.
          let (outcome, w) = enqueue_at-Enqueued env c normal asked link parent c' _ refl h₃ in
          record {
            normal = normal;
            asked = asked;
            normalized = e;
            depth_given = depth-eq depth asked _ given;
            outcome = outcome;
            well_formed = w;
          }
