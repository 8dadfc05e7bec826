-- ===== src/Traversal/Frontier.antt =====
-- `enqueue` and `next_eligible` of TraversalCheckpoint in domain/traversal.py, and the helpers that
-- its methods share. A method returns the new checkpoint or the error that it raises.
use tarkka.Prelude.{
  ℕ, ◌+◌, min, Bool, true, false, not, Option, none, some, List, [], ◌∷◌, ◌++◌, nat_beq, leb,
  if◌then◌else◌, find, ℤ, pos, Float, require_non_negative_int, require_finite_non_negative, Result,
  ok, ◌>>=◌, ◌>>◌, require, contains, nat_eq, list_eq, ◌==◌, Text, is_blank, strip, codes, String,
}
use tarkka.Acquisition.Library.{Library}
use tarkka.Acquisition.Policy.{ResourceAcquisitionPolicy, allows_uri}
use tarkka.Acquisition.Budget.{AcquisitionBudgetState, allows_request}
use tarkka.Traversal.Target
use tarkka.Traversal.Target.{
  UriNormalizer, TraversalTarget, TraversalStatus, queued, in_progress, finalizing, completed,
  failed, skipped, is_queued, is_in_progress, is_finalizing, is_failed, is_some, is_sha256,
}
use tarkka.Traversal.Checkpoint
use tarkka.Traversal.Checkpoint.{TraversalCheckpoint, target, require_target, replace_target}

-- The parts of Python that the frontier takes from its environment: the network library, the URI
-- normalizer, and the uuid module (`uuid5` in the URL namespace, and a UUID's text).
pub record Environment : Type 0 where
  pub library : Library
  pub uris : UriNormalizer
  pub uuid5_url : Text → ℕ
  pub uuid_text : ℕ → Text

-- _append_uuid
unfoldable pub append_uuid : List ℕ → Option ℕ → List ℕ
append_uuid values none = values
append_uuid values (some value) = if contains value values then values else values ++ value ∷ []

-- _target_id
unfoldable pub target_id_for : Environment → ℕ → Text → ℕ
target_id_for env checkpoint_id uri =
    env.uuid5_url
      (codes "tarkka:" ++ (env.uuid_text checkpoint_id ++ (codes ":traversal-target:" ++ uri)))

-- _require_reason
unfoldable pub require_reason : Text → String → Result Text
require_reason value message = do require (not (is_blank value)) message; ok (strip value)

-- _require_monotonic_elapsed; the place of the accepted value is returned
unfoldable pub require_monotonic_elapsed : Float → ℕ → Result ℕ
require_monotonic_elapsed value previous = do
  elapsed ←
      require_finite_non_negative value
        "acquisition elapsed_seconds must be finite and non-negative"
  require (leb previous elapsed) "traversal elapsed_seconds must not move backwards"
  ok elapsed

abbrev pub charge_request : AcquisitionBudgetState → AcquisitionBudgetState
charge_request b = record b { requests_used = b.requests_used + 1 }

abbrev pub is_id : Option ℕ → ℕ → Bool
is_id none id = false
is_id (some parent) id = nat_beq parent id

abbrev pub optional : Option ℕ → List ℕ
optional none = []
optional (some id) = id ∷ []

abbrev pub parent_exists : TraversalCheckpoint → Option ℕ → Bool
parent_exists c none = true
parent_exists c (some parent) = is_some (target c parent)

abbrev pub enriched_depth : TraversalStatus → ℕ → ℕ → ℕ
enriched_depth queued old new = min old new
enriched_depth _ old new = old

module _ (env : Environment) (c : TraversalCheckpoint) where
  -- the branch of `enqueue` for a URI that is in the frontier
  unfoldable pub enrich : TraversalTarget → ℕ → Option ℕ → Option ℕ → Result TraversalCheckpoint
  enrich existing depth discovery_link_id parent_target_id = do
    require (not (is_id parent_target_id existing.target_id))
        "traversal target cannot be its own parent"
    updated ← Target.post_init env.uris (record existing {
      depth = enriched_depth existing.status existing.depth depth;
      discovery_link_ids = append_uuid existing.discovery_link_ids discovery_link_id;
      parent_target_ids = append_uuid existing.parent_target_ids parent_target_id;
    })
    replace_target c updated

  -- the branch of `enqueue` for a new URI
  unfoldable pub add : Text → ℕ → Option ℕ → Option ℕ → Result TraversalCheckpoint
  add uri depth discovery_link_id parent_target_id = do
    let target_id = target_id_for env c.checkpoint_id uri
    require (not (is_id parent_target_id target_id)) "traversal target cannot be its own parent"
    added ← Target.post_init env.uris (record {
      target_id = target_id;
      uri = uri;
      depth = depth;
      status = queued;
      attempts = 0;
      bytes_acquired = 0;
      discovery_link_ids = optional discovery_link_id;
      parent_target_ids = optional parent_target_id;
      last_error = none;
      final_artifact_sha256 = none;
      final_observation_id = none;
    })
    Checkpoint.post_init (record c { targets = c.targets ++ added ∷ [] })

  unfoldable pub enqueue_at :
      Option TraversalTarget → Text → ℕ → Option ℕ → Option ℕ → Result TraversalCheckpoint
  enqueue_at (some existing) uri depth link parent = enrich existing depth link parent
  enqueue_at none uri depth link parent = add uri depth link parent

  -- TraversalCheckpoint.enqueue
  unfoldable pub enqueue : Text → ℤ → Option ℕ → Option ℕ → Result TraversalCheckpoint
  enqueue uri depth discovery_link_id parent_target_id = do
    normalized_uri ← env.uris.normalize uri
    depth' ← require_non_negative_int depth "traversal target depth must be a non-negative integer"
    require (parent_exists c parent_target_id)
        "parent traversal target must already exist in the checkpoint"
    enqueue_at (find (λ t. t.uri == normalized_uri) c.targets) normalized_uri depth'
        discovery_link_id parent_target_id

module _ (py : Library) (p : ResourceAcquisitionPolicy) (since : Option Float) where
  -- The loop of `next_eligible`, over the targets that are left.
  unfoldable pub first_eligible :
      AcquisitionBudgetState → List TraversalTarget → Result (Option TraversalTarget)
  first_eligible b [] = ok none
  first_eligible b (t ∷ ts) =
      let rest = first_eligible b ts in
      if not (is_queued t.status)
      then rest
      else if not (allows_uri py p t.uri)
      then rest
      else allows_request b p (pos t.depth) (pos 0) since >>= λ allowed.
          if allowed then ok (some t) else rest

  -- TraversalCheckpoint.next_eligible
  unfoldable pub next_eligible : TraversalCheckpoint → Result (Option TraversalTarget)
  unfolding first_eligible
  next_eligible c = first_eligible c.budget c.targets
