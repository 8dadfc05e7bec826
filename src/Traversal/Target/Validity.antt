-- ===== src/Traversal/Target/Validity.antt =====
-- What the constructor of a traversal target accepts, and what it keeps of its arguments.
use tarkka.Prelude.{
  ℕ, ◌≡◌, ◌≢◌, ◌↔◌, true, false, not, ◌&&◌, ◌||◌, Option, none, arith, nat_beq, ok, contains,
  unique, NoDup, NoDup-unique, unique_of_NoDup, nat_eq, Text,
}
use tarkka.Traversal.Target.{
  UriNormalizer, TraversalTarget, TraversalStatus, queued, in_progress, finalizing, completed,
  failed, skipped, is_some, has_reason, was_attempted, may_have_output, is_finalizing,
  error_is_valid, sha256_is_valid, post_init,
}

-- What the status says of the other fields.
abbrev pub StatusFields : TraversalStatus → ℕ → Option Text → Option Text → Type 0
StatusFields queued attempts error output = (error ≡ none) × (output ≡ none)
StatusFields in_progress attempts error output = (attempts ≢ 0) × (error ≡ none) × (output ≡ none)
StatusFields finalizing attempts error output =
    (attempts ≢ 0) × (error ≡ none) × (is_some output ≡ true)
StatusFields completed attempts error output = (attempts ≢ 0) × (error ≡ none)
StatusFields failed attempts error output =
    (attempts ≢ 0) × (is_some error ≡ true) × (output ≡ none)
StatusFields skipped attempts error output = (is_some error ≡ true) × (output ≡ none)

pub record IsValid (u : UriNormalizer) (t : TraversalTarget) : Type 0 where
  pub normal : u.normalize t.uri ≡ ok t.uri
  pub fields : StatusFields t.status t.attempts t.last_error t.final_artifact_sha256
  pub reason : error_is_valid t.last_error ≡ true
  pub together : is_some t.final_artifact_sha256 ≡ is_some t.final_observation_id
  pub sha256 : sha256_is_valid t.final_artifact_sha256 ≡ true
  pub links_once : NoDup t.discovery_link_ids
  pub parents_once : NoDup t.parent_target_ids
  pub not_own_parent : contains t.target_id t.parent_target_ids ≡ false

-- The fields that the constructor leaves as they are.
pub record IsKept (u : UriNormalizer) (t t' : TraversalTarget) : Type 0 where
  pub target_id : t'.target_id ≡ t.target_id
  pub uri : u.normalize t.uri ≡ ok t'.uri
  pub depth : t'.depth ≡ t.depth
  pub status : t'.status ≡ t.status
  pub attempts : t'.attempts ≡ t.attempts
  pub bytes_acquired : t'.bytes_acquired ≡ t.bytes_acquired
  pub discovery_link_ids : t'.discovery_link_ids ≡ unique t.discovery_link_ids
  pub parent_target_ids : t'.parent_target_ids ≡ unique t.parent_target_ids
  pub last_error : t'.last_error ≡ t.last_error
  pub final_artifact_sha256 : t'.final_artifact_sha256 ≡ t.final_artifact_sha256
  pub final_observation_id : t'.final_observation_id ≡ t.final_observation_id

StatusFields_lem :
    (s : TraversalStatus) (attempts : ℕ) (error output : Option Text)
    → (not (has_reason s) || is_some error) ≡ true
    → (has_reason s || not (is_some error)) ≡ true
    → not (was_attempted s && nat_beq attempts 0) ≡ true
    → (not (is_finalizing s) || is_some output) ≡ true
    → (may_have_output s || not (is_some output)) ≡ true
    → StatusFields s attempts error output
StatusFields_lem queued attempts error output h₁ h₂ h₃ h₄ h₅ = ground arith
StatusFields_lem in_progress attempts error output h₁ h₂ h₃ h₄ h₅ = ground arith
StatusFields_lem finalizing attempts error output h₁ h₂ h₃ h₄ h₅ = ground arith
StatusFields_lem completed attempts error output h₁ h₂ h₃ h₄ h₅ = ground arith
StatusFields_lem failed attempts error output h₁ h₂ h₃ h₄ h₅ = ground arith
StatusFields_lem skipped attempts error output h₁ h₂ h₃ h₄ h₅ = ground arith

-- The tests of the constructor on the status, from what the status says.
StatusFields-tests :
    (s : TraversalStatus) (attempts : ℕ) (error output : Option Text)
    → StatusFields s attempts error output
    → ((not (has_reason s) || is_some error) ≡ true)
      × ((has_reason s || not (is_some error)) ≡ true)
      × (not (was_attempted s && nat_beq attempts 0) ≡ true)
      × ((not (is_finalizing s) || is_some output) ≡ true)
      × ((may_have_output s || not (is_some output)) ≡ true)
StatusFields-tests queued attempts error output h = ground arith
StatusFields-tests in_progress attempts error output h = ground arith
StatusFields-tests finalizing attempts error output h = ground arith
StatusFields-tests completed attempts error output h = ground arith
StatusFields-tests failed attempts error output h = ground arith
StatusFields-tests skipped attempts error output h = ground arith

module _ (u : UriNormalizer) (t : TraversalTarget) where
  pub post_init-IsKept : (t' : TraversalTarget) → post_init u t ≡ ok t' → IsKept u t t'
  unfolding post_init
  post_init-IsKept t' h = ground arith

  -- A target that the constructor returns as it was is valid.
  post_init-IsValid : post_init u t ≡ ok t → IsValid u t
  unfolding post_init
  post_init-IsValid h =
      let kept : IsKept u t t = post_init-IsKept t h in
      record {
        normal = kept.uri;
        fields =
            StatusFields_lem t.status t.attempts t.last_error t.final_artifact_sha256 (ground arith)
              (ground arith) (ground arith) (ground arith) (ground arith);
        reason = ground arith;
        together = ground arith;
        sha256 = ground arith;
        links_once = rw kept.discovery_link_ids (NoDup-unique t.discovery_link_ids);
        parents_once = rw kept.parent_target_ids (NoDup-unique t.parent_target_ids);
        not_own_parent = ground arith;
      }

  -- The constructor leaves a valid target as it is.
  pub post_init-eq_of_IsValid : IsValid u t → post_init u t ≡ ok t
  unfolding post_init
  post_init-eq_of_IsValid v = ground (
    arith,
    StatusFields-tests t.status t.attempts t.last_error t.final_artifact_sha256 v.fields,
    unique_of_NoDup t.discovery_link_ids v.links_once,
    unique_of_NoDup t.parent_target_ids v.parents_once,
  )

  -- The constructor accepts a target unchanged exactly when the target is valid.
  pub post_init-IsValid_iff : (post_init u t ≡ ok t) ↔ IsValid u t
  post_init-IsValid_iff = (post_init-IsValid, post_init-eq_of_IsValid)
