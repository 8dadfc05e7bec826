-- ===== src/Traversal/Target.antt =====
-- TraversalStatus and TraversalTarget of domain/traversal.py. A UUID is its 128-bit number.
pub mod Validity
use tarkka.Prelude.{
  ℕ, ◌≡◌, Bool, true, false, not, ◌&&◌, ◌||◌, Option, none, some, List, [], ◌∷◌, ◌++◌, leb, ltb,
  nat_beq, if◌then◌else◌, length, all, Result, ok, err, value_error, ◌>>=◌, ◌>>◌, require, contains,
  nat_eq, unique, Text, is_blank, String,
}

-- `normalize_durable_http_uri` of domain/http_observations.py: it gives a URI in a normal form, or
-- raises. Nothing is asked of the form, which a second call may change.
pub record UriNormalizer : Type 0 where
  pub normalize : Text → Result Text

pub data TraversalStatus : Type 0 where
  queued in_progress finalizing completed failed skipped : TraversalStatus

pub record TraversalTarget : Type 0 where
  pub target_id : ℕ
  pub uri : Text
  pub depth : ℕ
  pub status : TraversalStatus
  pub attempts : ℕ
  pub bytes_acquired : ℕ
  pub discovery_link_ids : List ℕ
  pub parent_target_ids : List ℕ
  pub last_error : Option Text
  pub final_artifact_sha256 : Option Text
  pub final_observation_id : Option ℕ

abbrev pub is_some {ℓ} : {A : Type ℓ} → Option A → Bool
is_some none = false
is_some (some a) = true

abbrev pub is_queued : TraversalStatus → Bool
is_queued queued = true
is_queued _ = false

abbrev pub is_in_progress : TraversalStatus → Bool
is_in_progress in_progress = true
is_in_progress _ = false

abbrev pub is_finalizing : TraversalStatus → Bool
is_finalizing finalizing = true
is_finalizing _ = false

abbrev pub is_failed : TraversalStatus → Bool
is_failed failed = true
is_failed _ = false

-- status in {FAILED, SKIPPED}
abbrev pub has_reason : TraversalStatus → Bool
has_reason failed = true
has_reason skipped = true
has_reason _ = false

-- status in {IN_PROGRESS, FINALIZING, COMPLETED, FAILED}
abbrev pub was_attempted : TraversalStatus → Bool
was_attempted queued = false
was_attempted skipped = false
was_attempted _ = true

-- status in {FINALIZING, COMPLETED}
abbrev pub may_have_output : TraversalStatus → Bool
may_have_output finalizing = true
may_have_output completed = true
may_have_output _ = false

-- last_error is None or last_error.strip()
abbrev pub error_is_valid : Option Text → Bool
error_is_valid none = true
error_is_valid (some message) = not (is_blank message)

-- character in "0123456789abcdef", for a character of value.lower()
unfoldable pub is_hexadecimal : ℕ → Bool
is_hexadecimal c = (leb 48 c && leb c 57) || (leb 97 c && leb c 102) || (leb 65 c && leb c 70)

-- the test of _require_sha256
unfoldable pub is_sha256 : Text → Bool
unfolding is_hexadecimal
is_sha256 value = nat_beq (length value) 64 && all is_hexadecimal value

abbrev pub sha256_is_valid : Option Text → Bool
sha256_is_valid none = true
sha256_is_valid (some value) = is_sha256 value

abbrev pub same : Bool → Bool → Bool
same true b = b
same false b = not b

-- TraversalTarget.__post_init__; `replace` runs it again on the changed fields.
unfoldable pub post_init : UriNormalizer → TraversalTarget → Result TraversalTarget
post_init u t = do
  normalized_uri ← u.normalize t.uri
  require (error_is_valid t.last_error)
      "traversal target last_error must be non-blank when provided"
  require (not (has_reason t.status) || is_some t.last_error)
      "failed or skipped traversal targets require a reason"
  require (has_reason t.status || not (is_some t.last_error))
      "only failed or skipped traversal targets may carry last_error"
  require (not (was_attempted t.status && nat_beq t.attempts 0))
      "attempted traversal target states require at least one attempt"
  require (same (is_some t.final_artifact_sha256) (is_some t.final_observation_id))
      "traversal finalization identifiers must be provided together"
  require (not (is_finalizing t.status) || is_some t.final_artifact_sha256)
      "finalizing traversal targets require output identifiers"
  require (may_have_output t.status || not (is_some t.final_artifact_sha256))
      "only finalizing or completed targets may carry output identifiers"
  require (sha256_is_valid t.final_artifact_sha256)
      "traversal artifact SHA-256 must be a 64-character hexadecimal string"
  let parent_ids = unique t.parent_target_ids
  require (not (contains t.target_id parent_ids)) "traversal target cannot be its own parent"
  ok (record t {
    uri = normalized_uri;
    discovery_link_ids = unique t.discovery_link_ids;
    parent_target_ids = parent_ids;
  })
