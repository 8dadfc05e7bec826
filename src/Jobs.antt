-- ===== src/Jobs.antt =====
-- Research jobs and quotas of application/scale.py.
pub mod Store
pub mod Service
pub mod Exclusive
pub mod Calls
pub mod Updates
pub mod Held
use tarkka.Prelude.{
  ℕ, ◌≡◌, ◌↔◌, Bool, true, false, not, Option, none, some, List, [], ◌∷◌, leb, if◌then◌else◌, ℤ,
  pos, negsuc, Result, ok, err, Error, value_error, ◌>>=◌, ◌>>◌, require, require_non_negative_int,
  Text, is_blank,
}

pub data JobKind : Type 0 where
  ingest extract index compile : JobKind

pub data JobStatus : Type 0 where
  queued running completed failed : JobStatus

abbrev pub is_failed : JobStatus → Bool
is_failed failed = true
is_failed _ = false

abbrev pub is_running : JobStatus → Bool
is_running running = true
is_running _ = false

-- A checkpoint maps strings to JSON values, which no code here looks into.
abbrev pub JobCheckpoint : Type 0
JobCheckpoint = List (Text × Text)

pub record ResearchJob : Type 0 where
  pub job_id : ℕ
  pub kind : JobKind
  pub input_digest : Text
  pub configuration_fingerprint : Text
  pub library_id : Option ℕ
  pub workspace_id : Option ℕ
  pub checkpoint : JobCheckpoint
  pub status : JobStatus
  pub created_at : ℕ
  pub updated_at : ℕ

-- ResearchJob.__post_init__
unfoldable pub post_init : ResearchJob → Result ResearchJob
unfolding is_blank
post_init job = do
  require (not (is_blank job.input_digest)) "research job input_digest must not be blank"
  require (not (is_blank job.configuration_fingerprint))
      "research job configuration_fingerprint must not be blank"
  ok job

pub record JobClaim : Type 0 where
  pub job : ResearchJob
  pub acquired : Bool

pub record ScaleQuota : Type 0 where
  pub wallet_tokens : ℕ
  pub expansions : ℕ
  pub provider_calls : ℕ
  pub bytes_stored : ℕ
  pub crawl_depth : ℕ

-- ScaleQuota.__post_init__
unfoldable pub scale_quota : ℤ → ℤ → ℤ → ℤ → ℤ → Result ScaleQuota
scale_quota wallet_tokens expansions provider_calls bytes_stored crawl_depth = do
  tokens ←
      require_non_negative_int wallet_tokens
        "scale quota wallet_tokens must be a non-negative integer"
  more ← require_non_negative_int expansions "scale quota expansions must be a non-negative integer"
  calls ←
      require_non_negative_int provider_calls
        "scale quota provider_calls must be a non-negative integer"
  bytes ←
      require_non_negative_int bytes_stored
        "scale quota bytes_stored must be a non-negative integer"
  depth ←
      require_non_negative_int crawl_depth "scale quota crawl_depth must be a non-negative integer"
  ok (record {
    wallet_tokens = tokens;
    expansions = more;
    provider_calls = calls;
    bytes_stored = bytes;
    crawl_depth = depth;
  })

-- _require; the ScaleQuotaExceededError is a ValueError
unfoldable pub require_within : ℤ → ℕ → Result (Unit {0})
require_within used limit = do
  count ← require_non_negative_int used "scale quota usage must be a non-negative integer"
  require (leb count limit) "scale quota exceeded"
