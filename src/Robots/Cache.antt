-- ===== src/Robots/Cache.antt =====
-- RobotsCacheEntry of domain/robots_cache.py. Times are aware and count microseconds.
pub mod Window
use tarkka.Prelude.{
  ℕ, ◌+◌, ◌-◌, Bool, true, false, not, ◌&&◌, ◌||◌, Option, none, some, List, [], leb, ltb, nat_beq,
  all, sum, length, Result, ok, ◌>>=◌, ◌>>◌, require, ◌==◌, nat_eq, list_eq, Text, codes, is_empty,
}
use tarkka.Acquisition.Library.{Library, SplitResult}
use tarkka.Traversal.Target.{is_some}
use tarkka.Robots.Canonical.{utf8_size, is_surrogate}
use tarkka.Robots.Rules.{split_or_raise}
use tarkka.Robots.Rules.Parsing.{max_robots_bytes}
use tarkka.Robots.Access.{RobotsFetchResult, RobotsFetchOutcome, success}

pub record RobotsCacheEntry : Type 0 where
  pub result : RobotsFetchResult
  pub fetched_at : ℕ
  pub expires_at : ℕ
  pub source_observation_id : Option ℕ
  pub artifact_sha256 : Option Text

-- _MAX_CACHE_AGE: 24 hours
abbrev pub max_cache_age : ℕ
max_cache_age = 86400000000

abbrev pub fits : Option Text → Bool
fits none = true
fits (some content) = leb (sum utf8_size content) max_robots_bytes

abbrev pub encodable : Option Text → Bool
encodable none = true
encodable (some content) = all (λ c. not (is_surrogate c)) content

-- 64 characters of 0123456789abcdef
abbrev pub lowercase_sha256 : Option Text → Bool
lowercase_sha256 none = true
lowercase_sha256 (some digest) =
    nat_beq (length digest) 64
    && all (λ c. (leb 48 c && leb c 57) || (leb 97 c && leb c 102)) digest

-- RobotsCacheEntry.__post_init__
unfoldable pub post_init : Library → RobotsCacheEntry → Result RobotsCacheEntry
unfolding utf8_size is_surrogate
post_init py e = do
  parsed ← split_or_raise (py.urlsplit e.result.robots_uri)
  require (parsed.path == codes "/robots.txt" && is_empty parsed.query && is_empty parsed.fragment)
      "robots cache URI must be the canonical /robots.txt resource"
  require (encodable e.result.content) "robots cache content must be valid UTF-8 text"
  require (fits e.result.content) "robots cache content exceeds the 512 KiB limit"
  require (ltb e.fetched_at e.expires_at) "robots cache expiry must be after fetch time"
  require (leb (e.expires_at - e.fetched_at) max_cache_age)
      "robots cache lifetime must not exceed 24 hours"
  require (lowercase_sha256 e.artifact_sha256)
      "robots cache artifact_sha256 must be lowercase SHA-256"
  require
      ((is_some e.source_observation_id && is_some e.artifact_sha256)
        || (not (is_some e.source_observation_id) && not (is_some e.artifact_sha256)))
      "robots cache HTTP provenance identifiers must be supplied together"
  ok e

-- RobotsCacheEntry.is_fresh
unfoldable pub is_fresh : RobotsCacheEntry → ℕ → Bool
is_fresh e now = leb e.fetched_at now && ltb now e.expires_at

abbrev pub is_success : RobotsFetchOutcome → Bool
is_success success = true
is_success _ = false

-- RobotsCacheEntry.may_reuse_after_unreachable
unfoldable pub may_reuse_after_unreachable : RobotsCacheEntry → ℕ → Bool
may_reuse_after_unreachable e now =
    is_success e.result.outcome && leb e.fetched_at now && ltb now (e.fetched_at + max_cache_age)
