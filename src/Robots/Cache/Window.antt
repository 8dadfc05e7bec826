-- ===== src/Robots/Cache/Window.antt =====
-- How long a cached robots file is used.
use tarkka.Prelude.{
  ℕ, ◌+◌, ◌-◌, ◌≤◌, ◌<◌, ◌≡◌, ◌⊎◌, ltb, leb, true, arith, ok, on_ok, on_require, ◌&&◌, ◌==◌, nat_eq,
  list_eq, codes, is_empty,
}
use tarkka.Acquisition.Library.{Library}
use tarkka.Robots.Rules.{split_or_raise}
use tarkka.Robots.Cache.{
  RobotsCacheEntry, max_cache_age, encodable, fits, post_init, is_fresh,
  may_reuse_after_unreachable, is_success,
}

-- The fetch is not in the future and less than 24 hours old.
abbrev pub IsInWindow : RobotsCacheEntry → ℕ → Type 0
IsInWindow e now = (e.fetched_at ≤ now) × (now < e.fetched_at + max_cache_age)

lifetime :
    (py : Library) (e : RobotsCacheEntry) {e' : RobotsCacheEntry}
    → post_init py e ≡ ok e'
    → (e.fetched_at < e.expires_at) × (e.expires_at ≤ e.fetched_at + max_cache_age)
unfolding post_init
lifetime py e h = on_ok (split_or_raise (py.urlsplit e.result.robots_uri)) _ h λ parsed s h1.
    on_require
      (parsed.path == codes "/robots.txt" && is_empty parsed.query && is_empty parsed.fragment) _ _
      h1
      λ t1 h2. on_require (encodable e.result.content) _ _ h2 λ t2 h3.
        on_require (fits e.result.content) _ _ h3 λ t3 h4.
          on_require (ltb e.fetched_at e.expires_at) _ _ h4 λ t4 h5.
            on_require (leb (e.expires_at - e.fetched_at) max_cache_age) _ _ h5
              λ t5 h6. ground arith

-- An entry that the constructor accepts is used only while its fetch is not in the future and less
-- than 24 hours old, whether it is fresh or backs up an unreachable refresh. A successful one that is
-- fresh may back up an unreachable refresh, and one that may do so and is not fresh has expired.
pub used-IsInWindow :
    (py : Library) (e : RobotsCacheEntry) (now : ℕ)
    → post_init py e ≡ ok e
    → (is_fresh e now ≡ true → IsInWindow e now)
      × (may_reuse_after_unreachable e now ≡ true → IsInWindow e now)
      × (is_fresh e now ≡ true
          → is_success e.result.outcome ≡ true
          → may_reuse_after_unreachable e now ≡ true)
      × (may_reuse_after_unreachable e now ≡ true → (is_fresh e now ≡ true) ⊎ (e.expires_at ≤ now))
unfolding is_fresh may_reuse_after_unreachable
used-IsInWindow py e now h =
    let l = lifetime py e h in (ground arith, ground arith, ground arith, ground arith)
