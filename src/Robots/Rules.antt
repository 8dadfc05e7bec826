-- ===== src/Robots/Rules.antt =====
-- RobotsRule, RobotsGroup and RobotsRules of domain/robots_rules.py.
pub mod Parsing
pub mod Precedence
use tarkka.Prelude.{
  ℕ, ◌+◌, max, Bool, true, false, not, ◌&&◌, ◌||◌, Option, none, some, List, [], ◌∷◌, ◌++◌, map,
  leb, nat_beq, if◌then◌else◌, all, any, filter, sum, Result, ok, err, value_error, ◌>>=◌, ◌>>◌,
  require, ◌==◌, nat_eq, list_eq, contains, without, Text, codes, strip, is_empty, ascii_lower,
  maximum,
}
use tarkka.Acquisition.Library.{Library, SplitResult}
use tarkka.Acquisition.Names.{is_alpha}
use tarkka.Robots.Patterns.{body_of, pattern_matches}
use tarkka.Robots.Canonical.{utf8_size, canonicalize_uri_path_query}

pub record RobotsRule : Type 0 where
  pub allow : Bool
  pub pattern : Text

-- A delay is finite and not negative, so it is kept as its place in the order of such floats.
pub record RobotsGroup : Type 0 where
  pub agents : List Text
  pub rules : List RobotsRule
  pub crawl_delay_seconds : Option ℕ

pub record RobotsRules : Type 0 where
  pub groups : List RobotsGroup

-- RobotsRule.specificity; the patterns that `parse` builds hold no surrogate, which has no encoding
unfoldable pub specificity : RobotsRule → ℕ
unfolding body_of utf8_size
specificity rule = sum utf8_size (without b'*' (body_of rule.pattern))

-- _PRODUCT_TOKEN_RE.fullmatch(value) is not None
unfoldable pub is_product_token : Text → Bool
unfolding is_alpha
is_product_token value =
    not (is_empty value) && all (λ c. is_alpha c || nat_beq c b'_' || nat_beq c b'-') value

-- _normalize_product_token
unfoldable pub normalize_product_token : Text → Result Text
unfolding is_product_token strip ascii_lower
normalize_product_token value = do
  require (is_product_token (strip value))
      "robots product token must contain only ASCII letters, underscores, and hyphens"
  ok (map ascii_lower (strip value))

-- groups if groups else others
abbrev or_else : List RobotsGroup → List RobotsGroup → List RobotsGroup
or_else [] others = others
or_else (group ∷ groups) others = group ∷ groups

-- RobotsRules._applicable_groups
unfoldable pub applicable_groups : RobotsRules → Text → List RobotsGroup
applicable_groups robots product_token =
    or_else (filter (λ (group : RobotsGroup). contains product_token group.agents) robots.groups)
      (filter (λ (group : RobotsGroup). contains (codes "*") group.agents) robots.groups)

-- The rules of the groups that match the target, in their order.
unfoldable pub matching_rules : List RobotsGroup → Text → List RobotsRule
unfolding pattern_matches
matching_rules [] target = []
matching_rules (group ∷ groups) target =
    filter (λ (rule : RobotsRule). pattern_matches rule.pattern target) group.rules
    ++ matching_rules groups target

-- What the rules that match decide: the most specific ones, and `allow` among equals.
unfoldable pub permits : List RobotsRule → Bool
unfolding specificity
permits [] = true
permits (rule ∷ rules) =
    let matches = rule ∷ rules in
    let most_specific = maximum specificity matches in
    any (λ (r : RobotsRule). r.allow)
      (filter (λ (r : RobotsRule). nat_beq (specificity r) most_specific) matches)

-- parsed.hostname is falsy
abbrev pub no_host : Option Text → Bool
no_host none = true
no_host (some host) = is_empty host

abbrev pub is_http : Text → Bool
is_http scheme = scheme == codes "http" || scheme == codes "https"

-- RobotsRules.can_fetch behind the split of the URI.
unfoldable pub can_fetch_split : RobotsRules → Text → SplitResult → Result Bool
unfolding ascii_lower applicable_groups matching_rules permits canonicalize_uri_path_query
can_fetch_split robots token parsed = do
  require (is_http (map ascii_lower parsed.scheme) && not (no_host parsed.hostname))
      "robots target URI must be absolute HTTP(S)"
  if parsed.path == codes "/robots.txt" && is_empty parsed.query then ok true else do
    target ←
        canonicalize_uri_path_query (if is_empty parsed.path then codes "/" else parsed.path)
          parsed.query
    ok (permits (matching_rules (applicable_groups robots token) target))

abbrev pub split_or_raise : Option SplitResult → Result SplitResult
split_or_raise none = err (value_error "Invalid URL")
split_or_raise (some parsed) = ok parsed

-- RobotsRules.can_fetch
unfoldable pub can_fetch : Library → RobotsRules → Text → Text → Result Bool
unfolding normalize_product_token can_fetch_split
can_fetch py robots target_uri product_token = do
  token ← normalize_product_token product_token
  parsed ← split_or_raise (py.urlsplit target_uri)
  can_fetch_split robots token parsed

-- max of the delays that are there, if any is
abbrev pub strictest : Option ℕ → Option ℕ → Option ℕ
strictest none other = other
strictest (some delay) none = some delay
strictest (some delay) (some other) = some (max delay other)

abbrev pub strictest_of : List RobotsGroup → Option ℕ
strictest_of [] = none
strictest_of (group ∷ groups) = strictest group.crawl_delay_seconds (strictest_of groups)

-- RobotsRules.crawl_delay
unfoldable pub crawl_delay : RobotsRules → Text → Result (Option ℕ)
unfolding normalize_product_token applicable_groups
crawl_delay robots product_token = do
  token ← normalize_product_token product_token
  ok (strictest_of (applicable_groups robots token))
