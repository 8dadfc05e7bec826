-- ===== src/Acquisition/Policy.antt =====
-- ResourceAcquisitionPolicy of domain/resource_acquisition.py. A value is what `post_init` accepts:
-- counts are natural numbers, and seconds are the places of finite non-negative floats.
pub mod Scope
use tarkka.Prelude.{
  ℕ, zero, suc, Bool, true, false, not, ◌&&◌, ◌||◌, Option, none, some, List, [], ◌∷◌, ltb, leb,
  if◌then◌else◌, any, ℤ, pos, negsuc, Float, nan, infinite, negative, finite,
  require_non_negative_int, require_finite_non_negative, Result, ok, err, value_error, ◌>>=◌, ◌>>◌,
  require, contains, list_eq, nat_eq, Text, is_blank, is_empty, map, ascii_lower,
}
use tarkka.Acquisition.Library.{Library, SplitResult, IpAddress}
use tarkka.Acquisition.Names.{normalize_scheme, normalize_domain, matches_domain, is_none}

-- The arguments of the constructor, before they are checked.
pub record PolicyArguments : Type 0 where
  pub max_depth : ℤ
  pub max_requests : ℤ
  pub max_bytes : ℤ
  pub max_retries : ℤ
  pub max_redirects : ℤ
  pub max_elapsed_seconds : Option Float
  pub min_request_interval_seconds : Float
  pub allowed_schemes : List Text
  pub allowed_domains : List Text
  pub allow_private_addresses : Bool

pub record ResourceAcquisitionPolicy : Type 0 where
  pub max_depth : ℕ
  pub max_requests : ℕ
  pub max_bytes : ℕ
  pub max_retries : ℕ
  pub max_redirects : ℕ
  pub max_elapsed_seconds : Option ℕ
  pub min_request_interval_seconds : ℕ
  pub allowed_schemes : List Text
  pub allowed_domains : List Text
  pub allow_private_addresses : Bool

unfoldable pub elapsed_limit : Option Float → Result (Option ℕ)
elapsed_limit none = ok none
elapsed_limit (some (finite (suc n))) = ok (some (suc n))
elapsed_limit (some _) =
    err (value_error "resource acquisition max_elapsed_seconds must be finite and positive")

unfoldable pub normalize_each : (Text → Result Text) → List Text → Result (List Text)
normalize_each f [] = ok []
normalize_each f (x ∷ xs) = do y ← f x; ys ← normalize_each f xs; ok (y ∷ ys)

abbrev pub is_nil {ℓ} : {A : Type ℓ} → List A → Bool
is_nil [] = true
is_nil (x ∷ xs) = false

-- ResourceAcquisitionPolicy.__post_init__. The two sets are lists of their members.
unfoldable pub post_init : Library → PolicyArguments → Result ResourceAcquisitionPolicy
unfolding elapsed_limit normalize_each
post_init py a = do
  max_depth ← require_non_negative_int a.max_depth "resource acquisition max_depth"
  max_requests ← require_non_negative_int a.max_requests "resource acquisition max_requests"
  max_bytes ← require_non_negative_int a.max_bytes "resource acquisition max_bytes"
  max_retries ← require_non_negative_int a.max_retries "resource acquisition max_retries"
  max_redirects ← require_non_negative_int a.max_redirects "resource acquisition max_redirects"
  max_elapsed_seconds ← elapsed_limit a.max_elapsed_seconds
  interval ←
      require_finite_non_negative a.min_request_interval_seconds
        "resource acquisition min_request_interval_seconds must be finite and non-negative"
  schemes ← normalize_each normalize_scheme a.allowed_schemes
  require (not (is_nil schemes)) "resource acquisition must allow at least one URI scheme"
  domains ← normalize_each (normalize_domain py) a.allowed_domains
  ok (record {
    max_depth = max_depth;
    max_requests = max_requests;
    max_bytes = max_bytes;
    max_retries = max_retries;
    max_redirects = max_redirects;
    max_elapsed_seconds = max_elapsed_seconds;
    min_request_interval_seconds = interval;
    allowed_schemes = schemes;
    allowed_domains = domains;
    allow_private_addresses = a.allow_private_addresses;
  })

-- The last test of `allows_uri`; a host that is no domain name was caught as a ValueError.
unfoldable pub allows_domain : ResourceAcquisitionPolicy → Result Text → Bool
allows_domain p (ok domain) = any (matches_domain domain) p.allowed_domains
allows_domain p (err _) = false

-- The tests of `allows_uri` behind the split, in their order.
unfoldable pub allows_parsed :
    Library → ResourceAcquisitionPolicy → SplitResult → Option Text → Bool
unfolding allows_domain ascii_lower
allows_parsed py p parsed none = false
allows_parsed py p parsed (some hostname) =
    if not (contains (map ascii_lower parsed.scheme) p.allowed_schemes)
    then false
    else if not (is_none parsed.username) || not (is_none parsed.password)
    then false
    else if is_nil p.allowed_domains
    then false
    else if not (is_none (py.ip_address hostname))
    then false
    else allows_domain p (normalize_domain py hostname)

unfoldable pub allows_split : Library → ResourceAcquisitionPolicy → Option SplitResult → Bool
unfolding allows_parsed
allows_split py p none = false
allows_split py p (some parsed) = allows_parsed py p parsed parsed.hostname

-- ResourceAcquisitionPolicy.allows_uri
unfoldable pub allows_uri : Library → ResourceAcquisitionPolicy → Text → Bool
unfolding allows_split
allows_uri py p uri = if is_blank uri then false else allows_split py p (py.urlsplit uri)

-- ResourceAcquisitionPolicy.allows_resolved_address
unfoldable pub allows_resolved_address : Library → ResourceAcquisitionPolicy → Text → Bool
allows_resolved_address py p address = elim (py.ip_address address) [
  | none ↦ false
  | some parsed ↦
      if parsed.is_multicast || parsed.is_unspecified || parsed.is_link_local || parsed.is_reserved
      then false
      else if p.allow_private_addresses
      then parsed.is_global || parsed.is_private || parsed.is_loopback
      else parsed.is_global
]

-- ResourceAcquisitionPolicy.allows_retry
unfoldable pub allows_retry : ResourceAcquisitionPolicy → ℤ → Result Bool
allows_retry p retries_used = do
  used ← require_non_negative_int retries_used "retries_used must be a non-negative integer"
  ok (ltb used p.max_retries)
