-- ===== src/Acquisition/Names.antt =====
-- `_normalize_scheme`, `_normalize_domain` and the allowlist test of domain/resource_acquisition.py.
pub mod Labels
use tarkka.Prelude.{
  ℕ, ◌+◌, String, ◌≡◌, refl, Bool, true, false, not, ◌&&◌, ◌||◌, Option, none, some, List, [], ◌∷◌,
  map, arith, leb, ltb, nat_beq, if◌then◌else◌, length, all, any, Result, ok, err, value_error,
  ◌>>=◌, ◌>>◌, require, ◌==◌, nat_eq, list_eq, contains, Text, strip, is_blank, is_empty, rstrip_of,
  ascii_lower, starts_with, ends_with, split_on,
}
use tarkka.Acquisition.Library.{Library, SplitResult, IpAddress}

unfoldable pub is_alpha : ℕ → Bool
is_alpha c = (leb 65 c && leb c 90) || (leb 97 c && leb c 122)

unfoldable pub is_digit : ℕ → Bool
is_digit c = leb 48 c && leb c 57

-- [A-Za-z0-9+.-]
unfoldable pub is_scheme_character : ℕ → Bool
unfolding is_alpha is_digit
is_scheme_character c =
    is_alpha c || is_digit c || nat_beq c b'+' || nat_beq c b'.' || nat_beq c b'-'

-- _SCHEME_RE.fullmatch(value) is not None
unfoldable pub matches_scheme : Text → Bool
unfolding is_scheme_character
matches_scheme [] = false
matches_scheme (c ∷ cs) = is_alpha c && all is_scheme_character cs

unfoldable pub normalize_scheme : Text → Result Text
unfolding is_blank strip rstrip_of matches_scheme ascii_lower
normalize_scheme value = do
  require (not (is_blank value)) "allowed URI schemes must be non-blank strings"
  let normalized = rstrip_of (nat_beq b':') (strip value)
  require (matches_scheme normalized) "allowed URI schemes must be valid URI schemes"
  ok (map ascii_lower normalized)

-- One label of an ASCII host name.
unfoldable pub valid_label : Text → Bool
unfolding is_alpha is_digit starts_with ends_with
valid_label label =
    not (is_empty label)
    && leb (length label) 63
    && not (starts_with (b'-' ∷ []) label)
    && not (ends_with (b'-' ∷ []) label)
    && all (λ c. is_alpha c || is_digit c || nat_beq c b'-') label

-- candidate.encode("idna").decode("ascii").lower(), and the test of its labels
unfoldable pub checked_labels : Option Text → Result Text
unfolding valid_label split_on ascii_lower
checked_labels none = err (value_error "allowed domains must be valid DNS hostnames")
checked_labels (some encoded) = do
  let normalized = map ascii_lower encoded
  require (all valid_label (split_on b'.' normalized)) "allowed domains must be valid DNS hostnames"
  ok normalized

abbrev pub is_none {ℓ} : {A : Type ℓ} → Option A → Bool
is_none none = true
is_none (some a) = false

-- "://" holds both of the other two characters that are looked for.
unfoldable pub normalize_domain : Library → Text → Result Text
unfolding is_blank strip rstrip_of checked_labels
normalize_domain py value = do
  require (not (is_blank value)) "allowed domains must be non-blank strings"
  let candidate = rstrip_of (nat_beq b'.') (strip value)
  require (not (contains b'/' candidate || contains b':' candidate))
      "allowed domains must be bare DNS hostnames"
  require (is_none (py.ip_address candidate))
      "allowed domains must be DNS hostnames, not IP addresses"
  checked_labels (py.encode_idna candidate)

-- domain == allowed or domain.endswith(f".{allowed}")
unfoldable pub matches_domain : Text → Text → Bool
unfolding ends_with
matches_domain domain allowed = domain == allowed || ends_with (b'.' ∷ allowed) domain
