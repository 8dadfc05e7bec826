-- ===== src/Robots/Canonical.antt =====
-- The percent-encoding of rule patterns and targets in domain/robots_rules.py.
use tarkka.Prelude.{
  ℕ, ◌+◌, ◌-◌, ◌*◌, ◌/◌, ◌%◌, Bool, true, false, not, ◌&&◌, ◌||◌, List, [], ◌∷◌, ◌++◌, leb, ltb,
  nat_beq, if◌then◌else◌, any, Result, ok, ◌>>=◌, ◌>>◌, require, Text, is_empty, ends_with, nat_eq,
}
use tarkka.Robots.Patterns.{body_of}

-- A lone surrogate has no encoding.
unfoldable pub is_surrogate : ℕ → Bool
is_surrogate c = leb 55296 c && leb c 57343

-- len(c.encode("utf-8"))
unfoldable pub utf8_size : ℕ → ℕ
utf8_size c = if ltb c 128 then 1 else if ltb c 2048 then 2 else if ltb c 65536 then 3 else 4

-- c.encode("utf-8")
unfoldable pub utf8_bytes : ℕ → List ℕ
utf8_bytes c =
    if ltb c 128
    then c ∷ []
    else if ltb c 2048
    then (192 + c / 64) ∷ (128 + c % 64) ∷ []
    else if ltb c 65536
    then (224 + c / 4096) ∷ (128 + (c / 64) % 64) ∷ (128 + c % 64) ∷ []
    else (240 + c / 262144) ∷ (128 + (c / 4096) % 64) ∷ (128 + (c / 64) % 64) ∷ (128 + c % 64) ∷ []

unfoldable pub hex_digit : ℕ → ℕ
hex_digit n = if ltb n 10 then 48 + n else 55 + n

unfoldable pub percent_encode : List ℕ → Text
unfolding hex_digit
percent_encode [] = []
percent_encode (byte ∷ bytes) =
    b'%' ∷ hex_digit (byte / 16) ∷ hex_digit (byte % 16) ∷ percent_encode bytes

-- _HEX
unfoldable pub is_hex : ℕ → Bool
is_hex c = (leb 48 c && leb c 57) || (leb 65 c && leb c 70) || (leb 97 c && leb c 102)

-- int(c, 16)
unfoldable pub hex_value : ℕ → ℕ
hex_value c = if leb c 57 then c - 48 else if leb c 70 then c - 55 else c - 87

-- The upper case of a character of _HEX
unfoldable pub hex_upper : ℕ → ℕ
hex_upper c = if leb 97 c then c - 32 else c

-- _UNRESERVED
unfoldable pub is_unreserved : ℕ → Bool
is_unreserved c =
    (leb 65 c && leb c 90)
    || (leb 97 c && leb c 122)
    || (leb 48 c && leb c 57)
    || nat_beq c b'-'
    || nat_beq c b'.'
    || nat_beq c b'_'
    || nat_beq c b'~'

-- An escape is decoded if it stands for an unreserved character, and in upper case otherwise.
unfoldable pub escape : ℕ → ℕ → Text
unfolding hex_value hex_upper is_unreserved
escape h l =
    let decoded = 16 * hex_value h + hex_value l in
    if is_unreserved decoded then decoded ∷ [] else b'%' ∷ hex_upper h ∷ hex_upper l ∷ []

-- A character that begins no escape.
unfoldable pub encode_one : ℕ → Result Text
unfolding utf8_bytes percent_encode is_surrogate
encode_one c = do
  require (not (is_surrogate c)) "surrogates not allowed"
  ok (if ltb 127 c then percent_encode (utf8_bytes c) else c ∷ [])

module _ (preserve_wildcard : Bool) where
  -- _canonicalize_component
  unfoldable pub canonicalize_component : Text → Result Text
  unfolding is_hex escape encode_one
  canonicalize_component [] = ok []
  canonicalize_component (c ∷ h ∷ l ∷ cs) = elim (preserve_wildcard && nat_beq c b'*') [
    | true ↦ do rest ← canonicalize_component (h ∷ l ∷ cs); ok (b'*' ∷ rest)
    | false ↦ elim (nat_beq c b'%' && is_hex h && is_hex l) [
      | true ↦ do rest ← canonicalize_component cs; ok (escape h l ++ rest)
      | false ↦ do one ← encode_one c; rest ← canonicalize_component (h ∷ l ∷ cs); ok (one ++ rest)
    ]
  ]
  canonicalize_component (c ∷ cs) =
      if preserve_wildcard && nat_beq c b'*'
      then (do rest ← canonicalize_component cs; ok (b'*' ∷ rest))
      else do one ← encode_one c; rest ← canonicalize_component cs; ok (one ++ rest)

-- _canonicalize_rule_pattern
unfoldable pub canonicalize_rule_pattern : Text → Result Text
unfolding body_of ends_with canonicalize_component
canonicalize_rule_pattern value = do
  let body = body_of value
  require (not (is_empty body)) "robots rule pattern must not be empty"
  require (not (any (λ c. ltb c 33 || nat_beq c b'#') body))
      "robots rule pattern contains invalid characters"
  canonical ← canonicalize_component true body
  ok (canonical ++ (if ends_with (b'$' ∷ []) value then b'$' ∷ [] else []))

-- _canonicalize_uri_path_query
unfoldable pub canonicalize_uri_path_query : Text → Text → Result Text
unfolding canonicalize_component
canonicalize_uri_path_query path query =
    canonicalize_component false (path ++ (if is_empty query then [] else b'?' ∷ query))
