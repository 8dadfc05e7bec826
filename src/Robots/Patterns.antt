-- ===== src/Robots/Patterns.antt =====
-- `_pattern_matches` of domain/robots_rules.py, with the searches of `str` that it uses.
pub mod Searches
pub mod Wildcards
pub mod Meaning
use tarkka.Prelude.{
  ℕ, suc, ◌+◌, Bool, true, false, not, ◌&&◌, ◌||◌, Option, none, some, List, [], ◌∷◌, leb, nat_beq,
  if◌then◌else◌, length, drop, Text, is_empty, starts_with, ends_with, split_on,
}

-- The offset of the first occurrence of `part`.
unfoldable pub first_in : Text → Text → Option ℕ
unfolding starts_with
first_in part [] = if is_empty part then some 0 else none
first_in part (c ∷ cs) =
    let later = first_in part cs in
    if starts_with part (c ∷ cs) then some 0 else elim later [ none ↦ none | some i ↦ some (suc i) ]

-- target.find(part, position)
unfoldable pub find_from : Text → ℕ → Text → Option ℕ
unfolding first_in
find_from part position target = elim (first_in part (drop position target)) [
  | none ↦ none
  | some i ↦ some (position + i)
]

-- target.rfind(part)
unfoldable pub rfind : Text → Text → Option ℕ
unfolding starts_with
rfind part [] = if is_empty part then some 0 else none
rfind part (c ∷ cs) = elim (rfind part cs) [
  | some i ↦ some (suc i)
  | none ↦ if starts_with part (c ∷ cs) then some 0 else none
]

-- `none` stands for -1, which no position is below.
abbrev pub at_or_after : ℕ → Option ℕ → Bool
at_or_after position none = false
at_or_after position (some i) = leb position i

-- s[:-1]
unfoldable pub drop_last : Text → Text
drop_last [] = []
drop_last (c ∷ []) = []
drop_last (c ∷ d ∷ cs) = c ∷ drop_last (d ∷ cs)

abbrev pub is_last : List Text → Bool
is_last [] = true
is_last (part ∷ parts) = false

module _ (anchored open_ended : Bool) (target : Text) where
  -- The loop over `remaining`; `open_ended` is body.endswith("*").
  unfoldable pub match_parts : List Text → ℕ → Bool
  unfolding ends_with rfind find_from
  match_parts [] position = not anchored || open_ended || nat_beq position (length target)
  match_parts ([] ∷ rest) position = match_parts rest position
  match_parts ((c ∷ cs) ∷ rest) position =
      if anchored && is_last rest && not open_ended
      then ends_with (c ∷ cs) target && at_or_after position (rfind (c ∷ cs) target)
      else elim (find_from (c ∷ cs) position target) [
        | none ↦ false
        | some found ↦ match_parts rest (found + length (c ∷ cs))
      ]

  -- `parts` as body.split("*") gives them, so that there is a first one.
  unfoldable pub match_body : Text → List Text → Bool
  unfolding match_parts starts_with
  match_body body [] = false
  match_body body (first ∷ rest) =
      if starts_with (b'*' ∷ []) body
      then match_parts (first ∷ rest) 0
      else starts_with first target && match_parts rest (length first)

-- pattern[:-1] if pattern.endswith("$") else pattern
unfoldable pub body_of : Text → Text
unfolding ends_with drop_last
body_of pattern = if ends_with (b'$' ∷ []) pattern then drop_last pattern else pattern

-- _pattern_matches
unfoldable pub pattern_matches : Text → Text → Bool
unfolding match_body body_of split_on ends_with
pattern_matches pattern target =
    let body = body_of pattern in
    match_body (ends_with (b'$' ∷ []) pattern) (ends_with (b'*' ∷ []) body) target body
      (split_on b'*' body)
