-- ===== src/Identifiers.antt =====
-- domain/identifiers.py: the canonical forms of DOIs and arXiv identifiers, by which works are found.
pub mod Strips
pub mod Canonical
use tarkka.Prelude.{
  ℕ, zero, suc, ◌-◌, Bool, true, false, ◌&&◌, ◌||◌, not, Option, none, some, List, [], ◌∷◌, ◌++◌,
  leb, nat_beq, nat_eq, if◌then◌else◌, length, drop, take, any, all, contains, Result, ok, err,
  value_error, ◌>>=◌, ◌>>◌, require, Text, codes, strip, is_blank, is_empty, starts_with, ends_with,
}

-- str.lower(), and whether `\d` matches a character.
pub record Unicode : Type 0 where
  pub lower : Text → Text
  pub is_decimal : ℕ → Bool

-- A character that `[a-z]` matches if case is ignored: the letters of ASCII, and four others.
unfoldable pub is_letter : ℕ → Bool
is_letter c =
    (leb 97 c && leb c 122)
    || (leb 65 c && leb c 90)
    || nat_beq c 304
    || nat_beq c 305
    || nat_beq c 383
    || nat_beq c 8490

-- [-._;()/:a-z0-9]
unfoldable pub is_doi_character : ℕ → Bool
unfolding is_letter
is_doi_character c = is_letter c || (leb 48 c && leb c 57) || contains c (codes "-._;()/:")

abbrev pub doi_prefixes : List Text
doi_prefixes = codes "https://doi.org/" ∷ codes "http://doi.org/" ∷ codes "doi:" ∷ []

abbrev pub arxiv_prefixes : List Text
arxiv_prefixes =
    codes "https://arxiv.org/abs/"
    ∷ codes "http://arxiv.org/abs/"
    ∷ codes "https://arxiv.org/pdf/"
    ∷ codes "http://arxiv.org/pdf/"
    ∷ codes "arxiv:"
    ∷ []

-- The first of some prefixes that a text starts with.
unfoldable pub prefix_of : List Text → Text → Option Text
unfolding starts_with
prefix_of [] s = none
prefix_of (prefix ∷ prefixes) s =
    let rest = prefix_of prefixes s in if starts_with prefix s then some prefix else rest

-- The loop of normalize_doi, on fuel: each turn removes characters, so their number is enough.
unfoldable pub without_prefixes : ℕ → Text → Option Text
unfolding prefix_of strip
without_prefixes zero doi = none
without_prefixes (suc fuel) doi = elim (prefix_of doi_prefixes doi) [
  | none ↦ some doi
  | some prefix ↦ without_prefixes fuel (strip (drop (length prefix) doi))
]

module _ (unicode : Unicode) where
  open unicode use {lower, is_decimal}

  -- The digits that a text starts with, and the rest.
  unfoldable pub digits : Text → Text × Text
  digits [] = ([], [])
  digits (c ∷ cs) =
      let (run, rest) = digits cs in if is_decimal c then (c ∷ run, rest) else ([], c ∷ cs)

  abbrev is_doi_tail : Text × Text → Bool
  is_doi_tail (run, []) = false
  is_doi_tail (run, c ∷ suffix) =
      leb 4 (length run)
      && leb (length run) 9
      && nat_beq c 47
      && not (is_empty suffix)
      && all is_doi_character suffix

  -- _DOI_RE.fullmatch
  unfoldable pub is_doi : Text → Bool
  unfolding digits is_doi_character starts_with
  is_doi s = starts_with (codes "10.") s && is_doi_tail (digits (drop 3 s))

  abbrev checked_doi : Option Text → Result Text
  checked_doi none = err (value_error "out of fuel")
  checked_doi (some doi) = do
    require (not (is_empty doi)) "DOI must not be blank"
    require (is_doi doi) "invalid DOI"
    ok doi

  -- normalize_doi
  unfoldable pub normalize_doi : Text → Result Text
  unfolding without_prefixes is_doi strip
  normalize_doi value =
      let doi = lower (strip value) in checked_doi (without_prefixes (suc (length doi)) doi)

  abbrev pub value_of : Result Text → Option Text
  value_of (ok value) = some value
  value_of (err e) = none

  -- try_normalize_doi
  unfoldable pub try_normalize_doi : Text → Option Text
  unfolding normalize_doi is_blank
  try_normalize_doi value = if is_blank value then none else value_of (normalize_doi value)

  abbrev all_digits : Text → Bool
  all_digits s = all is_decimal s

  -- \d{4}\.\d{4,5}
  abbrev is_new_arxiv : Text × Text → Bool
  is_new_arxiv (run, []) = false
  is_new_arxiv (run, c ∷ rest) =
      nat_beq (length run) 4
      && nat_beq c 46
      && all_digits rest
      && leb 4 (length rest)
      && leb (length rest) 5

  -- The part before the first slash and the part after it.
  unfoldable pub at_slash : Text → Option (Text × Text)
  at_slash [] = none
  at_slash (c ∷ cs) =
      let rest = at_slash cs in
      if nat_beq c 47
      then some ([], cs)
      else elim rest [ none ↦ none | some (before, after) ↦ some (c ∷ before, after) ]

  -- [a-z.-]+/\d{7}
  abbrev is_old_arxiv : Option (Text × Text) → Bool
  is_old_arxiv none = false
  is_old_arxiv (some (archive, number)) =
      not (is_empty archive)
      && all (λ c. is_letter c || nat_beq c 46 || nat_beq c 45) archive
      && all_digits number
      && nat_beq (length number) 7

  -- _ARXIV_VERSION_RE.sub("", s), after the last character that is no digit was found
  unfoldable pub without_version : Text → Text
  without_version [] = []
  without_version (c ∷ cs) =
      let rest = without_version cs in
      if (nat_beq c 118 || nat_beq c 86) && not (is_empty cs) && all_digits cs then [] else c ∷ rest

  abbrev without_pdf : Text → Text
  without_pdf s = if ends_with (codes ".pdf") s then take (length s - 4) s else s

  -- normalize_arxiv_id
  unfoldable pub normalize_arxiv_id : Text → Result Text
  unfolding prefix_of strip ends_with without_version digits at_slash is_letter
  normalize_arxiv_id value =
      let trimmed = strip value in
      let bare : Text = elim (prefix_of arxiv_prefixes (lower trimmed)) [
        | none ↦ trimmed
        | some prefix ↦ strip (drop (length prefix) trimmed)
      ] in
      let arxiv_id = without_version (without_pdf bare) in
      require (is_new_arxiv (digits arxiv_id) || is_old_arxiv (at_slash arxiv_id))
        "invalid arXiv identifier"
      >> ok arxiv_id

  -- try_normalize_arxiv_id
  unfoldable pub try_normalize_arxiv_id : Text → Option Text
  unfolding normalize_arxiv_id is_blank
  try_normalize_arxiv_id value =
      if is_blank value then none else value_of (normalize_arxiv_id value)
