-- ===== src/Identifiers/Canonical.antt =====
-- The canonical form of a DOI: the loop of normalize_doi ends, and its result is left alone.
use tarkka.Prelude.{
  ℕ, zero, suc, ◌<◌, ◌≡◌, refl, ap, sym, subst, ◌∙◌, inl, inr, ◌⊎◌, true, false, none, some, List,
  [], ◌∷◌, ◌++◌, nat_beq, nat_beq_iff, length, drop, all, All, All-mono, All-append, arith,
  Bool-cases, Option-cases, Result, ok, err, value_error, Text, strip, is_empty, starts_with,
  is_space, nat_eq,
}
use tarkka.Identifiers.{
  Unicode, is_letter, is_doi_character, doi_prefixes, prefix_of, without_prefixes, digits, is_doi,
  normalize_doi, is_doi_tail, checked_doi,
}
use tarkka.Identifiers.Strips.{
  Infix, Infix-refl, Infix-trans, strip-Infix, strip_visible, drop-Infix, length-Infix,
}

-- What str.lower() and `\d` are relied on for: a part of a lower-case text is in lower case, and no
-- decimal digit is white space.
pub record IsUnicode (unicode : Unicode) : Type 0 where
  pub settled : (s part : Text) → Infix part (unicode.lower s) → unicode.lower part ≡ part
  pub visible : (c : ℕ) → unicode.is_decimal c ≡ true → is_space c ≡ false

doi_character_visible : (c : ℕ) → is_doi_character c ≡ true → is_space c ≡ false
unfolding is_doi_character is_letter is_space
doi_character_visible c h = ground arith

prefix_starts :
    (prefixes : List Text) (s prefix : Text)
    → All (λ (q : Text). 0 < length q) prefixes
    → prefix_of prefixes s ≡ some prefix
    → (0 < length prefix) × (starts_with prefix s ≡ true)
unfolding prefix_of
prefix_starts [] s prefix some_length h = absurd (ground (arith, h))
prefix_starts (q ∷ qs) s prefix some_length h = elim (Bool-cases (starts_with q s)) [
  | inl starts ↦
      let e : some q ≡ some prefix = rw starts at h in
      let same : q ≡ prefix = cc in
      subst (λ (t : Text). (0 < length t) × (starts_with t s ≡ true)) same (some_length.0, starts)
  | inr other ↦ prefix_starts qs s prefix some_length.1 (rw other at h)
]

shorter :
    (s prefix : Text)
    → 0 < length prefix
    → starts_with prefix s ≡ true
    → length (drop (length prefix) s) < length s
unfolding starts_with
shorter s [] lt h = absurd (omega arith)
shorter [] (d ∷ ds) lt h = absurd (ground (arith, h))
shorter (c ∷ cs) (d ∷ ds) lt h =
    omega (arith, length-Infix (drop (length ds) cs) cs (drop-Infix (length ds) cs))

-- With more fuel than characters the loop ends, with a part of the text.
without_prefixes_ends :
    (fuel : ℕ) (s : Text)
    → length s < fuel
    → (part : Text) × (without_prefixes fuel s ≡ some part) × Infix part s
unfolding without_prefixes
without_prefixes_ends zero s h = absurd (omega arith)
without_prefixes_ends (suc fuel) s h = elim (Option-cases (prefix_of doi_prefixes s)) [
  | inl bare ↦ (s, rw bare refl, Infix-refl s)
  | inr (prefix, found) ↦
      let (lt, starts) =
        prefix_starts doi_prefixes s prefix (omega arith, (omega arith, (omega arith, tt))) found in
      let next = drop (length prefix) s in
      let less = shorter s prefix lt starts in
      let stripped = strip-Infix next in
      let (part, e, inside) =
        without_prefixes_ends fuel (strip next)
          (omega (arith, length-Infix (strip next) next stripped)) in
      (
        part,
        rw (found, without_prefixes) e,
        Infix-trans part (strip next) s inside
            (Infix-trans (strip next) next s stripped (drop-Infix (length prefix) s)),
      )
]

module _ (unicode : Unicode) where
  open unicode use {lower, is_decimal}

  digits_split :
      (s : Text)
      → (s ≡ (digits unicode s).0 ++ (digits unicode s).1)
        × All (λ c. is_decimal c ≡ true) (digits unicode s).0
  unfolding digits
  digits_split [] = (refl, tt)
  digits_split (c ∷ cs) =
      let (e, run) = digits_split cs in
      elim (Bool-cases (is_decimal c)) [
        | inl digit ↦ rw digit (ap (λ (t : Text). c ∷ t) e, (digit, run))
        | inr other ↦ rw other (refl, tt)
      ]

  module _ (laws : IsUnicode unicode) where
    suffix_visible : (s : Text) → all is_doi_character s ≡ true → All (λ c. is_space c ≡ false) s
    suffix_visible [] h = tt
    suffix_visible (c ∷ cs) h =
        (doi_character_visible c (ground arith), suffix_visible cs (ground arith))

    tail_visible :
        (run rest : Text)
        → All (λ c. is_decimal c ≡ true) run
        → is_doi_tail unicode (run, rest) ≡ true
        → All (λ c. is_space c ≡ false) (run ++ rest)
    unfolding is_space
    tail_visible [] [] digits_only h = tt
    tail_visible [] (c ∷ suffix) digits_only h = absurd (ground arith)
    tail_visible (d ∷ run) [] digits_only h = absurd (ground arith)
    tail_visible (d ∷ run) (c ∷ suffix) digits_only h =
        All-append (λ c. is_space c ≡ false) (d ∷ run) (c ∷ suffix)
          (All-mono (d ∷ run) laws.visible digits_only)
          (slash_visible c (ground arith), suffix_visible suffix (ground arith))
      where
        slash_visible : (c : ℕ) → nat_beq c 47 ≡ true → is_space c ≡ false
        slash_visible c h = ap is_space ((nat_beq_iff c 47).0 h)

    -- A DOI has no white space, and does not start with the prefix of a resolver.
    doi_plain :
        (doi : Text)
        → is_doi unicode doi ≡ true
        → All (λ c. is_space c ≡ false) doi × (prefix_of doi_prefixes doi ≡ none)
    unfolding is_doi starts_with prefix_of is_space
    doi_plain [] h = absurd (ground (arith, h))
    doi_plain (a ∷ []) h = absurd (ground (arith, h))
    doi_plain (a ∷ b ∷ []) h = absurd (ground (arith, h))
    doi_plain (a ∷ b ∷ c ∷ rest) h =
        let tail_ok : is_doi_tail unicode (digits unicode rest) ≡ true = ground (arith, h) in
        let one : a ≡ 49 = ground (arith, nat_beq_iff 49 a, h) in
        let zero_digit : b ≡ 48 = ground (arith, nat_beq_iff 48 b, h) in
        let dot : c ≡ 46 = ground (arith, nat_beq_iff 46 c, h) in
        let (e, run) = digits_split rest in
        (
          (
            ap is_space one,
            (
              ap is_space zero_digit,
              (
                ap is_space dot,
                subst (All (λ c. is_space c ≡ false)) (sym e)
                    (tail_visible (digits unicode rest).0 (digits unicode rest).1 run tail_ok),
              ),
            ),
          ),
          ap (λ (x : ℕ). prefix_of doi_prefixes (x ∷ b ∷ c ∷ rest)) one,
        )

    -- What normalize_doi does after the strip and the change to lower case.
    abbrev finish : Text → Result Text
    finish s = checked_doi unicode (without_prefixes (suc (length s)) s)

    normalize-finish : (value : Text) → normalize_doi unicode value ≡ finish (lower (strip value))
    unfolding normalize_doi
    normalize-finish value = refl

    checked-is_doi : (s : Text) → is_doi unicode s ≡ true → checked_doi unicode (some s) ≡ ok s
    unfolding is_doi
    checked-is_doi [] h = absurd (ground (arith, h))
    checked-is_doi (c ∷ cs) h = rw h refl

    finish-is_doi : (doi : Text) → is_doi unicode doi ≡ true → finish doi ≡ ok doi
    unfolding without_prefixes
    finish-is_doi doi valid = rw (doi_plain doi valid).1 (checked-is_doi doi valid)

    canonical :
        (doi inside : Text)
        → Infix doi (lower inside)
        → is_doi unicode doi ≡ true
        → normalize_doi unicode doi ≡ ok doi
    canonical doi inside part valid =
        normalize-finish doi
        ∙ ap (λ (s : Text). finish (lower s)) (strip_visible doi (doi_plain doi valid).0)
        ∙ ap finish (laws.settled inside doi part)
        ∙ finish-is_doi doi valid

-- normalize_doi gives a canonical form: what it returns has the form of a DOI, and is returned as it
-- is when it is normalized again. Its loop always ends: it returns a DOI, or raises a ValueError that
-- says that nothing is left or that what is left is no DOI.
pub normalize_doi-canonical :
    (unicode : Unicode) (value : Text)
    → IsUnicode unicode
    → ((doi : Text) × (normalize_doi unicode value ≡ ok doi)
        × (is_doi unicode doi ≡ true)
        × (normalize_doi unicode doi ≡ ok doi))
      ⊎ (normalize_doi unicode value ≡ err (value_error "DOI must not be blank"))
      ⊎ (normalize_doi unicode value ≡ err (value_error "invalid DOI"))
normalize_doi-canonical unicode value laws =
    let s = unicode.lower (strip value) in
    let (part, e, inside) = without_prefixes_ends (suc (length s)) s (omega arith) in
    let start = normalize-finish unicode laws value ∙ ap (checked_doi unicode) e in
    elim (Bool-cases (is_empty part)) [
      | inl empty ↦ inr (inl (start ∙ rw empty refl))
      | inr some_left ↦ elim (Bool-cases (is_doi unicode part)) [
        | inr other ↦ inr (inr (start ∙ rw (some_left, other) refl))
        | inl valid ↦ inl (
          part,
          start ∙ checked-is_doi unicode laws part valid,
          valid,
          canonical unicode laws part (strip value) inside valid,
        )
      ]
    ]
