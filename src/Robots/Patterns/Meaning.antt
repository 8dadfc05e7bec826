-- ===== src/Robots/Patterns/Meaning.antt =====
-- What a robots rule pattern means, octet by octet, and that `_pattern_matches` decides it.
use tarkka.Prelude.{
  drop-length, ℕ, ◌≡◌, ◌≢◌, refl, sym, ap, ◌∙◌, ◌↔◌, Bool, true, false, List, [], ◌∷◌, ◌++◌, arith,
  nat_beq, Bool-cases, inl, inr, if◌then◌else◌, ◌&&◌, length, length-append, drop, Text,
  starts_with, ends_with, split_on, add_to_first, split_on-ne, list_beq, nat_eq, list_eq,
}
use tarkka.Robots.Patterns.{match_parts, match_body, body_of, pattern_matches}
use tarkka.Robots.Patterns.Searches.{starts_with-append, starts_with_lem}
use tarkka.Robots.Patterns.Wildcards.{
  AtEnd, Follow, ends_open, widen, match_parts-Follow, Follow-match_parts,
}

-- `*` stands for any text, and any other character for itself.
abbrev pub IsMatch : Bool → Text → Text → Type 0
IsMatch anchored [] s = AtEnd anchored s
IsMatch anchored (c ∷ p) s =
    if nat_beq c b'*'
    then ((gap : Text) × (behind : Text) × (s ≡ gap ++ behind) × IsMatch anchored p behind)
    else ((behind : Text) × (s ≡ c ∷ behind) × IsMatch anchored p behind)

-- The first part at the start, the others behind gaps.
abbrev Leads : Bool → List Text → Text → Type 0
Leads anchored [] s = ⊥
Leads anchored (first ∷ rest) s =
    (behind : Text) × (s ≡ first ++ behind) × Follow anchored rest behind

Follow-Leads :
    (anchored : Bool) (parts : List Text) (s : Text)
    → parts ≢ []
    → Follow anchored parts s
      ↔ ((gap : Text) × (behind : Text) × (s ≡ gap ++ behind) × Leads anchored parts behind)
Follow-Leads anchored [] s ne = absurd (ne refl)
Follow-Leads anchored (part ∷ parts) s ne = (
  λ (gap, behind, e, f). (gap, part ++ behind, e, (behind, refl, f)),
  λ (gap, mid, e, (behind, e', f)). (gap, behind, e ∙ ap (λ (t : Text). gap ++ t) e', f),
)

Leads-cons :
    (anchored : Bool) (c : ℕ) (parts : List Text) (s : Text)
    → parts ≢ []
    → Leads anchored (add_to_first c parts) s
      ↔ ((behind : Text) × (s ≡ c ∷ behind) × Leads anchored parts behind)
Leads-cons anchored c [] s ne = absurd (ne refl)
Leads-cons anchored c (part ∷ parts) s ne = (
  λ (behind, e, f). (part ++ behind, e, (behind, refl, f)),
  λ (mid, e, (behind, e', f)). (behind, e ∙ ap (λ (t : Text). c ∷ t) e', f),
)

IsMatch-Leads :
    (anchored : Bool) (p s : Text) → IsMatch anchored p s ↔ Leads anchored (split_on b'*' p) s
unfolding split_on
IsMatch-Leads anchored [] s = (λ at_end. (s, refl, at_end), λ (behind, e, f). rw e f)
IsMatch-Leads anchored (c ∷ p) s = elim (Bool-cases (nat_beq c b'*')) [
  | inl star ↦
      let l = λ (t : Text). Follow-Leads anchored (split_on b'*' p) t (split_on-ne b'*' p) in
      rw star (
        λ (gap, behind, e, m).
            (s, refl, (l s).1 (gap, behind, e, (IsMatch-Leads anchored p behind).0 m)),
        λ (same, e, f).
            let (gap, behind, e', m) = (l same).0 f in
            (gap, behind, e ∙ e', (IsMatch-Leads anchored p behind).1 m),
      )
  | inr other ↦
      let l = Leads-cons anchored c (split_on b'*' p) s (split_on-ne b'*' p) in
      rw other (
        λ (behind, e, m). l.1 (behind, e, (IsMatch-Leads anchored p behind).0 m),
        λ f. let (behind, e, m) = l.0 f in (behind, e, (IsMatch-Leads anchored p behind).1 m),
      )
]

abbrev tail : List Text → List Text
tail [] = []
tail (w ∷ ws) = ws

ends_open_first :
    (star : Bool) (d : ℕ) (parts : List Text)
    → parts ≢ []
    → ends_open (if star then [] ∷ parts else add_to_first d parts)
      ≡ ends_open (tail (if star then [] ∷ parts else add_to_first d parts))
ends_open_first star d [] ne = absurd (ne refl)
ends_open_first true d (w ∷ ws) ne = refl
ends_open_first false d (w ∷ []) ne = refl
ends_open_first false d (w ∷ v ∷ ws) ne = refl

ends_open-tail :
    (d : ℕ) (ds : Text)
    → ends_open (split_on b'*' (d ∷ ds)) ≡ ends_open (tail (split_on b'*' (d ∷ ds)))
unfolding split_on
ends_open-tail d ds = ends_open_first (nat_beq d b'*') d (split_on b'*' ds) (split_on-ne b'*' ds)

tail-add_to_first : (c : ℕ) (ws : List Text) → ws ≢ [] → tail (add_to_first c ws) ≡ tail ws
tail-add_to_first c [] ne = absurd (ne refl)
tail-add_to_first c (w ∷ ws) ne = refl

-- The body ends in `*` when its last part, behind the first one, is empty.
ends_with-ends_open : (p : Text) → ends_with (b'*' ∷ []) p ≡ ends_open (tail (split_on b'*' p))
unfolding split_on ends_with list_beq
ends_with-ends_open [] = refl
ends_with-ends_open (c ∷ []) = elim (Bool-cases (nat_beq c b'*')) [
  | inl star ↦ rw star refl
  | inr other ↦ rw other refl
]
ends_with-ends_open (c ∷ d ∷ ds) = elim (Bool-cases (nat_beq c b'*')) [
  | inl star ↦ rw star (ends_with-ends_open (d ∷ ds) ∙ sym (ends_open-tail d ds))
  | inr other ↦ rw other (
      ends_with-ends_open (d ∷ ds)
      ∙ ap ends_open
          (sym (tail-add_to_first c (split_on b'*' (d ∷ ds)) (split_on-ne b'*' (d ∷ ds)))))
]

split_on-star :
    (body : Text)
    → starts_with (b'*' ∷ []) body ≡ true
    → (parts : List Text) × (split_on b'*' body ≡ [] ∷ parts) × (parts ≢ [])
unfolding split_on starts_with
split_on-star [] h = ground arith
split_on-star (c ∷ p) h =
    let star : nat_beq c b'*' ≡ true = ground arith in
    (split_on b'*' p, rw star refl, split_on-ne b'*' p)

module _ (anchored : Bool) (body target : Text) where
  abbrev open_ended : Bool
  open_ended = ends_with (b'*' ∷ []) body

  -- Behind a first part that is not a gap.
  match_first_iff :
      (first : Text) (rest : List Text)
      → open_ended ≡ ends_open rest
      → ((starts_with first target && match_parts anchored open_ended target rest (length first))
          ≡ true)
        ↔ Leads anchored (first ∷ rest) target
  match_first_iff first rest o = (
    λ h.
        let e = starts_with_lem first target (ground arith) in
        let l = ap length e ∙ length-append first (drop (length first) target) in
        (
          drop (length first) target,
          e,
          match_parts-Follow anchored open_ended target rest o (length first) (omega arith)
              (ground arith),
        ),
    λ (behind, e, f).
        let l = ap length e ∙ length-append first behind in
        let s = ap (starts_with first) e ∙ starts_with-append first behind in
        let d = ap (drop (length first)) e ∙ drop-length first behind in
        let m =
          Follow-match_parts anchored open_ended target rest o (length first) (omega arith)
            (rw d f) in
        ground arith,
  )

  -- Behind a leading `*`, whose first part is empty.
  match_star_iff :
      (parts : List Text)
      → parts ≢ []
      → open_ended ≡ ends_open parts
      → (match_parts anchored open_ended target ([] ∷ parts) 0 ≡ true)
        ↔ Leads anchored ([] ∷ parts) target
  match_star_iff [] ne o = absurd (ne refl)
  match_star_iff (w ∷ ws) ne o = (
    λ h.
        let (gap, behind, e, f) =
          match_parts-Follow anchored open_ended target ([] ∷ w ∷ ws) o 0 (omega arith) h in
        (target, refl, rw e (widen anchored w ws gap behind f)),
    λ (behind, e, f).
        Follow-match_parts anchored open_ended target ([] ∷ w ∷ ws) o 0 (omega arith)
          ([], behind, e, f),
  )

  match_plain_iff :
      (parts : List Text)
      → parts ≢ []
      → starts_with (b'*' ∷ []) body ≡ false
      → open_ended ≡ ends_open (tail parts)
      → (match_body anchored open_ended target body parts ≡ true) ↔ Leads anchored parts target
  unfolding match_body
  match_plain_iff [] ne plain o = absurd (ne refl)
  match_plain_iff (first ∷ rest) ne plain o = rw plain (match_first_iff first rest o)

  match_body_iff :
      (match_body anchored open_ended target body (split_on b'*' body) ≡ true)
      ↔ Leads anchored (split_on b'*' body) target
  unfolding match_body
  match_body_iff = elim (Bool-cases (starts_with (b'*' ∷ []) body)) [
    | inl starred ↦
        let (parts, e, ne) = split_on-star body starred in
        let o = ends_with-ends_open body ∙ ap (λ (ws : List Text). ends_open (tail ws)) e in
        rw (e, starred) (match_star_iff parts ne o)
    | inr plain ↦
        match_plain_iff (split_on b'*' body) (split_on-ne b'*' body) plain
          (ends_with-ends_open body)
  ]

-- A rule pattern matches a target exactly when the target reads as the pattern, in which `*` stands
-- for any text and every other character for itself, and behind which more text may follow unless
-- the pattern ends in `$`.
pub pattern_matches_iff :
    (pattern target : Text)
    → (pattern_matches pattern target ≡ true)
      ↔ IsMatch (ends_with (b'$' ∷ []) pattern) (body_of pattern) target
unfolding pattern_matches
pattern_matches_iff pattern target =
    let anchored = ends_with (b'$' ∷ []) pattern in
    let body = body_of pattern in
    let parts = match_body_iff anchored body target in
    let meaning = IsMatch-Leads anchored body target in
    (λ h. meaning.1 (parts.0 h), λ m. parts.1 (meaning.0 m))
