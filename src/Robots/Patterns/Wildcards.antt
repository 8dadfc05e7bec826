-- ===== src/Robots/Patterns/Wildcards.antt =====
-- The loop of `_pattern_matches` against what the parts of a pattern mean.
use tarkka.Prelude.{
  drop-eq, drop_none, drop_all, drop-drop, drop-append, length-drop, take-drop, length-take, ℕ, ◌+◌,
  ◌≤◌, ◌≡◌, refl, sym, ap, ◌∙◌, subst, Bool, true, false, Option, none, some, List, [], ◌∷◌, ◌++◌,
  arith, Bool-cases, ◌&&◌, inl, inr, length, length-append, take, drop, Text, is_empty, ends_with,
  append_assoc, append-nil, ends_with_lem, ends_with-append,
}
use tarkka.Robots.Patterns.{first_in, rfind, find_from, match_parts, at_or_after}
use tarkka.Robots.Patterns.Searches.{
  Occurs, first_in-Occurs, IsFoundBefore, first_in-IsFoundBefore, rfind-append,
}

-- What lies behind the pattern: nothing when the pattern is anchored.
abbrev pub AtEnd : Bool → Text → Type 0
AtEnd true s = s ≡ []
AtEnd false s = Unit

-- The parts stand in the text in their order, each behind a gap, which is a `*` of the pattern.
abbrev pub Follow : Bool → List Text → Text → Type 0
Follow anchored [] s = AtEnd anchored s
Follow anchored (part ∷ parts) s =
    (gap : Text) × (behind : Text) × (s ≡ gap ++ (part ++ behind)) × Follow anchored parts behind

-- The last part is empty, which it is when the pattern ends in `*`.
abbrev pub ends_open : List Text → Bool
ends_open [] = false
ends_open (part ∷ []) = is_empty part
ends_open (part ∷ next ∷ parts) = ends_open (next ∷ parts)

AtEnd-empty : (anchored : Bool) → AtEnd anchored []
AtEnd-empty true = refl
AtEnd-empty false = tt

AtEnd-of_true : (anchored : Bool) (s : Text) → (anchored ≡ true → s ≡ []) → AtEnd anchored s
AtEnd-of_true true s h = h refl
AtEnd-of_true false s h = tt

AtEnd-true : (anchored : Bool) (s : Text) → AtEnd anchored s → anchored ≡ true → s ≡ []
AtEnd-true true s h a = h
AtEnd-true false s h a = absurd (ground arith)

-- A gap may be longer.
pub widen :
    (anchored : Bool) (part : Text) (parts : List Text) (more s : Text)
    → Follow anchored (part ∷ parts) s
    → Follow anchored (part ∷ parts) (more ++ s)
widen anchored part parts more s (gap, behind, e, f) = (
  more ++ gap,
  behind,
  ap (λ (t : Text). more ++ t) e ∙ sym (append_assoc more gap (part ++ behind)),
  f,
)

module _ (anchored open_ended : Bool) (target : Text) where
  -- What the loop does with the part `p` if it is not the anchored end of the pattern.
  abbrev go_on : Text → List Text → ℕ → Option ℕ → Bool
  go_on p rest position o =
      elim (elim o as (λ x. Option ℕ) [ none ↦ none | some i ↦ some (position + i) ])
        as (λ x. Bool) [
          | none ↦ false
          | some found ↦ match_parts anchored open_ended target rest (found + length p)
        ]

  abbrev IsSoundFrom : List Text → Type 0
  IsSoundFrom parts =
      (position : ℕ)
      → position ≤ length target
      → match_parts anchored open_ended target parts position ≡ true
      → Follow anchored parts (drop position target)

  abbrev IsCompleteFrom : List Text → Type 0
  IsCompleteFrom parts =
      (position : ℕ)
      → position ≤ length target
      → Follow anchored parts (drop position target)
      → match_parts anchored open_ended target parts position ≡ true

  go_on-Follow :
      (p : Text) (rest : List Text) (position : ℕ) (o : Option ℕ)
      → position ≤ length target
      → Occurs p (drop position target) o
      → IsSoundFrom rest
      → go_on p rest position o ≡ true
      → Follow anchored (p ∷ rest) (drop position target)
  go_on-Follow p rest position none within occurs sound h = cc
  go_on-Follow p rest position (some i) within (e, fits) sound h =
      let l = length-drop position target within in
      let there = drop-drop (i + length p) position target in
      let same =
        drop-eq {m = position + (i + length p)} {n = position + i + length p} target
          (omega arith) in
      let f = sound (position + i + length p) (omega arith) h in
      (
        take i (drop position target),
        drop (i + length p) (drop position target),
        e,
        rw (there ∙ same) f,
      )

  Follow-go_on :
      (p : Text) (rest : List Text) (position : ℕ) (o : Option ℕ) (behind : Text)
      → position ≤ length target
      → Occurs p (drop position target) o
      → IsFoundBefore p (drop position target) behind o
      → ((more : Text) → Follow anchored rest (more ++ behind))
      → IsCompleteFrom rest
      → go_on p rest position o ≡ true
  Follow-go_on p rest position none behind within occurs found f complete = absurd found
  Follow-go_on p rest position (some i) behind within (e, fits) (more, e') f complete =
      let l = length-drop position target within in
      let there = drop-drop (i + length p) position target in
      let same =
        drop-eq {m = position + (i + length p)} {n = position + i + length p} target
          (omega arith) in
      complete (position + i + length p) (omega arith) (rw (sym same ∙ sym there ∙ e') (f more))

  suffix-Follow :
      (c : ℕ) (cs : Text) (position : ℕ)
      → position ≤ length target
      → ends_with (c ∷ cs) target ≡ true
      → at_or_after position (rfind (c ∷ cs) target) ≡ true
      → Follow true ((c ∷ cs) ∷ []) (drop position target)
  suffix-Follow c cs position within ends after =
      let (pre, e) = ends_with_lem (c ∷ cs) target ends in
      let r = ap (rfind (c ∷ cs)) e ∙ rfind-append c cs pre in
      let after' = subst (λ (i : Option ℕ). at_or_after position i ≡ true) r after in
      (
        drop position pre,
        [],
        ap (drop position) e
            ∙ drop-append position pre (c ∷ cs) (ground arith)
            ∙ ap (λ (t : Text). drop position pre ++ t) (sym (append-nil (c ∷ cs))),
        refl,
      )

  Follow-suffix :
      (c : ℕ) (cs : Text) (position : ℕ)
      → position ≤ length target
      → Follow true ((c ∷ cs) ∷ []) (drop position target)
      → (ends_with (c ∷ cs) target && at_or_after position (rfind (c ∷ cs) target)) ≡ true
  Follow-suffix c cs position within (gap, behind, e, at_end) =
      let pre = take position target ++ gap in
      let e' : drop position target ≡ gap ++ c ∷ cs =
        e
        ∙ ap (λ (t : Text). gap ++ (c ∷ cs ++ t)) at_end
        ∙ ap (λ (t : Text). gap ++ t) (append-nil (c ∷ cs)) in
      let whole : target ≡ pre ++ c ∷ cs =
        sym (take-drop position target)
        ∙ ap (λ (t : Text). take position target ++ t) e'
        ∙ sym (append_assoc (take position target) gap (c ∷ cs)) in
      let ends = ap (ends_with (c ∷ cs)) whole ∙ ends_with-append pre (c ∷ cs) in
      let r = ap (rfind (c ∷ cs)) whole ∙ rfind-append c cs pre in
      let l = length-append (take position target) gap in
      let l' = length-take position target within in rw (ends, r) (ground arith)

  pub match_parts-Follow : (parts : List Text) → open_ended ≡ ends_open parts → IsSoundFrom parts
  unfolding match_parts find_from
  match_parts-Follow [] o position within h =
      AtEnd-of_true anchored (drop position target) (λ a. drop_none position target (ground arith))
  match_parts-Follow ([] ∷ []) o position within h =
      (drop position target, [], sym (append-nil (drop position target)), AtEnd-empty anchored)
  match_parts-Follow ([] ∷ next ∷ parts) o position within h =
      ([], drop position target, refl, match_parts-Follow (next ∷ parts) o position within h)
  match_parts-Follow ((c ∷ cs) ∷ next ∷ parts) o position within h =
      go_on-Follow (c ∷ cs) (next ∷ parts) position (first_in (c ∷ cs) (drop position target))
        within (first_in-Occurs (c ∷ cs) (drop position target))
        (match_parts-Follow (next ∷ parts) o) (ground arith)
  match_parts-Follow ((c ∷ cs) ∷ []) o position within h = elim (Bool-cases anchored) [
    | inl a ↦ rw a (suffix-Follow c cs position within (ground arith) (ground arith))
    | inr a ↦
        go_on-Follow (c ∷ cs) [] position (first_in (c ∷ cs) (drop position target)) within
          (first_in-Occurs (c ∷ cs) (drop position target)) (match_parts-Follow [] o) (ground arith)
  ]

  pub Follow-match_parts : (parts : List Text) → open_ended ≡ ends_open parts → IsCompleteFrom parts
  unfolding match_parts find_from
  Follow-match_parts [] o position within f =
      let l = λ (a : anchored ≡ true).
        drop_all position target (AtEnd-true anchored (drop position target) f a) in
      elim (Bool-cases anchored) [ inl a ↦ ground (arith, l a) | inr a ↦ ground arith ]
  Follow-match_parts ([] ∷ []) o position within f = ground arith
  Follow-match_parts ([] ∷ next ∷ parts) o position within (gap, behind, e, f) =
      Follow-match_parts (next ∷ parts) o position within
        (rw e (widen anchored next parts gap behind f))
  Follow-match_parts ((c ∷ cs) ∷ next ∷ parts) o position within (gap, behind, e, f) =
      let found = ap (λ (t : Text). IsFoundBefore (c ∷ cs) t behind (first_in (c ∷ cs) t)) e in
      let g =
        Follow-go_on (c ∷ cs) (next ∷ parts) position (first_in (c ∷ cs) (drop position target))
          behind within (first_in-Occurs (c ∷ cs) (drop position target))
          (rw found (first_in-IsFoundBefore (c ∷ cs) gap behind))
          (λ more. widen anchored next parts more behind f) (Follow-match_parts (next ∷ parts) o) in
      ground arith
  Follow-match_parts ((c ∷ cs) ∷ []) o position within (gap, behind, e, f) =
      elim (Bool-cases anchored) [
        | inl a ↦
            let g =
              Follow-suffix c cs position within (gap, behind, e, AtEnd-true anchored behind f a) in
            ground arith
        | inr a ↦
            let found =
              ap (λ (t : Text). IsFoundBefore (c ∷ cs) t behind (first_in (c ∷ cs) t)) e in
            let g =
              Follow-go_on (c ∷ cs) [] position (first_in (c ∷ cs) (drop position target)) behind
                within (first_in-Occurs (c ∷ cs) (drop position target))
                (rw found (first_in-IsFoundBefore (c ∷ cs) gap behind)) (λ more. rw a tt)
                (Follow-match_parts [] o) in
            ground arith
      ]
