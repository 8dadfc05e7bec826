-- ===== src/Robots/Patterns/Searches.antt =====
-- What the searches of `_pattern_matches` find.
use tarkka.Prelude.{
  drop-eq, drop-append, drop-length, ℕ, suc, ◌+◌, ◌≤◌, ◌<◌, ◌≡◌, refl, sym, ap, ◌∙◌, true, false,
  Option, none, some, [], ◌∷◌, ◌++◌, arith, nat_beq_iff, Bool-cases, inl, inr, length,
  length-append, take, drop, Text, starts_with, append_assoc,
}
use tarkka.Robots.Patterns.{first_in, rfind}

pub starts_with-append : (p s : Text) → starts_with p (p ++ s) ≡ true
unfolding starts_with
starts_with-append [] s = refl
starts_with-append (c ∷ cs) s = ground (arith, starts_with-append cs s)

pub starts_with_lem : (p s : Text) → starts_with p s ≡ true → s ≡ p ++ drop (length p) s
unfolding starts_with
starts_with_lem [] s h = refl
starts_with_lem (c ∷ cs) [] h = ground arith
starts_with_lem (c ∷ cs) (d ∷ ds) h =
    let e = starts_with_lem cs ds (ground arith) in
    let same : d ≡ c = ground (arith, nat_beq_iff c d) in rw same (ap (λ (t : Text). c ∷ t) e)

-- The text `p` stands in `s` at the offset that a search returned.
abbrev pub Occurs : Text → Text → Option ℕ → Type 0
Occurs p s none = Unit
Occurs p s (some i) = (s ≡ take i s ++ (p ++ drop (i + length p) s)) × (i + length p ≤ length s)

Occurs-here : (p s : Text) → starts_with p s ≡ true → Occurs p s (some 0)
Occurs-here p s h =
    let e = starts_with_lem p s h in
    let e' = ap length e ∙ length-append p (drop (length p) s) in
    (e ∙ ap (λ k. p ++ drop k s) (omega arith), omega arith)

Occurs-later :
    (p s : Text) (c : ℕ) (o : Option ℕ)
    → Occurs p s o
    → Occurs p (c ∷ s) (elim o [ none ↦ none | some i ↦ some (suc i) ])
Occurs-later p s c none h = tt
Occurs-later p s c (some i) h = (
  ap (λ (t : Text). c ∷ t) h.0
      ∙ ap (λ (t : Text). c ∷ take i s ++ (p ++ t))
          (drop-eq {m = suc (i + length p)} (c ∷ s) (omega arith)),
  omega arith,
)

-- What `first_in` finds is an occurrence.
pub first_in-Occurs : (p s : Text) → Occurs p s (first_in p s)
unfolding first_in
first_in-Occurs [] [] = (refl, omega arith)
first_in-Occurs (c ∷ cs) [] = tt
first_in-Occurs p (d ∷ ds) = elim (Bool-cases (starts_with p (d ∷ ds))) [
  | inl here ↦ rw here (Occurs-here p (d ∷ ds) here)
  | inr later ↦ rw later (Occurs-later p ds d (first_in p ds) (first_in-Occurs p ds))
]

-- The text behind an occurrence, as the end of what lies behind the one that `first_in` finds.
abbrev pub IsFoundBefore : Text → Text → Text → Option ℕ → Type 0
IsFoundBefore p s behind none = ⊥
IsFoundBefore p s behind (some i) = (more : Text) × (drop (i + length p) s ≡ more ++ behind)

IsFoundBefore-later :
    (p s behind : Text) (c : ℕ) (o : Option ℕ)
    → IsFoundBefore p s behind o
    → IsFoundBefore p (c ∷ s) behind (elim o [ none ↦ none | some i ↦ some (suc i) ])
IsFoundBefore-later p s behind c none h = h
IsFoundBefore-later p s behind c (some i) (more, e) =
    (more, drop-eq {n = suc (i + length p)} (c ∷ s) (omega arith) ∙ e)

-- `first_in` finds the leftmost occurrence.
pub first_in-IsFoundBefore :
    (p pre behind : Text)
    → IsFoundBefore p (pre ++ (p ++ behind)) behind (first_in p (pre ++ (p ++ behind)))
unfolding first_in starts_with
first_in-IsFoundBefore [] [] [] = ([], refl)
first_in-IsFoundBefore [] [] (b ∷ bs) = ([], refl)
first_in-IsFoundBefore (c ∷ cs) [] behind = rw (starts_with-append (c ∷ cs) behind) (
  [],
  drop-eq {n = length (c ∷ cs)} (c ∷ cs ++ behind) (omega arith) ∙ drop-length (c ∷ cs) behind,
)
first_in-IsFoundBefore p (d ∷ ds) behind =
    let s = ds ++ (p ++ behind) in
    elim (Bool-cases (starts_with p (d ∷ s))) [
      | inl here ↦ rw here (
        drop (length p) (d ∷ ds ++ p),
        drop-eq (d ∷ s) (omega arith)
            ∙ ap (drop (length p)) (sym (append_assoc (d ∷ ds) p behind))
            ∙ drop-append (length p) (d ∷ ds ++ p) behind (omega (arith, length-append (d ∷ ds) p)),
      )
      | inr later ↦
          rw later
            (IsFoundBefore-later p s behind d (first_in p s) (first_in-IsFoundBefore p ds behind))
    ]

starts_with_short : (p s : Text) → length s < length p → starts_with p s ≡ false
unfolding starts_with
starts_with_short [] s h = absurd (omega arith)
starts_with_short (c ∷ cs) [] h = refl
starts_with_short (c ∷ cs) (d ∷ ds) h = ground (arith, starts_with_short cs ds (omega arith))

rfind_short : (p s : Text) → length s < length p → rfind p s ≡ none
unfolding rfind
rfind_short [] s h = absurd (omega arith)
rfind_short (c ∷ cs) [] h = refl
rfind_short (c ∷ cs) (d ∷ ds) h =
    rw (rfind_short (c ∷ cs) ds (omega arith), starts_with_short (c ∷ cs) (d ∷ ds) h)

starts_with_self : (s : Text) → starts_with s s ≡ true
unfolding starts_with
starts_with_self [] = refl
starts_with_self (c ∷ cs) = ground (arith, starts_with_self cs)

-- A suffix is the last occurrence.
pub rfind-append : (c : ℕ) (cs pre : Text) → rfind (c ∷ cs) (pre ++ c ∷ cs) ≡ some (length pre)
unfolding rfind
rfind-append c cs [] = rw (rfind_short (c ∷ cs) cs (omega arith), starts_with_self (c ∷ cs))
rfind-append c cs (d ∷ ds) = rw (rfind-append c cs ds)
