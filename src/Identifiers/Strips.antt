-- ===== src/Identifiers/Strips.antt =====
-- Infixes of texts: what `strip` and slices leave, and texts without white space.
use tarkka.Prelude.{
  ℕ, zero, suc, ◌≤◌, ◌≡◌, refl, ap, sym, ◌∙◌, inl, inr, Bool, false, [], ◌∷◌, ◌++◌, append_assoc,
  append-nil, length, length-append, drop, All, arith, Bool-cases, Text, strip, lstrip_of,
  rstrip_of, is_space,
}

abbrev pub Infix : Text → Text → Type 0
Infix part s = (before : Text) × (after : Text) × (s ≡ before ++ (part ++ after))

pub Infix-refl : (s : Text) → Infix s s
Infix-refl s = ([], [], sym (append-nil s))

pub Infix-trans : (a b c : Text) → Infix a b → Infix b c → Infix a c
Infix-trans a b c (p, q, e) (p', q', e') = (
  p' ++ p,
  q ++ q',
  e'
      ∙ ap (λ (t : Text). p' ++ (t ++ q')) e
      ∙ ap (λ (t : Text). p' ++ t) (append_assoc p (a ++ q) q')
      ∙ sym (append_assoc p' p ((a ++ q) ++ q'))
      ∙ ap (λ (t : Text). (p' ++ p) ++ t) (append_assoc a q q'),
)

module _ (p : ℕ → Bool) where
  lstrip-Infix : (s : Text) → Infix (lstrip_of p s) s
  unfolding lstrip_of
  lstrip-Infix [] = Infix-refl []
  lstrip-Infix (c ∷ cs) = elim (Bool-cases (p c)) [
    | inr kept ↦ rw kept (Infix-refl (c ∷ cs))
    | inl dropped ↦
        let (a, b, e) = lstrip-Infix cs in rw dropped (c ∷ a, b, ap (λ (t : Text). c ∷ t) e)
  ]

  rstrip-Infix : (s : Text) → (after : Text) × (s ≡ rstrip_of p s ++ after)
  unfolding rstrip_of
  rstrip-Infix [] = ([], refl)
  rstrip-Infix (c ∷ cs) = let (after, e) = rstrip-Infix cs in go (rstrip_of p cs) refl after e
    where
      go :
          (t : Text)
          → rstrip_of p cs ≡ t
          → (after : Text) → cs ≡ rstrip_of p cs ++ after
          → (rest : Text) × (c ∷ cs ≡ rstrip_of p (c ∷ cs) ++ rest)
      go [] same after e = elim (Bool-cases (p c)) [
        | inl dropped ↦ (c ∷ cs, rw (same, dropped, rstrip_of) refl)
        | inr kept ↦ (cs, rw (same, kept, rstrip_of) refl)
      ]
      go (d ∷ ds) same after e = (
        after,
        rw (same, rstrip_of) (ap (λ (t : Text). c ∷ t) (e ∙ ap (λ (t : Text). t ++ after) same)),
      )

  lstrip_visible : (s : Text) → All (λ c. p c ≡ false) s → lstrip_of p s ≡ s
  unfolding lstrip_of
  lstrip_visible [] h = refl
  lstrip_visible (c ∷ cs) h = rw h.0 refl

  rstrip_visible : (s : Text) → All (λ c. p c ≡ false) s → rstrip_of p s ≡ s
  unfolding rstrip_of
  rstrip_visible [] h = refl
  rstrip_visible (c ∷ []) h = rw h.0 refl
  rstrip_visible (c ∷ d ∷ ds) h = rw (rstrip_visible (d ∷ ds) h.1, rstrip_of) refl

pub strip-Infix : (s : Text) → Infix (strip s) s
unfolding strip
strip-Infix s =
    let (after, e) = rstrip-Infix is_space (lstrip_of is_space s) in
    Infix-trans (strip s) (lstrip_of is_space s) s ([], after, e) (lstrip-Infix is_space s)

pub strip_visible : (s : Text) → All (λ c. is_space c ≡ false) s → strip s ≡ s
unfolding strip
strip_visible s h =
    ap (rstrip_of is_space) (lstrip_visible is_space s h) ∙ rstrip_visible is_space s h

pub drop-Infix : (n : ℕ) (s : Text) → Infix (drop n s) s
drop-Infix zero s = Infix-refl s
drop-Infix (suc n) [] = Infix-refl []
drop-Infix (suc n) (c ∷ cs) =
    let (a, b, e) = drop-Infix n cs in (c ∷ a, b, ap (λ (t : Text). c ∷ t) e)

pub length-Infix : (part s : Text) → Infix part s → length part ≤ length s
length-Infix part s (a, b, e) =
    omega (arith, ap length e, length-append a (part ++ b), length-append part b)
