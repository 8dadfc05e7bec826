-- ===== src/Prelude/Quantifiers.antt =====
-- Some or every entry of a list, of a filtered list and of two lists one after the other.
use Prim.Native.Nat.{ℕ, ◌≤◌, max}
use mathlib.Core.Path.{◌≡◌, refl}
use mathlib.Core.Logic.{◌↔◌, ◌⊎◌, inl, inr}
use mathlib.Core.Bool.{Bool, true}
use mathlib.Core.List.{List, [], ◌∷◌, ◌++◌}
use native.Mathlib.Omega.{arith}
use tarkka.Prelude.Tests.{Bool-cases}
use tarkka.Prelude.Lists.{All, any, filter}

module _ {ℓ} {A : Type ℓ} where
  abbrev pub Any : (A → Type 0) → List A → Type 0
  Any P [] = ⊥
  Any P (x ∷ xs) = P x ⊎ Any P xs

module _ {ℓ} {A : Type ℓ} where
  pub All-mono {κ μ} :
      {P : A → Type κ} {Q : A → Type μ} (xs : List A) → ((x : A) → P x → Q x) → All P xs → All Q xs
  All-mono [] h a = tt
  All-mono (x ∷ xs) h a = (h x a.0, All-mono xs h a.1)

  -- Some entry, with what every entry has.
  pub Any-mono {κ} :
      {P Q : A → Type 0} {R : A → Type κ} (xs : List A)
      → ((x : A) → R x → P x → Q x)
      → All R xs
      → Any P xs
      → Any Q xs
  Any-mono [] h a p = absurd p
  Any-mono (x ∷ xs) h a (inl p) = inl (h x a.0 p)
  Any-mono (x ∷ xs) h a (inr p) = inr (Any-mono xs h a.1 p)

  pub All-trivial : (xs : List A) → All (λ x. Unit {0}) xs
  All-trivial [] = tt
  All-trivial (x ∷ xs) = (tt, All-trivial xs)

  pub All-append_iff {κ} :
      (P : A → Type κ) (xs ys : List A) → All P (xs ++ ys) ↔ (All P xs × All P ys)
  All-append_iff P [] ys = (λ a. (tt, a), λ (b, a). a)
  All-append_iff P (x ∷ xs) ys =
      let (to, back) = All-append_iff P xs ys in
      (λ (a, more). let (bs, cs) = to more in ((a, bs), cs), λ ((a, bs), cs). (a, back (bs, cs)))

  pub Any-append_iff : (P : A → Type 0) (xs ys : List A) → Any P (xs ++ ys) ↔ (Any P xs ⊎ Any P ys)
  Any-append_iff P [] ys = (inr, λ a. elim a [ inl b ↦ absurd b | inr b ↦ b ])
  Any-append_iff P (x ∷ xs) ys =
      let (to, back) = Any-append_iff P xs ys in
      (
        λ a. elim a [
          | inl b ↦ inl (inl b)
          | inr bs ↦ elim (to bs) [ inl b ↦ inl (inr b) | inr c ↦ inr c ]
        ],
        λ a. elim a [
          | inl b ↦ elim b [ inl c ↦ inl c | inr c ↦ inr (back (inl c)) ]
          | inr c ↦ inr (back (inr c))
        ],
      )

  pub All-filter_iff {κ} :
      (P : A → Type κ) (p : A → Bool) (xs : List A)
      → All P (filter p xs) ↔ All (λ x. p x ≡ true → P x) xs
  All-filter_iff P p [] = (λ a. a, λ a. a)
  All-filter_iff P p (x ∷ xs) =
      let (to, back) = All-filter_iff P p xs in
      elim (Bool-cases (p x)) [
        | inl kept ↦ rw kept (λ (a, more). (λ e. a, to more), λ (f, more). (f refl, back more))
        | inr left_out ↦
            rw left_out (λ more. (λ e. absurd (ground arith), to more), λ (f, more). back more)
      ]

  pub Any-filter_iff :
      (P : A → Type 0) (p : A → Bool) (xs : List A)
      → Any P (filter p xs) ↔ Any (λ x. (p x ≡ true) × P x) xs
  Any-filter_iff P p [] = (λ a. a, λ a. a)
  Any-filter_iff P p (x ∷ xs) =
      let (to, back) = Any-filter_iff P p xs in
      elim (Bool-cases (p x)) [
        | inl kept ↦ rw kept (
          λ a. elim a [ inl b ↦ inl (refl, b) | inr b ↦ inr (to b) ],
          λ a. elim a [ inl b ↦ inl b.1 | inr b ↦ inr (back b) ],
        )
        | inr left_out ↦
            rw left_out
              (λ a. inr (to a), λ a. elim a [ inl b ↦ absurd (ground arith) | inr b ↦ back b ])
      ]

  pub any-Any_iff : (p : A → Bool) (xs : List A) → (any p xs ≡ true) ↔ Any (λ x. p x ≡ true) xs
  any-Any_iff p [] = (λ e. absurd (ground arith), λ a. absurd a)
  any-Any_iff p (x ∷ xs) =
      let (to, back) = any-Any_iff p xs in
      elim (Bool-cases (p x)) [
        | inl here ↦ rw here (λ e. inl refl, λ a. refl)
        | inr later ↦
            rw later
              (λ e. inr (to e), λ a. elim a [ inl b ↦ absurd (ground arith) | inr b ↦ back b ])
      ]

  -- max(f(x) for x in xs), and 0 where there is none
  abbrev pub maximum : (A → ℕ) → List A → ℕ
  maximum f [] = 0
  maximum f (x ∷ xs) = max (f x) (maximum f xs)

  pub All-le_maximum : (f : A → ℕ) (xs : List A) → All (λ x. f x ≤ maximum f xs) xs
  All-le_maximum f [] = tt
  All-le_maximum f (x ∷ xs) = (omega arith, All-mono xs (λ y h. omega arith) (All-le_maximum f xs))

  pub maximum-le : (f : A → ℕ) (n : ℕ) (xs : List A) → All (λ x. f x ≤ n) xs → maximum f xs ≤ n
  maximum-le f n [] a = omega arith
  maximum-le f n (x ∷ xs) a = omega (arith, a.0, maximum-le f n xs a.1)
