-- ===== src/Prelude/Members.antt =====
-- Membership as the place where an entry stands, with what slices and filters keep.
use Prim.Native.Nat.{ℕ, zero, suc, ◌≤◌, ◌<◌}
use mathlib.Core.Path.{◌≡◌, refl, subst}
use mathlib.Core.Logic.{◌⊎◌, inl, inr}
use mathlib.Core.Bool.{Bool, true}
use mathlib.Core.List.{List, [], ◌∷◌}
use native.Mathlib.Omega.{arith}
use tarkka.Prelude.Tests.{Bool-cases}
use tarkka.Prelude.Lists.{length, filter, take, All}
use tarkka.Prelude.Quantifiers.{All-mono}
use tarkka.Prelude.Unique.{Eq, ◌==◌, contains}

module _ {A : Type 0} where
  abbrev pub In : A → List A → Type 0
  In a [] = ⊥
  In a (x ∷ xs) = (x ≡ a) ⊎ In a xs

module _ {A : Type 0} where
  pub In-All {κ} : (P : A → Type κ) (a : A) (xs : List A) → All P xs → In a xs → P a
  In-All P a [] all here = absurd here
  In-All P a (x ∷ xs) all (inl same) = subst P same all.0
  In-All P a (x ∷ xs) all (inr later) = In-All P a xs all.1 later

  pub All-In : (xs : List A) → All (λ x. In x xs) xs
  All-In [] = tt
  All-In (x ∷ xs) = (inl refl, All-mono xs (λ y h. inr h) (All-In xs))

  pub All-of_In {κ} : (P : A → Type κ) (xs : List A) → ((a : A) → In a xs → P a) → All P xs
  All-of_In P xs h = All-mono xs h (All-In xs)

  pub All-take {κ} : (P : A → Type κ) (n : ℕ) (xs : List A) → All P xs → All P (take n xs)
  All-take P zero xs a = tt
  All-take P (suc n) [] a = tt
  All-take P (suc n) (x ∷ xs) a = (a.0, All-take P n xs a.1)

  pub All-filter {κ} :
      (P : A → Type κ) (p : A → Bool) (xs : List A)
      → All P xs
      → All (λ x. P x × (p x ≡ true)) (filter p xs)
  All-filter P p [] a = tt
  All-filter P p (x ∷ xs) a = elim (Bool-cases (p x)) [
    | inl kept ↦ rw kept ((a.0, kept), All-filter P p xs a.1)
    | inr left_out ↦ rw left_out (All-filter P p xs a.1)
  ]

  pub length-take_le : (n : ℕ) (xs : List A) → length (take n xs) ≤ n
  length-take_le zero xs = omega arith
  length-take_le (suc n) [] = omega arith
  length-take_le (suc n) (x ∷ xs) = omega (arith, length-take_le n xs)

  -- A slice that is not full has left nothing out.
  pub take_all : (n : ℕ) (xs : List A) → length (take n xs) < n → take n xs ≡ xs
  take_all zero xs h = absurd (omega arith)
  take_all (suc n) [] h = refl
  take_all (suc n) (x ∷ xs) h = λ i. x ∷ take_all n xs (omega arith) i

module _ {A : Type 0} ⦃e : Eq A⦄ where
  pub In-of_contains : (a : A) (xs : List A) → contains a xs ≡ true → In a xs
  In-of_contains a [] h = absurd (ground arith)
  In-of_contains a (x ∷ xs) h = elim (Bool-cases (x == a)) [
    | inl here ↦ inl ((e.same_iff x a).0 here)
    | inr later ↦ inr (In-of_contains a xs (ground arith))
  ]

  pub contains-of_In : (a : A) (xs : List A) → In a xs → contains a xs ≡ true
  contains-of_In a [] h = absurd h
  contains-of_In a (x ∷ xs) (inl same) = ground (arith, e.same_iff x a)
  contains-of_In a (x ∷ xs) (inr later) = ground (arith, contains-of_In a xs later)
