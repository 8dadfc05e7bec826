-- ===== src/Prelude/Unique.antt =====
-- Equality tests as an interface, membership, and Python's `dict.fromkeys` and `len(set(xs))`.
use Prim.Native.Nat.{ℕ, ◌≤◌, ◌<◌}
use mathlib.Core.Path.{◌≡◌, refl, ap}
use mathlib.Core.Logic.{◌↔◌}
use mathlib.Core.Bool.{Bool, true, false, ◌||◌, ◌&&◌}
use mathlib.Core.List.{List, [], ◌∷◌, ◌++◌}
use native.Mathlib.Omega.{arith}
use tarkka.Prelude.Tests.{if◌then◌else◌, nat_beq, nat_beq_iff}
use tarkka.Prelude.Lists.{length, all}

-- A type whose values `==` compares by what they hold.
pub record Eq {ℓ} (A : Type ℓ) : Type ℓ where
  pub same : A → A → Bool
  pub same_iff : (x y : A) → (same x y ≡ true) ↔ (x ≡ y)

module _ {ℓ} {A : Type ℓ} ⦃e : Eq A⦄ where
  infix 50 ◌==◌
  abbrev pub ◌==◌ : A → A → Bool
  x == y = e.same x y

instance abbrev pub nat_eq : Eq ℕ
nat_eq = record { same = nat_beq; same_iff = nat_beq_iff }

unfoldable pub list_beq {ℓ} : {A : Type ℓ} ⦃e : Eq A⦄ → List A → List A → Bool
list_beq [] [] = true
list_beq (x ∷ xs) (y ∷ ys) = x == y && list_beq xs ys
list_beq _ _ = false

pub list_beq_iff {ℓ} :
    {A : Type ℓ} ⦃e : Eq A⦄ (xs ys : List A) → (list_beq xs ys ≡ true) ↔ (xs ≡ ys)
unfolding list_beq
list_beq_iff [] [] = ground arith
list_beq_iff ⦃e⦄ (x ∷ xs) (y ∷ ys) = ground (arith, e.same_iff x y, list_beq_iff xs ys)
list_beq_iff _ _ = ground arith

instance abbrev pub list_eq {ℓ} : {A : Type ℓ} ⦃e : Eq A⦄ → Eq (List A)
list_eq = record { same = list_beq; same_iff = list_beq_iff }

module _ {ℓ} {A : Type ℓ} ⦃e : Eq A⦄ where
  -- x in xs
  abbrev pub contains : A → List A → Bool
  contains a [] = false
  contains a (x ∷ xs) = x == a || contains a xs

  abbrev pub without : A → List A → List A
  without a [] = []
  without a (x ∷ xs) = let rest = without a xs in if x == a then rest else x ∷ rest

  -- tuple(dict.fromkeys(xs)): each value once, in the order of first occurrence
  unfoldable pub unique : List A → List A
  unique [] = []
  unique (x ∷ xs) = x ∷ without x (unique xs)

  -- len(set(xs)) == len(xs)
  unfoldable pub all_distinct : List A → Bool
  unfolding unique
  all_distinct xs = nat_beq (length (unique xs)) (length xs)

  abbrev pub NoDup : List A → Type 0
  NoDup [] = Unit
  NoDup (x ∷ xs) = (contains x xs ≡ false) × NoDup xs

module _ {ℓ} {A : Type ℓ} ⦃e : Eq A⦄ where
  pub beq_refl : (a : A) → (a == a) ≡ true
  beq_refl a = (e.same_iff a a).1 refl

  pub contains-append :
      (a : A) (xs ys : List A) → contains a (xs ++ ys) ≡ (contains a xs || contains a ys)
  contains-append a [] ys = refl
  contains-append a (x ∷ xs) ys = ground (arith, contains-append a xs ys)

  length-without-le : (a : A) (xs : List A) → length (without a xs) ≤ length xs
  length-without-le a [] = omega arith
  length-without-le a (x ∷ xs) = ground (arith, length-without-le a xs)

  length-without-lt :
      (a : A) (xs : List A) → contains a xs ≡ true → length (without a xs) < length xs
  length-without-lt a [] h = ground arith
  length-without-lt a (x ∷ xs) h = ground (arith, length-without-le a xs, length-without-lt a xs)

  without_of_not-contains : (a : A) (xs : List A) → contains a xs ≡ false → without a xs ≡ xs
  without_of_not-contains a [] h = refl
  without_of_not-contains a (x ∷ xs) h = ground (arith, without_of_not-contains a xs)

  contains-without :
      (a b : A) (xs : List A)
      → contains b (without a xs) ≡ (if a == b then false else contains b xs)
  contains-without a b [] = ground arith
  contains-without a b (x ∷ xs) =
      ground (arith, contains-without a b xs, e.same_iff x a, e.same_iff x b, e.same_iff a b)

  pub contains-unique : (a : A) (xs : List A) → contains a (unique xs) ≡ contains a xs
  unfolding unique
  contains-unique a [] = refl
  contains-unique a (x ∷ xs) =
      ground (arith, contains-unique a xs, contains-without x a (unique xs))

  NoDup-without : (a : A) (xs : List A) → NoDup xs → NoDup (without a xs)
  NoDup-without a [] h = tt
  NoDup-without a (x ∷ xs) h =
      ground (arith, NoDup-without a xs, contains-without a x xs, e.same_iff a x, e.same_iff x a)

  pub NoDup-unique : (xs : List A) → NoDup (unique xs)
  unfolding unique
  NoDup-unique [] = tt
  NoDup-unique (x ∷ xs) = (
    ground (arith, contains-without x x (unique xs), beq_refl x),
    NoDup-without x (unique xs) (NoDup-unique xs),
  )

  pub unique_of_NoDup : (xs : List A) → NoDup xs → unique xs ≡ xs
  unfolding unique
  unique_of_NoDup [] h = refl
  unique_of_NoDup (x ∷ xs) h = rw (unique_of_NoDup xs h.1, without_of_not-contains x xs h.0)

  length-unique-le : (xs : List A) → length (unique xs) ≤ length xs
  unfolding unique
  length-unique-le [] = omega arith
  length-unique-le (x ∷ xs) = omega (arith, length-unique-le xs, length-without-le x (unique xs))

  NoDup-of_length : (xs : List A) → length (unique xs) ≡ length xs → NoDup xs
  unfolding unique
  NoDup-of_length [] h = tt
  NoDup-of_length (x ∷ xs) h = (
    ground (
      arith,
      length-unique-le xs,
      length-without-le x (unique xs),
      length-without-lt x (unique xs),
      contains-unique x xs,
    ),
    NoDup-of_length xs (omega (arith, length-unique-le xs, length-without-le x (unique xs))),
  )

  -- The length test of Python's idiom decides that no value occurs twice.
  pub all_distinct_iff : (xs : List A) → (all_distinct xs ≡ true) ↔ NoDup xs
  unfolding all_distinct
  all_distinct_iff xs = (
    λ h. NoDup-of_length xs ((nat_beq_iff _ _).0 h),
    λ h. (nat_beq_iff _ _).1 (ap length (unique_of_NoDup xs h)),
  )

  -- Distinct entries that all stand in a list are at most as many as its entries.
  pub length-le_of_contains :
      (xs ys : List A) → NoDup xs → all (λ x. contains x ys) xs ≡ true → length xs ≤ length ys
  length-le_of_contains [] ys h c = omega arith
  length-le_of_contains (x ∷ xs) ys h c =
      let fewer = length-without-lt x ys (ground arith) in
      let rest = length-le_of_contains xs (without x ys) h.1 (all-without xs h.0 (ground arith)) in
      omega arith
    where
      all-without :
          (zs : List A)
          → contains x zs ≡ false
          → all (λ z. contains z ys) zs ≡ true
          → all (λ z. contains z (without x ys)) zs ≡ true
      all-without [] f a = refl
      all-without (z ∷ zs) f a =
          ground (arith, contains-without x z ys, e.same_iff x z, e.same_iff z x, all-without zs)
