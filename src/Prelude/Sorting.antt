-- ===== src/Prelude/Sorting.antt =====
-- Python's `sorted` as a stable insertion sort by a test, and `heapq.nsmallest` as its first entries.
use Prim.Native.Nat.{ℕ, suc, compare, Ordering}
use mathlib.Core.Path.{◌≡◌, refl}
use mathlib.Core.Logic.{inl, inr, ◌↔◌}
use mathlib.Core.Bool.{Bool, true, false, ◌||◌}
use mathlib.Core.List.{List, [], ◌∷◌, map}
use native.Mathlib.Omega.{arith}
use tarkka.Prelude.Tests.{if◌then◌else◌, Bool-cases}
use tarkka.Prelude.Lists.{length, All}
use tarkka.Prelude.Unique.{Eq, ◌==◌, contains, NoDup}

-- The comparison of tuples: the next entry decides where the first ones are equal.
abbrev pub then_by : Ordering → Ordering → Ordering
then_by Ordering.eq next = next
then_by Ordering.lt next = Ordering.lt
then_by Ordering.gt next = Ordering.gt

-- The comparison of two texts by their code points.
unfoldable pub text_compare : List ℕ → List ℕ → Ordering
text_compare [] [] = Ordering.eq
text_compare [] (d ∷ ds) = Ordering.lt
text_compare (c ∷ cs) [] = Ordering.gt
text_compare (c ∷ cs) (d ∷ ds) = then_by (compare c d) (text_compare cs ds)

abbrev pub not_gt : Ordering → Bool
not_gt Ordering.gt = false
not_gt _ = true

module _ {ℓ} {A : Type ℓ} (le : A → A → Bool) where
  unfoldable pub insert_sorted : A → List A → List A
  insert_sorted x [] = x ∷ []
  insert_sorted x (y ∷ ys) =
      let rest = insert_sorted x ys in if le x y then x ∷ y ∷ ys else y ∷ rest

  -- sorted(xs, key=...)
  unfoldable pub sorted : List A → List A
  unfolding insert_sorted
  sorted [] = []
  sorted (x ∷ xs) = insert_sorted x (sorted xs)

  length-insert_sorted : (x : A) (xs : List A) → length (insert_sorted x xs) ≡ suc (length xs)
  unfolding insert_sorted
  length-insert_sorted x [] = refl
  length-insert_sorted x (y ∷ ys) = ground (arith, length-insert_sorted x ys)

  pub length-sorted : (xs : List A) → length (sorted xs) ≡ length xs
  unfolding sorted
  length-sorted [] = refl
  length-sorted (x ∷ xs) = ground (arith, length-insert_sorted x (sorted xs), length-sorted xs)

  All-insert_sorted_iff {κ} :
      (P : A → Type κ) (x : A) (xs : List A) → All P (insert_sorted x xs) ↔ (P x × All P xs)
  unfolding insert_sorted
  All-insert_sorted_iff P x [] = (λ a. a, λ a. a)
  All-insert_sorted_iff P x (y ∷ ys) =
      let (to, back) = All-insert_sorted_iff P x ys in
      elim (Bool-cases (le x y)) [
        | inl first ↦ rw first (λ a. a, λ a. a)
        | inr later ↦
            rw later (λ (b, a). let (c, d) = to a in (c, (b, d)), λ (c, (b, d)). (b, back (c, d)))
      ]

  pub All-sorted_iff {κ} : (P : A → Type κ) (xs : List A) → All P (sorted xs) ↔ All P xs
  unfolding sorted
  All-sorted_iff P [] = (λ a. a, λ a. a)
  All-sorted_iff P (x ∷ xs) =
      let (to, back) = All-sorted_iff P xs in
      let (out, into) = All-insert_sorted_iff P x (sorted xs) in
      (λ a. let (b, c) = out a in (b, to c), λ (b, c). into (b, back c))

-- A key of the entries occurs once after the sort where it did before.
module _ {ℓ κ} {A : Type ℓ} {K : Type κ} ⦃e : Eq K⦄ (le : A → A → Bool) (key : A → K) where
  contains-insert_sorted :
      (k : K) (x : A) (xs : List A)
      → contains k (map key (insert_sorted le x xs)) ≡ (key x == k || contains k (map key xs))
  unfolding insert_sorted
  contains-insert_sorted k x [] = refl
  contains-insert_sorted k x (y ∷ ys) = ground (arith, contains-insert_sorted k x ys)

  pub contains-sorted :
      (k : K) (xs : List A) → contains k (map key (sorted le xs)) ≡ contains k (map key xs)
  unfolding sorted
  contains-sorted k [] = refl
  contains-sorted k (x ∷ xs) =
      ground (arith, contains-insert_sorted k x (sorted le xs), contains-sorted k xs)

  NoDup-insert_sorted :
      (x : A) (xs : List A)
      → contains (key x) (map key xs) ≡ false
      → NoDup (map key xs)
      → NoDup (map key (insert_sorted le x xs))
  unfolding insert_sorted
  NoDup-insert_sorted x [] fresh h = (refl, tt)
  NoDup-insert_sorted x (y ∷ ys) fresh h = ground (
    arith,
    NoDup-insert_sorted x ys,
    contains-insert_sorted (key y) x ys,
    e.same_iff (key x) (key y),
    e.same_iff (key y) (key x),
  )

  pub NoDup-sorted : (xs : List A) → NoDup (map key xs) → NoDup (map key (sorted le xs))
  unfolding sorted
  NoDup-sorted [] h = tt
  NoDup-sorted (x ∷ xs) h =
      NoDup-insert_sorted x (sorted le xs) (ground (arith, contains-sorted (key x) xs))
        (NoDup-sorted xs h.1)
