-- ===== src/Prelude/Keys.antt =====
-- The keys of a dictionary: assignment adds its key, and keeps keys distinct.
use mathlib.Core.Path.{◌≡◌, refl}
use mathlib.Core.Logic.{inl, inr}
use mathlib.Core.Bool.{◌||◌}
use mathlib.Core.List.{List, [], ◌∷◌, map}
use native.Mathlib.Omega.{arith}
use tarkka.Prelude.Tests.{Bool-cases}
use tarkka.Prelude.Lists.{All}
use tarkka.Prelude.Unique.{Eq, ◌==◌, contains, NoDup}
use tarkka.Prelude.Assoc.{put}

module _ {K V : Type 0} where
  abbrev pub keys : List (K × V) → List K
  keys items = map (λ (item : K × V). item.0) items

  abbrev pub values : List (K × V) → List V
  values items = map (λ (item : K × V). item.1) items

module _ {K V : Type 0} ⦃e : Eq K⦄ where
  pub contains-keys-put :
      (k key : K) (value : V) (items : List (K × V))
      → contains k (keys (put key value items)) ≡ (key == k || contains k (keys items))
  contains-keys-put k key value [] = refl
  contains-keys-put k key value (item ∷ items) = ground (
    arith,
    contains-keys-put k key value items,
    e.same_iff item.0 key,
    e.same_iff item.0 k,
    e.same_iff key k,
  )

  pub NoDup-keys-put :
      (key : K) (value : V) (items : List (K × V))
      → NoDup (keys items)
      → NoDup (keys (put key value items))
  NoDup-keys-put key value [] h = (refl, tt)
  NoDup-keys-put key value (item ∷ items) h = ground (
    arith,
    NoDup-keys-put key value items,
    contains-keys-put item.0 key value items,
    e.same_iff item.0 key,
    e.same_iff key item.0,
  )

  -- What the entries have is kept by an assignment of an entry that has it.
  pub All-put {κ} :
      (P : K × V → Type κ) (key : K) (value : V) (items : List (K × V))
      → P (key, value)
      → All P items
      → All P (put key value items)
  All-put P key value [] p a = (p, tt)
  All-put P key value (item ∷ items) p a = elim (Bool-cases (item.0 == key)) [
    | inl here ↦ rw here (p, a.1)
    | inr later ↦ rw later (a.0, All-put P key value items p a.1)
  ]

  pub All-values {κ} :
      (P : V → Type κ) (items : List (K × V))
      → All (λ (item : K × V). P item.1) items
      → All P (values items)
  All-values P [] a = tt
  All-values P (item ∷ items) a = (a.0, All-values P items a.1)
