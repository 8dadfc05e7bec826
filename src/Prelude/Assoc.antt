-- ===== src/Prelude/Assoc.antt =====
-- Python dictionaries as association lists: lookup, and the assignment that replaces or appends.
use Prim.Native.Nat.{ℕ, ◌+◌}
use mathlib.Core.Path.{◌≡◌, refl, ap, ◌∙◌}
use mathlib.Core.Logic.{inl, inr}
use mathlib.Core.Bool.{false}
use mathlib.Core.Option.{Option, none, some}
use mathlib.Core.List.{List, [], ◌∷◌}
use native.Mathlib.Omega.{arith}
use tarkka.Prelude.Tests.{if◌then◌else◌, Bool-cases}
use tarkka.Prelude.Lists.{sum}
use tarkka.Prelude.Unique.{Eq, ◌==◌, beq_refl}

module _ {ℓ κ} {K : Type ℓ} {V : Type κ} ⦃e : Eq K⦄ where
  -- d.get(key)
  abbrev pub lookup : K → List (K × V) → Option V
  lookup key [] = none
  lookup key (item ∷ items) =
      let rest = lookup key items in if item.0 == key then some item.1 else rest

  -- d[key] = value
  abbrev pub put : K → V → List (K × V) → List (K × V)
  put key value [] = (key, value) ∷ []
  put key value (item ∷ items) =
      let rest = put key value items in if item.0 == key then (key, value) ∷ items else item ∷ rest

module _ {ℓ κ} {K : Type ℓ} {V : Type κ} ⦃e : Eq K⦄ where
  pub lookup-put :
      (key : K) (value : V) (items : List (K × V)) → lookup key (put key value items) ≡ some value
  lookup-put key value [] = rw (beq_refl key) refl
  lookup-put key value (item ∷ items) = elim (Bool-cases (item.0 == key)) [
    | inl here ↦ rw (here, beq_refl key) refl
    | inr later ↦ rw (later, later) (lookup-put key value items)
  ]

  pub lookup-put_ne :
      (key other : K) (value : V) (items : List (K × V))
      → (key == other) ≡ false
      → lookup other (put key value items) ≡ lookup other items
  lookup-put_ne key other value [] ne = rw ne refl
  lookup-put_ne key other value (item ∷ items) ne = elim (Bool-cases (item.0 == key)) [
    | inl here ↦
        let same = (e.same_iff item.0 key).0 here in
        let ne' : (item.0 == other) ≡ false = ap (λ (k : K). k == other) same ∙ ne in
        rw (here, ne, ne') refl
    | inr later ↦ rw (later, lookup-put_ne key other value items ne) refl
  ]

  -- A new key adds its value to a sum over the values.
  pub sum-put :
      (f : K × V → ℕ) (key : K) (value : V) (items : List (K × V))
      → lookup key items ≡ none
      → sum f (put key value items) ≡ sum f items + f (key, value)
  sum-put f key value [] absent = omega arith
  sum-put f key value (item ∷ items) absent = elim (Bool-cases (item.0 == key)) [
    | inl here ↦ absurd (ground arith)
    | inr later ↦ rw later (omega (arith, sum-put f key value items (ground arith)))
  ]
