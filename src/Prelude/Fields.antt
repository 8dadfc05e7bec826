-- ===== src/Prelude/Fields.antt =====
-- Tests field by field: optional fields, and a list of tests that all hold.
use mathlib.Core.Path.{◌≡◌, refl}
use mathlib.Core.Logic.{◌↔◌}
use mathlib.Core.Bool.{Bool, true, false}
use mathlib.Core.Option.{Option, none, some}
use mathlib.Core.List.{List, [], ◌∷◌}
use native.Mathlib.Omega.{arith}
use tarkka.Prelude.Lists.{all, All}
use tarkka.Prelude.Unique.{Eq, ◌==◌}

unfoldable pub option_beq : {A : Type 0} ⦃e : Eq A⦄ → Option A → Option A → Bool
option_beq none none = true
option_beq (some a) (some b) = a == b
option_beq _ _ = false

pub option_beq_iff : {A : Type 0} ⦃e : Eq A⦄ (a b : Option A) → (option_beq a b ≡ true) ↔ (a ≡ b)
unfolding option_beq
option_beq_iff none none = ground arith
option_beq_iff ⦃e⦄ (some a) (some b) = ground (arith, e.same_iff a b)
option_beq_iff none (some b) = ground arith
option_beq_iff (some a) none = ground arith

instance abbrev pub option_eq : {A : Type 0} ⦃e : Eq A⦄ → Eq (Option A)
option_eq = record { same = option_beq; same_iff = option_beq_iff }

pub tests_hold :
    (tests : List Bool) → all (λ test. test) tests ≡ true → All (λ test. test ≡ true) tests
tests_hold [] h = tt
tests_hold (true ∷ tests) h = (refl, tests_hold tests h)
tests_hold (false ∷ tests) h = cc

pub tests_hold_of :
    (tests : List Bool) → All (λ test. test ≡ true) tests → all (λ test. test) tests ≡ true
tests_hold_of [] h = refl
tests_hold_of (test ∷ tests) h = ground (arith, tests_hold_of tests h.1)
