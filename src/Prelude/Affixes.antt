-- ===== src/Prelude/Affixes.antt =====
-- Texts that end with a suffix or are split at a separator.
use Prim.Native.Nat.{ℕ}
use mathlib.Core.Path.{◌≡◌, refl, ap}
use mathlib.Core.Logic.{◌≢◌, inl, inr}
use mathlib.Core.Bool.{true}
use mathlib.Core.List.{[], ◌∷◌, ◌++◌}
use native.Mathlib.Omega.{arith}
use tarkka.Prelude.Tests.{Bool-cases}
use tarkka.Prelude.Unique.{◌==◌, nat_eq, list_eq, list_beq_iff}
use tarkka.Prelude.Texts.{Text, ends_with, split_on}

pub split_on-ne : (sep : ℕ) (s : Text) → split_on sep s ≢ []
unfolding split_on
split_on-ne sep [] = ground arith
split_on-ne sep (c ∷ cs) = ground (arith, split_on-ne sep cs)

pub ends_with_lem : (suffix s : Text) → ends_with suffix s ≡ true → (p : Text) × (s ≡ p ++ suffix)
unfolding ends_with
ends_with_lem suffix [] h = ([], ground (arith, list_beq_iff [] suffix))
ends_with_lem suffix (c ∷ cs) h = elim (Bool-cases (c ∷ cs == suffix)) [
  | inl same ↦ ([], (list_beq_iff (c ∷ cs) suffix).0 same)
  | inr other ↦
      let (p, e) = ends_with_lem suffix cs (ground arith) in (c ∷ p, ap (λ (t : Text). c ∷ t) e)
]

pub ends_with_self : (s : Text) → ends_with s s ≡ true
unfolding ends_with
ends_with_self [] = refl
ends_with_self (c ∷ cs) = ground (arith, list_beq_iff (c ∷ cs) (c ∷ cs))

pub ends_with-append : (p s : Text) → ends_with s (p ++ s) ≡ true
unfolding ends_with
ends_with-append [] s = ends_with_self s
ends_with-append (d ∷ ds) s = ground (arith, ends_with-append ds s)
