-- ===== src/Prelude/Slices.antt =====
-- `take` and `drop`: the slices of a list.
use Prim.Native.Nat.{ℕ, zero, suc, ◌+◌, ◌≤◌}
use mathlib.Core.Path.{◌≡◌, refl, ap, sym, ◌∙◌}
use mathlib.Core.List.{List, [], ◌∷◌, ◌++◌}
use native.Mathlib.Omega.{arith}
use tarkka.Prelude.Lists.{length, take, drop, All}

module _ {ℓ} {A : Type ℓ} where
  pub drop-eq : {m n : ℕ} (s : List A) → m ≡ n → drop m s ≡ drop n s
  drop-eq s e = ap (λ k. drop k s) e

  pub drop_none : (n : ℕ) (s : List A) → length s ≤ n → drop n s ≡ []
  drop_none zero [] h = refl
  drop_none zero (c ∷ cs) h = absurd (omega arith)
  drop_none (suc n) [] h = refl
  drop_none (suc n) (c ∷ cs) h = drop_none n cs (omega arith)

  pub drop-drop : (m n : ℕ) (s : List A) → drop m (drop n s) ≡ drop (n + m) s
  drop-drop m zero s = drop-eq s (omega arith)
  drop-drop zero (suc n) [] = sym (drop_none (suc n + 0) [] (omega arith))
  drop-drop (suc m) (suc n) [] = sym (drop_none (suc n + suc m) [] (omega arith))
  drop-drop m (suc n) (c ∷ cs) = drop-drop m n cs ∙ drop-eq {m = suc (n + m)} (c ∷ cs) (omega arith)

  pub drop-append : (n : ℕ) (s t : List A) → n ≤ length s → drop n (s ++ t) ≡ drop n s ++ t
  drop-append zero s t h = refl
  drop-append (suc n) [] t h = absurd (omega arith)
  drop-append (suc n) (c ∷ cs) t h = drop-append n cs t (omega arith)

  pub drop-length : (s t : List A) → drop (length s) (s ++ t) ≡ t
  drop-length [] t = refl
  drop-length (c ∷ cs) t = drop-length cs t

  pub take-drop : (n : ℕ) (s : List A) → take n s ++ drop n s ≡ s
  take-drop zero s = refl
  take-drop (suc n) [] = refl
  take-drop (suc n) (c ∷ cs) = ap (λ (t : List A). c ∷ t) (take-drop n cs)

  pub length-take : (n : ℕ) (s : List A) → n ≤ length s → length (take n s) ≡ n
  length-take zero s h = refl
  length-take (suc n) [] h = omega arith
  length-take (suc n) (c ∷ cs) h = omega (arith, length-take n cs (omega arith))

  pub drop_all : (n : ℕ) (s : List A) → drop n s ≡ [] → length s ≤ n
  drop_all zero s h = rw h (omega arith)
  drop_all (suc n) [] h = omega arith
  drop_all (suc n) (c ∷ cs) h = omega (arith, drop_all n cs h)

  pub length-drop : (n : ℕ) (s : List A) → n ≤ length s → n + length (drop n s) ≡ length s
  length-drop zero s h = omega arith
  length-drop (suc n) [] h = absurd (omega arith)
  length-drop (suc n) (c ∷ cs) h = omega (arith, length-drop n cs (omega arith))

  pub All-drop {κ} : (P : A → Type κ) (n : ℕ) (s : List A) → All P s → All P (drop n s)
  All-drop P zero s a = a
  All-drop P (suc n) [] a = tt
  All-drop P (suc n) (c ∷ cs) a = All-drop P n cs a.1
