-- ===== src/Prelude/Results.antt =====
-- A call that returns or raises, as a value: Python's ValueError, RuntimeError and LookupError with
-- their messages, and the WalletExhaustedError of application/context_wallet.py with its three counts.
use Prim.Native.Nat.{ℕ}
use mathlib.Core.Path.{◌≡◌, refl}
use mathlib.Core.Logic.{◌⊎◌, inl, inr}
use mathlib.Core.Bool.{Bool, true, false}
use Prim.Native.String.{String}

pub data Error : Type 0 where
  value_error : String → Error
  runtime_error : String → Error
  key_error : Error
  lookup_error : String → Error
  wallet_exhausted : ℕ → ℕ → ℕ → Error

pub data Result {ℓ} (A : Type ℓ) : Type ℓ where
  err : Error → Result A
  ok : A → Result A

module _ {ℓ κ} {A : Type ℓ} {B : Type κ} where
  infixl 5 ◌>>=◌
  abbrev pub ◌>>=◌ : Result A → (A → Result B) → Result B
  err raised >>= next = err raised
  ok value >>= next = next value

module _ {ℓ} {B : Type ℓ} where
  infixl 5 ◌>>◌
  abbrev pub ◌>>◌ : Result (Unit {0}) → Result B → Result B
  check >> next = check >>= λ _. next

-- if not test: raise ValueError(message)
abbrev pub require : Bool → String → Result (Unit {0})
require true message = ok tt
require false message = err (value_error message)

-- What a chain that returned went through, handed on.
module _ {ℓ κ} {A : Type ℓ} {B : Type κ} where
  pub on_ok {μ} :
      {G : Type μ} (m : Result A) (next : A → Result B) {r : B}
      → (m >>= next) ≡ ok r
      → ((a : A) → m ≡ ok a → next a ≡ ok r → G)
      → G
  on_ok (ok a) next returned k = k a refl returned
  on_ok (err e) next returned k = cc

  pub >>=-eq-ok :
      (m : Result A) (next : A → Result B) {r : B}
      → (m >>= next) ≡ ok r
      → (a : A) × (m ≡ ok a) × (next a ≡ ok r)
  >>=-eq-ok m next returned = on_ok m next returned λ a e h. (a, e, h)

module _ {ℓ} {B : Type ℓ} where
  pub on_require {μ} :
      {G : Type μ} (test : Bool) (message : String) (next : Result B) {r : B}
      → (require test message >> next) ≡ ok r
      → (test ≡ true → next ≡ ok r → G)
      → G
  on_require true message next returned k = k refl returned
  on_require false message next returned k = cc

  pub require-eq-ok :
      (test : Bool) (message : String) (next : Result B) {r : B}
      → (require test message >> next) ≡ ok r
      → (test ≡ true) × (next ≡ ok r)
  require-eq-ok test message next returned = on_require test message next returned λ t h. (t, h)

pub Result-cases {ℓ} :
    {A : Type ℓ} (m : Result A) → ((a : A) × (m ≡ ok a)) ⊎ ((e : Error) × (m ≡ err e))
Result-cases (ok a) = inl (a, refl)
Result-cases (err e) = inr (e, refl)
