-- ===== src/Prelude/Numbers.antt =====
-- Python numbers as the callers pass them: integers of either sign, and floats by their order.
use Prim.Native.Nat.{ℕ}
use Prim.Native.String.{String}
use tarkka.Prelude.Results.{Result, ok, err, value_error}

-- `negsuc n` is -(n + 1).
pub data ℤ : Type 0 where
  pos : ℕ → ℤ
  negsuc : ℕ → ℤ

-- The program compares floats and takes their maximum, so a float is its place in the order. The
-- non-negative finite doubles are ordered as their bit patterns, which `finite` holds; both zeros
-- are `finite 0`.
pub data Float : Type 0 where
  nan : Float
  infinite : Float
  negative : ℕ → Float
  finite : ℕ → Float

-- if not isinstance(value, int) or value < 0: raise ValueError(message)
abbrev pub require_non_negative_int : ℤ → String → Result ℕ
require_non_negative_int (pos n) message = ok n
require_non_negative_int (negsuc n) message = err (value_error message)

-- if not math.isfinite(value) or value < 0: raise ValueError(message)
abbrev pub require_finite_non_negative : Float → String → Result ℕ
require_finite_non_negative (finite n) message = ok n
require_finite_non_negative _ message = err (value_error message)
