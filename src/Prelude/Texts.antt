-- ===== src/Prelude/Texts.antt =====
-- Python's `str` as the list of its code points, with the methods that the program uses.
use Prim.Native.Nat.{ℕ, ◌+◌}
use Prim.Native.Char.{code}
use Prim.Native.String.{String}
use mathlib.Core.Bool.{Bool, true, false, ◌&&◌, ◌||◌}
use mathlib.Core.List.{List, [], ◌∷◌}
use tarkka.Prelude.Tests.{leb, nat_beq, if◌then◌else◌}
use tarkka.Prelude.Unique.{◌==◌, list_beq, nat_eq, list_eq}

abbrev pub Text : Type 0
Text = List ℕ

-- The code points of a literal.
abbrev pub codes : String → Text
codes String.[] = []
codes (String.◌∷◌ c s) = code c ∷ codes s

-- str.isspace for one character: what `strip` and `split` drop
unfoldable pub is_space : ℕ → Bool
is_space c =
    (leb 9 c && leb c 13)
    || (leb 28 c && leb c 32)
    || nat_beq c 133
    || nat_beq c 160
    || nat_beq c 5760
    || (leb 8192 c && leb c 8202)
    || nat_beq c 8232
    || nat_beq c 8233
    || nat_beq c 8239
    || nat_beq c 8287
    || nat_beq c 12288

module _ (p : ℕ → Bool) where
  -- s.lstrip(chars) and s.rstrip(chars), for the characters with `p`
  unfoldable pub lstrip_of : Text → Text
  lstrip_of [] = []
  lstrip_of (c ∷ cs) = let rest = lstrip_of cs in if p c then rest else c ∷ cs

  unfoldable pub rstrip_of : Text → Text
  rstrip_of [] = []
  rstrip_of (c ∷ cs) = elim (rstrip_of cs) [ [] ↦ if p c then [] else c ∷ [] | d ∷ ds ↦ c ∷ d ∷ ds ]

-- s.strip()
unfoldable pub strip : Text → Text
unfolding lstrip_of rstrip_of is_space
strip s = rstrip_of is_space (lstrip_of is_space s)

-- not s
abbrev pub is_empty : Text → Bool
is_empty [] = true
is_empty (c ∷ cs) = false

-- not s.strip()
unfoldable pub is_blank : Text → Bool
unfolding strip
is_blank s = is_empty (strip s)

-- The lower case of an ASCII letter; other code points are kept.
unfoldable pub ascii_lower : ℕ → ℕ
ascii_lower c = if leb 65 c && leb c 90 then c + 32 else c

-- s.startswith(prefix)
unfoldable pub starts_with : Text → Text → Bool
starts_with [] s = true
starts_with (p ∷ ps) [] = false
starts_with (p ∷ ps) (c ∷ cs) = nat_beq p c && starts_with ps cs

-- s.endswith(suffix)
unfoldable pub ends_with : Text → Text → Bool
unfolding list_beq
ends_with suffix [] = [] == suffix
ends_with suffix (c ∷ cs) = c ∷ cs == suffix || ends_with suffix cs

abbrev pub add_to_first : ℕ → List Text → List Text
add_to_first c [] = (c ∷ []) ∷ []
add_to_first c (w ∷ ws) = (c ∷ w) ∷ ws

-- s.split(sep) for a separator of one character
unfoldable pub split_on : ℕ → Text → List Text
split_on sep [] = [] ∷ []
split_on sep (c ∷ cs) =
    let rest = split_on sep cs in if nat_beq c sep then [] ∷ rest else add_to_first c rest
