-- ===== src/Common/Bytes.antt =====
-- Text as its bytes. A C string is such a list with no zero byte.
use Prim.Native.Nat.{ℕ}
use Prim.Native.Char.{code}
use Prim.Native.String.{String}
use mathlib.Core.Path.{◌≡◌, refl, ap}
use mathlib.Core.Logic.{◌↔◌}
use mathlib.Core.Bool.{Bool, true, false, ◌&&◌}
use mathlib.Core.List.{List, [], ◌∷◌}
use native.Mathlib.Omega.{arith}
use kitsune_ufork.Common.Tests.{◌==◌, ltb, if◌then◌else◌}

abbrev pub Text : Type 0
Text = List ℕ

abbrev pub codes : String → Text
codes String.[] = []
codes (String.◌∷◌ c s) = code c ∷ codes s

-- `a == b` and `a < b` of `string_view`: byte by byte, a proper prefix first.
unfoldable pub str_eql : Text → Text → Bool
str_eql [] [] = true
str_eql [] (b ∷ t) = false
str_eql (a ∷ s) [] = false
str_eql (a ∷ s) (b ∷ t) = a == b && str_eql s t

unfoldable pub str_less : Text → Text → Bool
str_less s [] = false
str_less [] (b ∷ t) = true
str_less (a ∷ s) (b ∷ t) = if ltb a b then true else if a == b then str_less s t else false

pub str_eql_refl : (s : Text) → str_eql s s ≡ true
unfolding str_eql
str_eql_refl [] = refl
str_eql_refl (a ∷ s) = ground (arith, str_eql_refl s)

pub str_eql-eq : (s t : Text) → str_eql s t ≡ true → s ≡ t
unfolding str_eql
str_eql-eq [] [] h = refl
str_eql-eq [] (b ∷ t) h = ground arith
str_eql-eq (a ∷ s) [] h = ground arith
str_eql-eq (a ∷ s) (b ∷ t) h = ground (arith, str_eql-eq s t)

pub str_eql_iff : (s t : Text) → (str_eql s t ≡ true) ↔ (s ≡ t)
str_eql_iff s t = (str_eql-eq s t, λ e. ground (arith, ap (str_eql s) e, str_eql_refl s))

-- `str_starts(s, ss)` of native/src/base/misc.hpp
unfoldable pub str_starts : Text → Text → Bool
str_starts s [] = true
str_starts [] (b ∷ t) = false
str_starts (a ∷ s) (b ∷ t) = a == b && str_starts s t

-- The C string that `s.data()` points to: the bytes before the first zero.
unfoldable pub c_str : Text → Text
c_str [] = []
c_str (c ∷ s) = if c == 0 then [] else c ∷ c_str s
