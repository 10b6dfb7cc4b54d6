-- ===== src/Base/Texts.antt =====
-- C strings as the lists of their bytes, without the terminator; src/utils/string_utils.c.
use Prim.Native.Nat.{ℕ}
use Prim.Native.Char.{code}
use Prim.Native.String.{String}
use mathlib.Core.Path.{◌≡◌, refl}
use mathlib.Core.Bool.{Bool, true, false, ◌&&◌}
use mathlib.Core.List.{List, [], ◌∷◌, ◌++◌}
use native.Mathlib.Omega.{arith}
use my_dbg.Base.Tests.{ltb, ◌==◌, if◌then◌else◌}
use my_dbg.Base.Lists.{length, take, take-append, length-append}

abbrev pub Text : Type 0
Text = List ℕ

-- The bytes of an ASCII literal
abbrev pub codes : String → Text
codes String.[] = []
codes (String.◌∷◌ c s) = code c ∷ codes s

-- `!strcmp(a, b)`
unfoldable pub str_eq : Text → Text → Bool
str_eq [] [] = true
str_eq [] (b ∷ bs) = false
str_eq (a ∷ as') [] = false
str_eq (a ∷ as') (b ∷ bs) = (a == b) && str_eq as' bs

unfoldable pub starts_with : (haystack needle : Text) → Bool
unfolding str_eq
starts_with haystack needle =
    if ltb (length haystack) (length needle)
    then false
    else str_eq (take (length needle) haystack) needle

pub str_eq→eq : (a b : Text) → str_eq a b ≡ true → a ≡ b
unfolding str_eq
str_eq→eq [] [] h = refl
str_eq→eq [] (b ∷ bs) h = cc
str_eq→eq (a ∷ as') [] h = cc
str_eq→eq (a ∷ as') (b ∷ bs) h = ground (arith, str_eq→eq as' bs)

pub str_eq_refl : (a : Text) → str_eq a a ≡ true
unfolding str_eq
str_eq_refl [] = refl
str_eq_refl (a ∷ as') = ground (arith, str_eq_refl as')

pub str_eq_comm : (a b : Text) → str_eq a b ≡ str_eq b a
unfolding str_eq
str_eq_comm [] [] = refl
str_eq_comm [] (b ∷ bs) = refl
str_eq_comm (a ∷ as') [] = refl
str_eq_comm (a ∷ as') (b ∷ bs) = ground (arith, str_eq_comm as' bs)

pub starts_with-take : (h n : Text) → starts_with h n ≡ true → take (length n) h ≡ n
unfolding starts_with
starts_with-take h n e = ground (arith, str_eq→eq (take (length n) h) n)

pub starts_with-append : (n r : Text) → starts_with (n ++ r) n ≡ true
unfolding starts_with
starts_with-append n r = rw (take-append n r) (ground (arith, length-append n r, str_eq_refl n))
