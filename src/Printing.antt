-- ===== src/Printing.antt =====
-- What `printf` writes for the numbers of the program: "%zu", "%p", "%02hhx" and "%11d".
use my_dbg.Base.{
  ℕ, zero, suc, ◌+◌, ◌-◌, ◌/◌, ◌%◌, ◌^◌, [], ◌∷◌, ◌++◌, Text, ltb, leb, if◌then◌else◌, length,
}

abbrev pub digit : ℕ → ℕ
digit d = if ltb d 10 then 48 + d else 87 + d

-- The digits of a number; `places` bounds how many there are.
unfoldable pub digits : (places base n : ℕ) → Text
digits zero base n = []
digits (suc places) base n =
    let more = digits places base (n / base) ++ digit (n % base) ∷ [] in
    if ltb n base then digit n ∷ [] else more

-- "%zu" of a `size_t`
unfoldable pub print_zu : ℕ → Text
print_zu n = digits 20 10 n

-- "%p" of a pointer that is not NULL
unfoldable pub print_p : ℕ → Text
print_p n = b'0' ∷ b'x' ∷ digits 16 16 n

-- "%02hhx" of a byte
abbrev pub print_hhx : ℕ → Text
print_hhx b = digit (b / 16) ∷ digit (b % 16) ∷ []

-- "%d" of an `int`, by its bit pattern
unfoldable pub print_d : ℕ → Text
print_d w = if ltb w (2 ^ 31) then digits 10 10 w else b'-' ∷ digits 10 10 (2 ^ 32 - w)

unfoldable pub pad : (width : ℕ) → Text → Text
pad zero t = t
pad (suc width) t = if leb (suc width) (length t) then t else b' ' ∷ pad width t

-- "%11d"
unfoldable pub print_11d : ℕ → Text
unfolding pad print_d
print_11d w = pad 11 (print_d w)
