-- ===== src/Format.antt =====
-- `read_address` and `read_size` of src/utils/format_utils.c, with what `sscanf` does for the
-- formats "%18p%n" and "%zu%n": white space, a sign, digits or "(nil)", and the number of bytes that
-- were read; and for the "%zx" of src/mem_mappings.c.
pub mod Digits
pub mod RoundTrip
pub mod Unread
pub mod ProcPath
use my_dbg.Base.{
  ◌++◌, ℕ, ◌+◌, ◌-◌, ◌*◌, ◌^◌, ◌%◌, Bool, true, false, ◌&&◌, ◌||◌, [], ◌∷◌, Option, none, some,
  Text, codes, ◌==◌, ltb, leb, if◌then◌else◌, length, drop, starts_with,
}
use my_dbg.Printing.{print_d}
use my_dbg.Debugger.{MyException, Kernel, Line, M, pure, print, ◌>>=◌, ◌>>◌}
use my_dbg.Debugger.Exceptions.{throw, ex_depth}
use my_dbg.Registers.{get_register_from_name}

-- `isspace`
abbrev pub is_space : ℕ → Bool
is_space c = c == 32 || (leb 9 c && leb c 13)

unfoldable pub digit_value : ℕ → Option ℕ
digit_value c =
    if leb b'0' c && leb c b'9'
    then some (c - b'0')
    else if leb b'a' c && leb c b'f'
    then some (c - b'a' + 10)
    else if leb b'A' c && leb c b'F'
    then some (c - b'A' + 10)
    else none

-- The digits of a number in base `base` at the front of a text: their value after `acc`, how many
-- there are after `n`, and the rest.
unfoldable pub scan_digits : (base : ℕ) → (acc n : ℕ) → Text → ℕ × ℕ × Text
unfolding digit_value
scan_digits base acc n [] = (acc, n, [])
scan_digits base acc n (c ∷ cs) = elim (digit_value c) [
  | some d ↦ if ltb d base then scan_digits base (acc * base + d) (n + 1) cs else (acc, n, c ∷ cs)
  | none ↦ (acc, n, c ∷ cs)
]

unfoldable pub skip_space : Text → Text
skip_space [] = []
skip_space (c ∷ cs) = if is_space c then skip_space cs else c ∷ cs

-- `strtoul` on the digits that were read: out of range it gives ULONG_MAX, and a minus sign negates
-- modulo 2 ^ 64.
unfoldable pub to_ulong : (negative : Bool) → ℕ → ℕ
to_ulong negative v =
    if leb (2 ^ 64) v then 2 ^ 64 - 1 else if negative then (2 ^ 64 - v) % 2 ^ 64 else v

-- The sign, if there is one, and the rest
unfoldable pub scan_sign : Text → Bool × Text
scan_sign [] = (false, [])
scan_sign (c ∷ cs) =
    if c == b'-' then (true, cs) else if c == b'+' then (false, cs) else (false, c ∷ cs)

-- The number and the text behind it; `none` where `sscanf` assigns nothing.
unfoldable pub scan_zu : Text → Option (ℕ × Text)
unfolding scan_digits skip_space to_ulong scan_sign
scan_zu str =
    let (negative, t) = scan_sign (skip_space str) in
    let (v, n, rest) = scan_digits 10 0 0 t in
    if n == 0 then none else some (to_ulong negative v, rest)

-- An optional "0x"; the `0` counts as a digit.
unfoldable pub scan_prefix : Text → ℕ × Text
scan_prefix [] = (0, [])
scan_prefix (c ∷ []) = (0, c ∷ [])
scan_prefix (c ∷ d ∷ cs) =
    if c == b'0' && (d == b'x' || d == b'X') then (1, cs) else (0, c ∷ d ∷ cs)

-- The text that the GNU library prints and reads for NULL, in small letters or capitals
unfoldable pub scan_nil : Text → Option (ℕ × Text)
scan_nil (a ∷ b ∷ c ∷ d ∷ e ∷ rest) =
    if a == b'('
      && ((b == b'n' || b == b'N')
          && ((c == b'i' || c == b'I') && ((d == b'l' || d == b'L') && e == b')')))
    then some (0, rest)
    else none
scan_nil _ = none

-- "%zx"
unfoldable pub scan_zx : Text → Option (ℕ × Text)
unfolding scan_digits skip_space to_ulong scan_sign scan_prefix
scan_zx str =
    let (negative, t) = scan_sign (skip_space str) in
    let (n0, u) = scan_prefix t in
    let (v, n, rest) = scan_digits 16 0 n0 u in
    if n == 0 then none else some (to_ulong negative v, rest)

-- "%p"
unfoldable pub scan_p : Text → Option (ℕ × Text)
unfolding scan_zx scan_nil
scan_p str = elim (scan_zx str) [ some read ↦ some read | none ↦ scan_nil (skip_space str) ]

-- A scan that has read the whole text: the test `len == (int) slen`
unfoldable pub whole : Option (ℕ × Text) → Option ℕ
whole none = none
whole (some (v, [])) = some v
whole (some (v, c ∷ cs)) = none

-- `strcmp(a, b) <= 0` of two texts of one length
unfoldable pub not_after : Text → Text → Bool
not_after [] b = true
not_after (x ∷ a) [] = false
not_after (x ∷ a) (y ∷ b) = if ltb x y then true else if ltb y x then false else not_after a b

module _ {P : Type 0} where
  -- The message, unless an outer `try` hides it, and the exception
  unfoldable pub invalid : (message : Line) → M P ℕ
  invalid message = do
    depth ← ex_depth
    if leb depth 1 then print message else pure tt
    throw MyException.exception

module _ {P : Type 0} ⦃k : Kernel P⦄ where
  unfoldable pub read_address : Text → M P ℕ
  unfolding scan_p whole invalid starts_with
  read_address str =
      if starts_with str (codes "%")
      then get_register_from_name (drop 1 str)
      else elim (if leb (length str) 18 then whole (scan_p str) else none) [
        | some addr ↦ pure addr
        | none ↦ invalid (Line.text "Invalid address specified")
      ]

  unfoldable pub read_size : Text → M P ℕ
  unfolding scan_zu whole invalid not_after starts_with read_address
  read_size str =
      if starts_with str (codes "0x") || starts_with str (codes "%")
      then read_address str
      else elim (if leb (length str) 20
            && (ltb (length str) 20 || not_after str (codes "18446744073709551615"))
          then whole (scan_zu str)
          else none) [
            | some size ↦ pure size
            | none ↦ invalid (Line.text "Invalid number specified")
          ]

module _ {P : Type 0} where
  -- "/proc/%d/%s"
  unfoldable pub get_proc_path : (name : Text) → M P Text
  unfolding print_d
  get_proc_path name s =
      let path = codes "/proc/" ++ (print_d s.pid ++ b'/' ∷ name) in
      if leb (length path) (7 + length name)
      then throw MyException.printf_exception s
      else pure path s
