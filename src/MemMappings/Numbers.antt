-- ===== src/MemMappings/Numbers.antt =====
-- The numbers in a line of /proc/<pid>/maps, as the scan reads them.
use mathlib.Core.List.{append_assoc, append-nil}
use my_dbg.Base.{
  ℕ, zero, suc, ◌+◌, ◌*◌, ◌/◌, ◌%◌, ◌^◌, ◌<◌, ◌≡◌, refl, ◌∙◌, ap, false, ◌&&◌, ◌||◌, [], ◌∷◌, ◌++◌,
  none, some, arith, All, leb, ◌==◌, Text, length, length-append, take, drop, take-append,
}
use my_dbg.Printing.{digit, digits}
use my_dbg.Format.{
  is_space, digit_value, scan_digits, skip_space, to_ulong, scan_sign, scan_prefix, scan_zx,
  scan_zu,
}
use my_dbg.Format.Digits.{
  Fits, IsDigit, All-append, scan_digits-digit, scan_digits-digits, digits-IsDigit, digits-pos,
}
use my_dbg.MemMappings.{scan_width}

-- `n` in just so many digits
abbrev pub fixed : (places base n : ℕ) → Text
fixed zero base n = []
fixed (suc places) base n = fixed places base (n / base) ++ digit (n % base) ∷ []

length-fixed : (places base n : ℕ) → length (fixed places base n) ≡ places
length-fixed zero base n = refl
length-fixed (suc places) base n = omega (
  arith,
  length-fixed places base (n / base),
  length-append (fixed places base (n / base)) (digit (n % base) ∷ []),
)

fixed-IsDigit : (places n : ℕ) → All IsDigit (fixed places 16 n)
fixed-IsDigit zero n = tt
fixed-IsDigit (suc places) n =
    let low : n % 16 < 16 = grind arith in
    All-append IsDigit (fixed places 16 (n / 16)) (digit (n % 16) ∷ [])
      (fixed-IsDigit places (n / 16)) (ground arith, tt)

scan_digits-fixed :
    (places n count : ℕ) (rest : Text)
    → Fits places 16 n
    → scan_digits 16 0 count (fixed places 16 n ++ rest) ≡ scan_digits 16 n (count + places) rest
scan_digits-fixed zero n count rest fits = rw fits (ap (λ c. scan_digits 16 0 c rest) (omega arith))
scan_digits-fixed (suc places) n count rest fits =
    let value : n / 16 * 16 + n % 16 ≡ n = grind arith in
    let low : n % 16 < 16 = grind arith in
    rw
      (
        append_assoc (fixed places 16 (n / 16)) (digit (n % 16) ∷ []) rest,
        scan_digits-fixed places (n / 16) count (digit (n % 16) ∷ rest) fits,
        scan_digits-digit 16 (n / 16) (count + places) (n % 16) rest low (omega arith),
        value,
      )
      (ap (λ c. scan_digits 16 n c rest) (omega arith))

-- A text that no digit begins
abbrev pub Stops : Text → Type 0
Stops [] = Unit {0}
Stops (c ∷ cs) = digit_value c ≡ none

scan_digits-Stops :
    (base acc count : ℕ) (rest : Text)
    → Stops rest
    → scan_digits base acc count rest ≡ (acc, count, rest)
unfolding scan_digits
scan_digits-Stops base acc count [] h = refl
scan_digits-Stops base acc count (c ∷ cs) h = rw (h, scan_digits) refl

scan_zx_lem :
    (xs rest : Text) (v k : ℕ)
    → All IsDigit xs
    → 1 < length xs
    → v < 2 ^ 64
    → scan_digits 16 0 0 (xs ++ rest) ≡ (v, suc k, rest)
    → scan_zx (xs ++ rest) ≡ some (v, rest)
unfolding scan_zx skip_space scan_sign scan_prefix to_ulong
scan_zx_lem [] rest v k h long small e = absurd (omega arith)
scan_zx_lem (c ∷ []) rest v k h long small e = absurd (omega arith)
scan_zx_lem (c ∷ d ∷ cs) rest v k (hc, (hd, h)) long small e =
    let no_space : is_space c ≡ false = ground arith in
    let no_minus : (c == b'-') ≡ false = ground arith in
    let no_plus : (c == b'+') ≡ false = ground arith in
    let no_prefix : (c == b'0' && (d == b'x' || d == b'X')) ≡ false = ground arith in
    let in_range : leb (2 ^ 64) v ≡ false = ground arith in
    let some_digit : (suc k == 0) ≡ false = ground arith in
    rw (no_space, no_minus, no_plus) (rw no_prefix (rw (e, some_digit) (rw in_range refl)))

-- A number in two digits or more
pub scan_zx-fixed :
    (places n : ℕ) (rest : Text)
    → 1 < places
    → n < 2 ^ 64
    → Fits places 16 n
    → Stops rest
    → scan_zx (fixed places 16 n ++ rest) ≡ some (n, rest)
scan_zx-fixed zero n rest long small fits stops = absurd (omega arith)
scan_zx-fixed (suc places) n rest long small fits stops =
    scan_zx_lem (fixed (suc places) 16 n) rest n places (fixed-IsDigit (suc places) n)
      (omega (arith, length-fixed (suc places) 16 n)) small
      (scan_digits-fixed (suc places) n 0 rest fits
        ∙ (scan_digits-Stops 16 n (0 + suc places) rest stops
            ∙ ap (λ c. (n, c, rest)) (omega arith)))

drop-append : (xs ys : Text) → drop (length xs) (xs ++ ys) ≡ ys
drop-append [] ys = refl
drop-append (x ∷ xs) ys = drop-append xs ys

-- A digit is no white space.
skip_space-IsDigit :
    (xs rest : Text) → 0 < length xs → All IsDigit xs → skip_space (xs ++ rest) ≡ xs ++ rest
unfolding skip_space
skip_space-IsDigit [] rest pos h = absurd (omega arith)
skip_space-IsDigit (c ∷ cs) rest pos (hc, h) =
    let no_space : is_space c ≡ false = ground arith in rw no_space refl

pub scan_width-fixed :
    (width n : ℕ) (rest : Text)
    → 1 < width
    → n < 2 ^ 64
    → Fits width 16 n
    → scan_width width (fixed width 16 n ++ rest) ≡ some (n, rest)
unfolding scan_width
scan_width-fixed width n rest long small fits =
    let xs : Text = fixed width 16 n in
    let len : length xs ≡ width = length-fixed width 16 n in
    let front : take width (xs ++ rest) ≡ xs = rw len at (take-append xs rest) in
    let back : drop width (xs ++ rest) ≡ rest = rw len at (drop-append xs rest) in
    let read : scan_zx xs ≡ some (n, []) =
      rw (append-nil xs) at (scan_zx-fixed width n [] long small fits tt) in
    rw (skip_space-IsDigit xs rest (omega (arith, len)) (fixed-IsDigit width n), front, back, read)
      refl

pub scan_width-space : (width : ℕ) (t : Text) → scan_width width (b' ' ∷ t) ≡ scan_width width t
unfolding scan_width skip_space
scan_width-space width t = refl

scan_zu_lem :
    (xs rest : Text) (v k : ℕ)
    → All IsDigit xs
    → 0 < length xs
    → v < 2 ^ 64
    → 0 < k
    → scan_digits 10 0 0 (xs ++ rest) ≡ (v, k, rest)
    → scan_zu (b' ' ∷ (xs ++ rest)) ≡ some (v, rest)
unfolding scan_zu skip_space scan_sign to_ulong
scan_zu_lem [] rest v k h pos small found e = absurd (omega arith)
scan_zu_lem (c ∷ cs) rest v k (hc, h) pos small found e =
    let no_space : is_space c ≡ false = ground arith in
    let no_minus : (c == b'-') ≡ false = ground arith in
    let no_plus : (c == b'+') ≡ false = ground arith in
    let in_range : leb (2 ^ 64) v ≡ false = ground arith in
    let some_digit : (k == 0) ≡ false = ground arith in
    rw (no_space, no_minus, no_plus) (rw (e, some_digit) (rw in_range refl))

pub scan_zu-digits :
    (n : ℕ) (rest : Text)
    → n < 10 ^ 19
    → Stops rest
    → scan_zu (b' ' ∷ (digits 20 10 n ++ rest)) ≡ some (n, rest)
scan_zu-digits n rest small stops =
    let xs : Text = digits 20 10 n in
    let fits : Fits 20 10 n = omega (arith, small) in
    let pos : 0 < length xs = digits-pos 19 10 n in
    scan_zu_lem xs rest n (0 + length xs) (digits-IsDigit 20 10 n (omega arith) (omega arith)) pos
      (omega (arith, small)) (omega (arith, pos))
      (scan_digits-digits 20 10 n 0 rest (omega arith) (omega arith) fits
        ∙ scan_digits-Stops 10 n (0 + length xs) rest stops)
