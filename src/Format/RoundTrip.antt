-- ===== src/Format/RoundTrip.antt =====
-- Numbers and addresses that the debugger prints can be typed in again.
use mathlib.Core.List.{append-nil}
use my_dbg.Base.{
  str_eq, ℕ, suc, ◌+◌, ◌^◌, ◌≤◌, ◌<◌, ◌≡◌, refl, true, false, [], ◌∷◌, some, Text, codes, All, ltb,
  leb, ◌==◌, length, arith, starts_with,
}
use my_dbg.Debugger.{Kernel, Dbg, ok}
use my_dbg.Printing.{digits, print_zu, print_p}
use my_dbg.Format.{
  is_space, scan_digits, skip_space, to_ulong, scan_sign, scan_zu, scan_prefix, scan_zx, scan_p,
  whole, read_address, read_size,
}
use my_dbg.Format.Digits.{
  Fits, IsDigit, scan_digits-digits, digits-IsDigit, digits-pos, length-digits, length-digits-Fits,
}

not_percent : (xs : Text) → All IsDigit xs → starts_with xs (codes "%") ≡ false
unfolding starts_with str_eq
not_percent [] h = refl
not_percent (c ∷ cs) (h, hs) = ground arith

not_percent_prefix : (xs : Text) → starts_with (b'0' ∷ b'x' ∷ xs) (codes "%") ≡ false
unfolding starts_with str_eq
not_percent_prefix xs = ground arith

-- The scan at the end of the text
scan_digits-done :
    (base n count found : ℕ) (xs : Text)
    (e : scan_digits base 0 count xs ≡ scan_digits base n found [])
    → scan_digits base 0 count xs ≡ (n, found, [])
unfolding scan_digits
scan_digits-done base n count found xs e = e

not_hex : (xs : Text) → All IsDigit xs → starts_with xs (codes "0x") ≡ false
unfolding starts_with str_eq
not_hex [] h = refl
not_hex (c ∷ []) h = refl
not_hex (c ∷ d ∷ cs) (h, (h', hs)) = ground arith

scan_zu-digits :
    (xs : Text) (n : ℕ)
    → All IsDigit xs
    → 0 < length xs
    → n < 2 ^ 64
    → scan_digits 10 0 0 xs ≡ (n, length xs, [])
    → scan_zu xs ≡ some (n, [])
unfolding scan_zu skip_space scan_sign to_ulong
scan_zu-digits [] n h pos small e = absurd (omega arith)
scan_zu-digits (c ∷ cs) n (h, hs) pos small e =
    let no_space : is_space c ≡ false = ground arith in
    let no_minus : (c == b'-') ≡ false = ground arith in
    let no_plus : (c == b'+') ≡ false = ground arith in
    let in_range : leb (2 ^ 64) n ≡ false = ground arith in
    let some_digit : (length (c ∷ cs) == 0) ≡ false = ground arith in
    rw (no_space, no_minus, no_plus) (rw (e, some_digit) (rw in_range))

scan_zx-digits :
    (xs : Text) (n k : ℕ)
    → n < 2 ^ 64
    → scan_digits 16 0 1 xs ≡ (n, 1 + k, [])
    → scan_zx (b'0' ∷ b'x' ∷ xs) ≡ some (n, [])
unfolding scan_zx skip_space scan_sign scan_prefix to_ulong
scan_zx-digits xs n k small e =
    let in_range : leb (2 ^ 64) n ≡ false = ground arith in
    let some_digit : (1 + k == 0) ≡ false = ground arith in rw (e, some_digit, in_range)

scan_p-digits :
    (xs : Text) (n k : ℕ)
    → n < 2 ^ 64
    → scan_digits 16 0 1 xs ≡ (n, 1 + k, [])
    → scan_p (b'0' ∷ b'x' ∷ xs) ≡ some (n, [])
unfolding scan_p
scan_p-digits xs n k small e = rw (scan_zx-digits xs n k small e, scan_p)

module _ {P : Type 0} ⦃k : Kernel P⦄ where
  read_size_scanned :
      (xs : Text) (n : ℕ) (s : Dbg P)
      → All IsDigit xs
      → length xs ≤ 19
      → scan_zu xs ≡ some (n, [])
      → read_size xs s ≡ ok n s
  unfolding read_size whole
  read_size_scanned xs n s all short scan =
      let below : ltb (length xs) 20 ≡ true = ground arith in
      let within : leb (length xs) 20 ≡ true = ground arith in
      rw (not_percent xs all, not_hex xs all) (rw (within, below) (rw scan))

  read_address_scanned :
      (xs : Text) (n : ℕ) (s : Dbg P)
      → length xs ≤ 16
      → scan_p (b'0' ∷ b'x' ∷ xs) ≡ some (n, [])
      → read_address (b'0' ∷ b'x' ∷ xs) s ≡ ok n s
  unfolding read_address whole
  read_address_scanned xs n s short scan =
      let within : leb (suc (suc (length xs))) 18 ≡ true = ground arith in
      rw (not_percent_prefix xs, within, scan)

  -- A number below 10 ^ 19 that is printed with "%zu" is read back by `read_size`.
  pub read_size-print_zu : (n : ℕ) (s : Dbg P) → n < 10 ^ 19 → read_size (print_zu n) s ≡ ok n s
  unfolding print_zu
  read_size-print_zu n s small =
      let xs : Text = digits 20 10 n in
      let all : All IsDigit xs = digits-IsDigit 20 10 n (omega arith) (omega arith) in
      let fits : Fits 20 10 n = omega (arith, small) in
      let scan : scan_digits 10 0 0 xs ≡ (n, length xs, []) =
        let from_0 : 0 + length xs ≡ length xs = omega arith in
        scan_digits-done 10 n 0 (length xs) xs (
          rw (append-nil xs, from_0) at
            (scan_digits-digits 20 10 n 0 [] (omega arith) (omega arith) fits)) in
      read_size_scanned xs n s all
        (length-digits-Fits 20 19 10 n (omega arith) (omega arith) (omega (arith, small)))
        (scan_zu-digits xs n all (digits-pos 19 10 n) (omega (arith, small)) scan)

  -- An address that is printed with "%p" is read back by `read_address`.
  pub read_address-print_p :
      (addr : ℕ) (s : Dbg P) → addr < 2 ^ 64 → read_address (print_p addr) s ≡ ok addr s
  unfolding print_p
  read_address-print_p addr s small =
      let xs : Text = digits 16 16 addr in
      let fits : Fits 16 16 addr = omega (arith, small) in
      let scan : scan_digits 16 0 1 xs ≡ (addr, 1 + length xs, []) =
        scan_digits-done 16 addr 1 (1 + length xs) xs (
          rw (append-nil xs) at
            (scan_digits-digits 16 16 addr 1 [] (omega arith) (omega arith) fits)) in
      read_address_scanned xs addr s (length-digits 16 16 addr)
        (scan_p-digits xs addr (length xs) small scan)
