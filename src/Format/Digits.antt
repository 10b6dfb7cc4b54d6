-- ===== src/Format/Digits.antt =====
-- Reading the digits that `digits` writes.
use mathlib.Core.List.{append_assoc}
use my_dbg.Base.{
  ℕ, zero, suc, ◌+◌, ◌*◌, ◌/◌, ◌%◌, ◌≤◌, ◌<◌, ◌≡◌, true, false, ◌&&◌, ◌||◌, [], ◌∷◌, ◌++◌, some,
  Text, All, ltb, length, arith, Bool-cases, inl, inr, length-append, ap,
}
use my_dbg.Printing.{digit, digits}
use my_dbg.Format.{digit_value, scan_digits}

digit_value-digit : (d : ℕ) → d < 16 → digit_value (digit d) ≡ some d
unfolding digit_value
digit_value-digit d h = ground arith

pub scan_digits-digit :
    (base acc count d : ℕ) (rest : Text)
    → d < base
    → base ≤ 16
    → scan_digits base acc count (digit d ∷ rest)
      ≡ scan_digits base (acc * base + d) (count + 1) rest
unfolding scan_digits
scan_digits-digit base acc count d rest lt hi =
    let in_base : ltb d base ≡ true = ground arith in
    rw (digit_value-digit d (omega (arith, lt, hi)), scan_digits) (rw in_base)

-- The number has at most so many digits.
abbrev pub Fits : (places base n : ℕ) → Type 0
Fits zero base n = n ≡ 0
Fits (suc places) base n = Fits places base (n / base)

-- Reading the digits of `n` from a value 0 gives `n`, whatever follows.
pub scan_digits-digits :
    (places base n count : ℕ) (rest : Text)
    → 1 < base
    → base ≤ 16
    → Fits places base n
    → scan_digits base 0 count (digits places base n ++ rest)
      ≡ scan_digits base n (count + length (digits places base n)) rest
unfolding digits
scan_digits-digits zero base n count rest lo hi fits =
    rw (fits) (ap (λ c. scan_digits base 0 c rest) (omega arith))
scan_digits-digits (suc places) base n count rest lo hi fits = elim (Bool-cases (ltb n base)) [
  | inl small ↦
      rw (small, scan_digits-digit base 0 count n rest (ground arith) hi)
        (ap (λ c. scan_digits base c (count + 1) rest) (omega arith))
  | inr large ↦
      let d = n % base in
      let front = digits places base (n / base) in
      let value : n / base * base + d ≡ n = grind arith in
      let low : d < base = grind arith in
      rw
        (
          large,
          append_assoc front (digit d ∷ []) rest,
          scan_digits-digits places base (n / base) count (digit d ∷ rest) lo hi fits,
          scan_digits-digit base (n / base) (count + length front) d rest low hi,
          value,
        )
        (ap (λ c. scan_digits base n c rest) (omega (arith, length-append front (digit d ∷ []))))
]

-- The characters that are digits
abbrev pub IsDigit : ℕ → Type 0
IsDigit c = ltb c 48 || ltb 102 c || (ltb 57 c && ltb c 97) ≡ false

pub All-append : (P : ℕ → Type 0) (xs ys : Text) → All P xs → All P ys → All P (xs ++ ys)
All-append P [] ys hx hy = hy
All-append P (x ∷ xs) ys (h, hx) hy = (h, All-append P xs ys hx hy)

pub digits-IsDigit : (places base n : ℕ) → 1 < base → base ≤ 16 → All IsDigit (digits places base n)
unfolding digits
digits-IsDigit zero base n lo hi = tt
digits-IsDigit (suc places) base n lo hi = elim (Bool-cases (ltb n base)) [
  | inl small ↦ rw small (ground arith, tt)
  | inr large ↦
      let low : n % base < base = grind arith in
      rw large (
        All-append IsDigit (digits places base (n / base)) (digit (n % base) ∷ [])
          (digits-IsDigit places base (n / base) lo hi) (ground arith, tt))
]

pub digits-pos : (places base n : ℕ) → 0 < length (digits (suc places) base n)
unfolding digits
digits-pos places base n = elim (Bool-cases (ltb n base)) [
  | inl small ↦ rw small (omega arith)
  | inr large ↦
      rw large
        (omega (arith, length-append (digits places base (n / base)) (digit (n % base) ∷ [])))
]

pub length-digits : (places base n : ℕ) → length (digits places base n) ≤ places
unfolding digits
length-digits zero base n = omega arith
length-digits (suc places) base n = elim (Bool-cases (ltb n base)) [
  | inl small ↦ rw small (omega arith)
  | inr large ↦ rw large (
      omega (
        arith,
        length-append (digits places base (n / base)) (digit (n % base) ∷ []),
        length-digits places base (n / base),
      ))
]

pub length-digits-Fits :
    (places p base n : ℕ) → 1 < base → 0 < p → Fits p base n → length (digits places base n) ≤ p
unfolding digits
length-digits-Fits zero p base n lo pos fits = omega arith
length-digits-Fits (suc places) zero base n lo pos fits = absurd (omega arith)
length-digits-Fits (suc places) (suc p) base n lo pos fits = elim (Bool-cases (ltb n base)) [
  | inl small ↦ rw small (omega arith)
  | inr large ↦
      let front = digits places base (n / base) in
      let more : 0 < n / base = grind arith in
      rw large (
        omega (
          arith,
          length-append front (digit (n % base) ∷ []),
          length-digits-Fits places p base (n / base) lo (Fits_pos p base (n / base) more fits)
              fits,
        ))
]
  where
    Fits_pos : (q b m : ℕ) → 0 < m → Fits q b m → 0 < q
    Fits_pos zero b m h f = absurd (omega (arith, h, f))
    Fits_pos (suc q) b m h f = omega arith
