-- ===== src/Dwarf/Leb128.antt =====
-- `read_leb128` of src/infos/my_dwarf.c against the unsigned LEB128 encoding.
use Prim.Native.Nat.{bit_or}
use my_dbg.Base.{
  ℕ, zero, suc, ◌+◌, ◌*◌, ◌/◌, ◌%◌, ◌^◌, ◌<◌, ◌≡◌, refl, Bool, true, false, ◌&&◌, List, [], ◌∷◌,
  ◌++◌, arith, ◌==◌, ltb, if◌then◌else◌, Bool-cases, inl, inr,
}
use my_dbg.Dwarf.Result.{Dw, ok, fault}

-- The loop with `result` and `shift`. In `((byte << 1) >> 1) << shift` the byte is promoted to
-- `int`, where the two inner shifts keep all its bits; a shift by 32 or more, or out of the range of
-- `int`, is undefined.
unfoldable pub leb_loop : (result shift : ℕ) → List ℕ → Dw (ℕ × List ℕ)
leb_loop result shift [] = fault
leb_loop result shift (byte ∷ bs) =
    let result' = bit_or result (byte * 2 ^ shift) in
    let more = leb_loop result' (shift + 7) bs in
    if ltb shift 32 && ltb (byte * 2 ^ shift) (2 ^ 31)
    then (if byte / 128 == 0 then ok (result', bs) else more)
    else fault

unfoldable pub read_leb128 : List ℕ → Dw (ℕ × List ℕ)
unfolding leb_loop
read_leb128 bs = leb_loop 0 0 bs

-- The byte that is shifted by `shift` stays in the range of `int`.
abbrev pub Fits : (shift byte : ℕ) → Type 0
Fits shift byte = (ltb shift 32 && ltb (byte * 2 ^ shift) (2 ^ 31)) ≡ true

-- The bytes of one number: all but the last have bit 7, and every shift is defined.
abbrev pub IsNumber : (shift : ℕ) → List ℕ → Type 0
IsNumber shift [] = ⊥
IsNumber shift (byte ∷ []) = (byte < 128) × Fits shift byte
IsNumber shift (byte ∷ next ∷ bs) =
    (127 < byte) × (byte < 256) × Fits shift byte × IsNumber (shift + 7) (next ∷ bs)

-- The bitwise "or" of the bytes, bit 7 included, each shifted by 7 more than the one before
abbrev pub joined : (result shift : ℕ) → List ℕ → ℕ
joined result shift [] = result
joined result shift (byte ∷ bs) = joined (bit_or result (byte * 2 ^ shift)) (shift + 7) bs

leb_loop-IsNumber :
    (result shift : ℕ) (bs rest : List ℕ)
    → IsNumber shift bs
    → leb_loop result shift (bs ++ rest) ≡ ok (joined result shift bs, rest)
unfolding leb_loop
leb_loop-IsNumber result shift [] rest h = absurd h
leb_loop-IsNumber result shift (byte ∷ []) rest (small, fits) =
    let last : (byte / 128 == 0) ≡ true = ground arith in rw (fits, last)
leb_loop-IsNumber result shift (byte ∷ next ∷ bs) rest (large, wide, fits, h) =
    let goes_on : (byte / 128 == 0) ≡ false = ground arith in
    rw (fits, goes_on)
      (leb_loop-IsNumber (bit_or result (byte * 2 ^ shift)) (shift + 7) (next ∷ bs) rest h)

pub read_leb128-IsNumber :
    (bs rest : List ℕ) → IsNumber 0 bs → read_leb128 (bs ++ rest) ≡ ok (joined 0 0 bs, rest)
unfolding read_leb128
read_leb128-IsNumber bs rest h = leb_loop-IsNumber 0 0 bs rest h

-- The encoding of a number below 2 ^ 14 in one byte or two
abbrev pub encode : ℕ → List ℕ
encode v = if ltb v 128 then v ∷ [] else (v % 128 + 128) ∷ v / 128 ∷ []

-- Bit 7 of the result is the continuation bit of the first byte, also where it should be clear.
abbrev pub misread : ℕ → ℕ
misread v = if ltb v 128 then v else if v / 128 % 2 == 0 then v + 128 else v

-- Two functions have equal values below a bound.
agree : (f g : ℕ → ℕ) (bound : ℕ) → Bool
agree f g zero = true
agree f g (suc bound) = if f bound == g bound then agree f g bound else false

agree_at : (f g : ℕ → ℕ) (x bound : ℕ) → x < bound → agree f g bound ≡ true → f x ≡ g x
unfolding agree
agree_at f g x zero lt h = absurd (omega (arith, lt))
agree_at f g x (suc bound) lt h = ground (arith, agree_at f g x bound)

-- What the loop makes of two bytes
abbrev two_rounds : ℕ → ℕ
two_rounds v = bit_or (bit_or 0 (v % 128 + 128)) (v / 128 * 128)

abbrev with_bit_7 : ℕ → ℕ
with_bit_7 v = if v / 128 % 2 == 0 then v + 128 else v

two_rounds-with_bit_7 : agree two_rounds with_bit_7 16384 ≡ true
unfolding agree
two_rounds-with_bit_7 = refl

bit_or-zero_small : agree (bit_or 0) (λ v. v) 128 ≡ true
unfolding agree
bit_or-zero_small = refl

two_bytes : (v : ℕ) → v < 16384 → two_rounds v ≡ with_bit_7 v
two_bytes v h = agree_at two_rounds with_bit_7 v 16384 h two_rounds-with_bit_7

one_byte : (v : ℕ) → v < 128 → bit_or 0 v ≡ v
one_byte v h = agree_at (bit_or 0) (λ x. x) v 128 h bit_or-zero_small

-- The last byte of a number, with the test for undefined shifts computed
read_last :
    (r s b : ℕ) (rest : List ℕ)
    → b < 128
    → (ltb s 32 && ltb (b * 2 ^ s) (2 ^ 31)) ≡ true
    → leb_loop r s (b ∷ rest) ≡ ok (bit_or r (b * 2 ^ s), rest)
unfolding leb_loop
read_last r s b rest h fits = let last : (b / 128 == 0) ≡ true = ground arith in rw (fits, last)

read_more :
    (b : ℕ) (rest : List ℕ)
    → 127 < b
    → b < 256
    → leb_loop 0 0 (b ∷ rest) ≡ leb_loop (bit_or 0 b) 7 rest
unfolding leb_loop
read_more b rest h lt =
    let fits : ltb (b * 1) (2 ^ 31) ≡ true = ground arith in
    let goes_on : (b / 128 == 0) ≡ false = ground arith in
    let one : b * 1 ≡ b = omega arith in rw (fits, goes_on, one)

read_one : (v : ℕ) (rest : List ℕ) → v < 128 → leb_loop 0 0 (v ∷ rest) ≡ ok (v, rest)
read_one v rest h =
    let fits : ltb (v * 1) (2 ^ 31) ≡ true = ground arith in
    let one : v * 1 ≡ v = omega arith in rw (read_last 0 0 v rest h fits, one, one_byte v h)

read_two :
    (v : ℕ) (rest : List ℕ)
    → v < 16384
    → leb_loop 0 0 ((v % 128 + 128) ∷ v / 128 ∷ rest)
      ≡ ok (if v / 128 % 2 == 0 then v + 128 else v, rest)
read_two v rest h =
    let fits : ltb (v / 128 * 128) (2 ^ 31) ≡ true = ground arith in
    rw (
      read_more (v % 128 + 128) (v / 128 ∷ rest) (omega arith) (omega arith),
      read_last (bit_or 0 (v % 128 + 128)) 7 (v / 128) rest (omega arith) fits,
      two_bytes v h,
    )

-- `read_leb128` on the encoding of a number below 2 ^ 14 takes the bytes of the encoding. It gives
-- the number back if that fits in one byte, or if its bit 7 is set; if the encoding has two bytes
-- and bit 7 is clear, it gives 128 more.
pub read_leb128-encode :
    (v : ℕ) (rest : List ℕ) → v < 16384 → read_leb128 (encode v ++ rest) ≡ ok (misread v, rest)
unfolding read_leb128
read_leb128-encode v rest h = elim (Bool-cases (ltb v 128)) [
  | inl small ↦ rw small (read_one v rest (ground arith))
  | inr large ↦ rw large (read_two v rest h)
]
