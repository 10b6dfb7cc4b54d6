-- ===== src/Base/Words.antt =====
-- Machine words as native numbers: a w-bit value is below 2 ^ w, and wrap-around is written out.
use Prim.Native.Nat.{ℕ, ◌+◌, ◌*◌, ◌/◌, ◌%◌, ◌^◌, ◌<◌}
use mathlib.Core.Path.{◌≡◌}
use native.Mathlib.Omega.{arith}
use my_dbg.Base.Tests.{ltb, if◌then◌else◌}

-- The bit pattern of the `int` -1.
abbrev pub minus_one : ℕ
minus_one = 0xffff_ffff

-- `(uintptr_t) i` for the `int` whose bit pattern is `i`: the sign bit is copied upwards.
unfoldable pub sign_extend : ℕ → ℕ
sign_extend i = if ltb i 0x8000_0000 then i else i + 0xffff_ffff_0000_0000

-- `(int) w`
unfoldable pub to_int : ℕ → ℕ
to_int w = w % 2 ^ 32

pub to_int-sign_extend : (i : ℕ) → i < 2 ^ 32 → to_int (sign_extend i) ≡ i
unfolding to_int sign_extend
to_int-sign_extend i h = ground arith

-- `w & ~0xFF` and `w & 0xFF`: `~0xFF` is widened to a word with all upper bits set.
unfoldable pub high_bytes : ℕ → ℕ
high_bytes w = w / 256 * 256

unfoldable pub low_byte : ℕ → ℕ
low_byte w = w % 256

pub high_bytes-low_byte : (w : ℕ) → high_bytes w + low_byte w ≡ w
unfolding high_bytes low_byte
high_bytes-low_byte w = omega arith

pub high_bytes-add : (w b : ℕ) → b < 256 → high_bytes (high_bytes w + b) ≡ high_bytes w
unfolding high_bytes
high_bytes-add w b h = omega arith

pub low_byte-add : (w b : ℕ) → b < 256 → low_byte (high_bytes w + b) ≡ b
unfolding high_bytes low_byte
low_byte-add w b h = omega arith

pub low_byte-lt : (w : ℕ) → low_byte w < 256
unfolding low_byte
low_byte-lt w = omega arith
