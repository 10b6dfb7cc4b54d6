-- ===== src/Dwarf/Result.antt =====
-- How a function of the line tables ends.
use my_dbg.Base.{ℕ, zero, suc, ◌+◌, ◌*◌, List, [], ◌∷◌}

-- `invalid` is a throw of DWARFException; `fault` an access behind the mapped file, a division by 0
-- or a shift that C leaves undefined; `stuck` is no result of the program.
pub data Dw (A : Type 0) : Type 0 where
  ok : A → Dw A
  invalid : Dw A
  fault : Dw A
  stuck : Dw A

infixl 5 ◌>>=◌
abbrev pub ◌>>=◌ : {A B : Type 0} → Dw A → (A → Dw B) → Dw B
ok a >>= f = f a
invalid >>= f = invalid
fault >>= f = fault
stuck >>= f = stuck

-- `*((*ptr)++)`
unfoldable pub next_byte : List ℕ → Dw (ℕ × List ℕ)
next_byte [] = fault
next_byte (b ∷ bs) = ok (b, bs)

-- A little-endian read of `n` bytes
unfoldable pub read_le : ℕ → List ℕ → Dw (ℕ × List ℕ)
read_le zero bs = ok (0, bs)
read_le (suc n) [] = fault
read_le (suc n) (b ∷ bs) = do (v, rest) ← read_le n bs; ok (b + 256 * v, rest)
