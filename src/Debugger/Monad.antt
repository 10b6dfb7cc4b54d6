-- ===== src/Debugger/Monad.antt =====
-- How an operation ends, and operations in sequence.
use my_dbg.Base.{[], ◌∷◌, ◌++◌}
use my_dbg.Debugger.State.{MyException, Dbg, Line}

-- `thrown` is a `longjmp` to the innermost jump buffer, `exited` an `err` or `errx`, `fault` an
-- access that C leaves undefined or a division by 0; `out_of_fuel` is no result of the program.
pub data Res (P A : Type 0) : Type 0 where
  ok : A → Dbg P → Res P A
  thrown : MyException → Dbg P → Res P A
  exited : Dbg P → Res P A
  fault : Res P A
  out_of_fuel : Res P A

abbrev pub M : Type 0 → Type 0 → Type 0
M P A = Dbg P → Res P A

module _ {P A : Type 0} where
  abbrev pub pure : A → M P A
  pure = ok

  abbrev pub and_then : {B : Type 0} → Res P A → (A → M P B) → Res P B
  and_then (ok a s) k = k a s
  and_then (thrown e s) k = thrown e s
  and_then (exited s) k = exited s
  and_then fault k = fault
  and_then out_of_fuel k = out_of_fuel

module _ {P A B : Type 0} where
  infixl 5 ◌>>=◌ ◌>>◌
  abbrev pub ◌>>=◌ : M P A → (A → M P B) → M P B
  m >>= k = λ s. and_then (m s) k

  abbrev pub ◌>>◌ : M P A → M P B → M P B
  m >> n = m >>= λ _. n

module _ {P : Type 0} where
  abbrev pub get : M P (Dbg P)
  get s = ok s s

  abbrev pub modify : (Dbg P → Dbg P) → M P (Unit {0})
  modify f s = ok tt (f s)

  abbrev pub print : Line → M P (Unit {0})
  print l s = ok tt (record s { out = s.out ++ l ∷ [] })
