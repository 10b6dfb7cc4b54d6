-- ===== src/Debugger/Ends.antt =====
-- Postconditions of operations: `Q` for a return, `E` for an exception or an exit.
use my_dbg.Base.{Bool, true, false, if◌then◌else◌}
use my_dbg.Debugger.State.{Dbg}
use my_dbg.Debugger.Monad.{Res, ok, thrown, exited, fault, out_of_fuel, M, and_then, ◌>>=◌}

module _ {P A : Type 0} where
  abbrev pub Ends : (A → Dbg P → Type 0) → (Dbg P → Type 0) → Res P A → Type 0
  Ends Q E (ok a s) = Q a s
  Ends Q E (thrown e s) = E s
  Ends Q E (exited s) = E s
  Ends Q E fault = Unit
  Ends Q E out_of_fuel = Unit

  -- Whatever way the operation ends, the state then is in `R` to the state before.
  abbrev pub Within : (Dbg P → Dbg P → Type 0) → M P A → Type 0
  Within R m = (s : Dbg P) → Ends (λ _ t. R s t) (R s) (m s)

  -- If the operation returns, the state then is in `R` to the state before.
  abbrev pub Returning : (Dbg P → Dbg P → Type 0) → M P A → Type 0
  Returning R m = (s : Dbg P) → Ends (λ _ t. R s t) (λ _. Unit {0}) (m s)

module _ {P A B : Type 0} where
  pub Ends-and_then :
      (Q : A → Dbg P → Type 0) (S : B → Dbg P → Type 0) (E : Dbg P → Type 0) (r : Res P A)
      (f : A → M P B)
      → Ends Q E r
      → ((a : A) (s : Dbg P) → Q a s → Ends S E (f a s))
      → Ends S E (and_then r f)
  Ends-and_then Q S E (ok a s) f h next = next a s h
  Ends-and_then Q S E (thrown e s) f h next = h
  Ends-and_then Q S E (exited s) f h next = h
  Ends-and_then Q S E fault f h next = tt
  Ends-and_then Q S E out_of_fuel f h next = tt

module _ {P A : Type 0} where
  pub Ends-mono :
      (Q S : A → Dbg P → Type 0) (E F : Dbg P → Type 0) (r : Res P A)
      → Ends Q E r
      → ((a : A) (s : Dbg P) → Q a s → S a s)
      → ((s : Dbg P) → E s → F s)
      → Ends S F r
  Ends-mono Q S E F (ok a s) h q e = q a s h
  Ends-mono Q S E F (thrown x s) h q e = e s h
  Ends-mono Q S E F (exited s) h q e = e s h
  Ends-mono Q S E F fault h q e = tt
  Ends-mono Q S E F out_of_fuel h q e = tt

-- A relation that holds along a sequence of steps
pub record IsPreorder {P : Type 0} (R : Dbg P → Dbg P → Type 0) : Type 0 where
  pub same : (s : Dbg P) → R s s
  pub chain : (s t u : Dbg P) → R s t → R t u → R s u

module _ {P A B : Type 0} {R : Dbg P → Dbg P → Type 0} (o : IsPreorder R) where
  pub Within-bind :
      (m : M P A) (f : A → M P B) → Within R m → ((a : A) → Within R (f a)) → Within R (m >>= f)
  Within-bind m f hm hf s =
      Ends-and_then (λ _. R s) (λ _. R s) (R s) (m s) f (hm s)
        λ a t p.
          Ends-mono (λ _. R t) (λ _. R s) (R t) (R s) (f a t) (hf a t) (λ b u. o.chain s t u p)
            (λ u. o.chain s t u p)

  pub Returning-bind :
      (m : M P A) (f : A → M P B)
      → Returning R m
      → ((a : A) → Returning R (f a))
      → Returning R (m >>= f)
  Returning-bind m f hm hf s =
      Ends-and_then (λ _. R s) (λ _. R s) (λ _. Unit {0}) (m s) f (hm s)
        λ a t p.
          Ends-mono (λ _. R t) (λ _. R s) (λ _. Unit {0}) (λ _. Unit {0}) (f a t) (hf a t)
            (λ b u. o.chain s t u p) (λ u _. tt)

-- `Within` as a family, whose proofs are put together by rules that follow the operations
pub data Keeps {P A : Type 0} (R : Dbg P → Dbg P → Type 0) (m : M P A) : Type 0 where
  keeps : Within R m → Keeps R m

pub within : {P A : Type 0} {R : Dbg P → Dbg P → Type 0} {m : M P A} → Keeps R m → Within R m
within (keeps h) = h

module _ {P A : Type 0} {R : Dbg P → Dbg P → Type 0} where
  pub bind :
      {B : Type 0} {m : M P A} {f : A → M P B}
      → IsPreorder R
      → Keeps R m
      → ((a : A) → Keeps R (f a))
      → Keeps R (m >>= f)
  bind o (keeps h) next = keeps (Within-bind o _ _ h (λ a. within (next a)))

  pub branch : (b : Bool) {m n : M P A} → Keeps R m → Keeps R n → Keeps R (if b then m else n)
  branch true h g = h
  branch false h g = g
