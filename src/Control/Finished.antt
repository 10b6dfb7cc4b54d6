-- ===== src/Control/Finished.antt =====
-- Operations of the model that finish within their fuel and leave no more stops at system calls
-- to come, and the steps that do so.
use my_dbg.Base.{
  ℕ, ◌≤◌, ◌≢◌, Bool, true, false, not, get_elem?, if◌then◌else◌, Bool-cases, Option-cases, inl, inr,
  ◌==◌,
}
use mathlib.Core.Path.{subst}
use my_dbg.Debugger.{
  MyException, Bp, Dbg, Line, Res, ok, thrown, exited, fault, out_of_fuel, M, pure, get, modify,
  print, and_then, ◌>>=◌,
}
use my_dbg.Debugger.Exceptions.{throw}
use my_dbg.Breakpoints.{get_breakpoint, is_breakpoint, load_bp, store_bp}
use my_dbg.Syscalls.{in_syscalls}
use my_dbg.Control.{set_signum}

module _ {P A : Type 0} where
  -- Not out of fuel, and `Q` of what the operation returns
  abbrev pub Finished : (A → Dbg P → Type 0) → Res P A → Type 0
  Finished Q (ok a s) = Q a s
  Finished Q (thrown e s) = Unit
  Finished Q (exited s) = Unit
  Finished Q fault = Unit
  Finished Q out_of_fuel = ⊥

  pub Finished-≢out_of_fuel :
      (Q : A → Dbg P → Type 0) (r : Res P A) → Finished Q r → r ≢ out_of_fuel
  Finished-≢out_of_fuel Q r h e = subst (Finished Q) e h

  pub Finished-throw :
      (Q : A → Dbg P → Type 0) (e : MyException) (s : Dbg P) → Finished Q (throw e s)
  unfolding throw
  Finished-throw Q e s = elim (Bool-cases (s.envs == 0)) [ inl h ↦ rw h tt | inr h ↦ rw h tt ]

  pub Finished-mono :
      (Q S : A → Dbg P → Type 0) (r : Res P A)
      → Finished Q r
      → ((a : A) (s : Dbg P) → Q a s → S a s)
      → Finished S r
  Finished-mono Q S (ok a s) h le = le a s h
  Finished-mono Q S (thrown e s) h le = tt
  Finished-mono Q S (exited s) h le = tt
  Finished-mono Q S fault h le = tt
  Finished-mono Q S out_of_fuel h le = h

module _ {P A B : Type 0} where
  pub Finished-bind :
      (Q : A → Dbg P → Type 0) (S : B → Dbg P → Type 0) (r : Res P A) (f : A → M P B)
      → Finished Q r
      → ((a : A) (s : Dbg P) → Q a s → Finished S (f a s))
      → Finished S (and_then r f)
  Finished-bind Q S (ok a s) f h next = next a s h
  Finished-bind Q S (thrown e s) f h next = tt
  Finished-bind Q S (exited s) f h next = tt
  Finished-bind Q S fault f h next = tt
  Finished-bind Q S out_of_fuel f h next = h

-- From a state with at most `n` stops left, the operation finishes in such a state.
pub data Fine {P A : Type 0} (left : P → ℕ) (n : ℕ) (m : M P A) : Type 0 where
  fine :
      ((s : Dbg P) → left s.process ≤ n → Finished (λ _ t. left t.process ≤ n) (m s))
      → Fine left n m

pub run :
    {P A : Type 0} {left : P → ℕ} {n : ℕ} {m : M P A}
    → Fine left n m
    → (s : Dbg P) → left s.process ≤ n
    → Finished (λ _ t. left t.process ≤ n) (m s)
run (fine h) = h

module _ {P : Type 0} {left : P → ℕ} {n : ℕ} where
  pub then_next :
      {A B : Type 0} {m : M P A} {f : A → M P B}
      → Fine left n m
      → ((a : A) → Fine left n (f a))
      → Fine left n (m >>= f)
  then_next (fine h) next = fine λ s le.
      Finished-bind (λ _ t. left t.process ≤ n) (λ _ t. left t.process ≤ n) _ _ (h s le)
        λ a t. run (next a) t

  pub choose :
      {A : Type 0} (b : Bool) {x y : M P A}
      → Fine left n x
      → Fine left n y
      → Fine left n (if b then x else y)
  choose true h g = h
  choose false h g = g

  pub f_pure : {A : Type 0} (a : A) → Fine left n (pure a)
  f_pure a = fine λ s le. le

  pub f_get : Fine left n get
  f_get = fine λ s le. le

  pub f_print : (l : Line) → Fine left n (print l)
  f_print l = fine λ s le. le

  pub f_signum : (x : ℕ) → Fine left n (set_signum x)
  f_signum x = fine λ s le. le

  pub f_entry : Fine left n (modify λ s. record s { syscall_entry = not s.syscall_entry })
  f_entry = fine λ s le. le

  pub f_load_bp : (i : ℕ) → Fine left n (load_bp i)
  unfolding load_bp
  f_load_bp i = fine λ s le. elim (Option-cases (get_elem? s.breakpoints i)) [
    | inl e ↦ rw (e, load_bp) tt
    | inr (bp, e) ↦ rw (e, load_bp) le
  ]

  pub f_store_bp : (i : ℕ) (bp : Bp) → Fine left n (store_bp i bp)
  unfolding store_bp
  f_store_bp i bp = fine λ s le. le

  pub f_get_breakpoint : (a : ℕ) → Fine left n (get_breakpoint a)
  unfolding get_breakpoint
  f_get_breakpoint a = fine λ s le. le

  pub f_is_breakpoint : (a : ℕ) → Fine left n (is_breakpoint a)
  unfolding is_breakpoint get_breakpoint
  f_is_breakpoint a = fine λ s le. le

  pub f_in_syscalls : (x : ℕ) → Fine left n (in_syscalls x)
  unfolding in_syscalls
  f_in_syscalls x = fine λ s le. le
