-- ===== src/Debugger/Exceptions/Tries.antt =====
-- How `throw` and `try_catch` end.
use my_dbg.Base.{◌+◌, ◌-◌, ◌<◌, ◌≡◌, ◌==◌, false, arith}
use my_dbg.Debugger.State.{MyException, Dbg}
use my_dbg.Debugger.Monad.{ok, thrown, M}
use my_dbg.Debugger.Exceptions.{throw, try_catch}

-- The state with one more jump buffer, and with one less
abbrev pub enter : {P : Type 0} → Dbg P → Dbg P
enter s = record s { envs = s.envs + 1 }

abbrev pub leave : {P : Type 0} → Dbg P → Dbg P
leave s = record s { envs = s.envs - 1 }

module _ {P A : Type 0} where
  pub throw-thrown : (e : MyException) (s : Dbg P) → 0 < s.envs → throw {A = A} e s ≡ thrown e s
  unfolding throw
  throw-thrown e s h = let more : (s.envs == 0) ≡ false = ground arith in rw more

  pub try_catch-ok :
      (body : M P A) (h : MyException → M P A) (s t : Dbg P) (a : A)
      → body (enter s) ≡ ok a t
      → 0 < t.envs
      → try_catch body h s ≡ ok a (leave t)
  unfolding try_catch
  try_catch-ok body h s t a e pos =
      let more : (t.envs == 0) ≡ false = ground arith in rw e (rw more)

  pub try_catch-thrown :
      (body : M P A) (h : MyException → M P A) (s t u : Dbg P) (x : MyException) (a : A)
      → body (enter s) ≡ thrown x t
      → h x t ≡ ok a u
      → 0 < u.envs
      → try_catch body h s ≡ ok a (leave u)
  unfolding try_catch
  try_catch-thrown body h s t u x a e f pos =
      let more : (u.envs == 0) ≡ false = ground arith in rw e (rw f (rw more))

-- The same where the state behind is known
module _ {P A : Type 0} (body : M P A) (h : MyException → M P A) (s t : Dbg P) (a : A) where
  pub try_returns : body (enter s) ≡ ok a (enter t) → try_catch body h s ≡ ok a t
  try_returns e =
      let back : t.envs + 1 - 1 ≡ t.envs = omega arith in
      rw back at (try_catch-ok body h s (enter t) a e (omega arith))

  pub try_caught :
      (x : MyException) (u : Dbg P)
      → body (enter s) ≡ thrown x u
      → h x u ≡ ok a (enter t)
      → try_catch body h s ≡ ok a t
  try_caught x u e f =
      let back : t.envs + 1 - 1 ≡ t.envs = omega arith in
      rw back at (try_catch-thrown body h s u (enter t) x a e f (omega arith))
