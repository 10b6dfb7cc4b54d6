-- ===== src/Debugger/Exceptions.antt =====
-- The functions and macros of src/utils/exceptions.c and include/utils/exceptions.h.
pub mod Tries
use my_dbg.Base.{ℕ, zero, suc, ◌+◌, ◌-◌, ◌==◌, if◌then◌else◌}
use my_dbg.Debugger.State.{MyException, ex_code}
use my_dbg.Debugger.Monad.{Res, ok, thrown, exited, fault, out_of_fuel, M, pure, ◌>>=◌, ◌>>◌}

module _ {P : Type 0} where
  unfoldable pub new_env : M P (Unit {0})
  new_env s = ok tt (record s { envs = s.envs + 1 })

  -- On an empty list `list->next` reads through NULL.
  unfoldable pub delete_env : M P (Unit {0})
  delete_env s = if s.envs == 0 then fault else ok tt (record s { envs = s.envs - 1 })

  unfoldable pub ex_depth : M P ℕ
  ex_depth s = ok s.envs s

module _ {P A : Type 0} where
  -- With no jump buffer the program exits.
  unfoldable pub throw : MyException → M P A
  throw e s = if s.envs == 0 then exited s else thrown e s

  -- The `switch` on the value of `setjmp`: the handler runs with its own jump buffer still first
  -- in the list, so that what it throws comes back to the same `switch`.
  unfoldable pub dispatch : ℕ → (MyException → M P A) → Res P A → Res P A
  dispatch zero handler (thrown e s) = out_of_fuel
  dispatch (suc n) handler (thrown e s) = dispatch n handler (handler e s)
  dispatch n handler (ok a s) = ok a s
  dispatch n handler (exited s) = exited s
  dispatch n handler fault = fault
  dispatch n handler out_of_fuel = out_of_fuel

  -- `try body catch ... etry`: an exception for which `handler` has no case of its own is to be
  -- mapped to the value that the statements after `etry` find. The handlers of the program throw
  -- nothing, so that one round of `dispatch` is enough for them.
  unfoldable pub try_catch : M P A → (MyException → M P A) → M P A
  unfolding new_env delete_env dispatch
  try_catch body handler = do new_env; a ← λ s. dispatch 2 handler (body s); delete_env; pure a

  -- The handlers of a `try` with one `catch (Ex)`: any other exception is dropped.
  unfoldable pub catch_only : MyException → M P A → A → MyException → M P A
  unfolding ex_code
  catch_only ex handler rest e = if ex_code e == ex_code ex then handler else pure rest
