-- ===== src/Syscalls.antt =====
-- src/syscalls.c. An `int` is its bit pattern; the numbers behind the `SYS_` names come from the
-- system's header and are the kernel's `number`.
pub mod Watched
pub mod Names
use my_dbg.Base.{
  ℕ, ◌+◌, ◌-◌, ◌%◌, ◌^◌, Bool, true, false, List, [], ◌∷◌, ◌++◌, Option, none, some, Text, ◌==◌,
  if◌then◌else◌, str_eq, minus_one, sign_extend, to_int,
}
use my_dbg.Debugger.{MyException, Request, Kernel, Dbg, ok, M, pure, modify, ◌>>=◌, ◌>>◌}
use my_dbg.Debugger.Exceptions.{throw}
use my_dbg.Debugger.Tracee.{my_ptrace}
use my_dbg.Registers.{reg_rip, get_register}
use my_dbg.SyscallTable.{syscall_names}
use my_dbg.Breakpoints.{syscall_flag, place_breakpoint}

-- The loop of `in_syscalls`
unfoldable pub mem_syscalls : ℕ → List ℕ → Bool
mem_syscalls syscall [] = false
mem_syscalls syscall (n ∷ ns) = if syscall == n then true else mem_syscalls syscall ns

-- The tests that `CASES_SYSCALL` expands to in `syscall_name`, over the names of the list
unfoldable pub name_of : (Text → ℕ) → ℕ → List Text → Option Text
name_of number syscall [] = none
name_of number syscall (s ∷ ss) = if syscall == number s then some s else name_of number syscall ss

-- The name that `syscall_name` returns; `none` where it throws
unfoldable pub found_name : (Text → ℕ) → ℕ → Option Text
unfolding name_of
found_name number syscall =
    if syscall == minus_one then none else name_of number syscall syscall_names

-- Those of `syscall_num_aux`
unfoldable pub num_of : (Text → ℕ) → Text → List Text → Option ℕ
num_of number syscall [] = none
num_of number syscall (s ∷ ss) =
    if str_eq syscall s then some (number s) else num_of number syscall ss

module _ {P : Type 0} where
  unfoldable pub in_syscalls : ℕ → M P Bool
  unfolding mem_syscalls
  in_syscalls syscall s =
      ok (if syscall == minus_one then false else mem_syscalls syscall s.syscalls) s

module _ {P : Type 0} ⦃k : Kernel P⦄ where
  unfoldable pub is_syscall : M P Bool
  is_syscall = do
    rip ← get_register reg_rip
    word ← my_ptrace Request.peek_data ((rip + 2 ^ 64 - 2) % 2 ^ 64) 0
    pure (word % 2 ^ 16 == 0x050f)

  unfoldable pub add_syscall_break : ℕ → M P (Unit {0})
  add_syscall_break syscall = do
    modify λ s. record s { syscalls = s.syscalls ++ syscall ∷ [] }
    place_breakpoint (sign_extend syscall) syscall_flag
    pure tt

  unfoldable pub syscall_name : ℕ → M P Text
  unfolding found_name
  syscall_name syscall = elim (found_name k.number syscall) [
    | some name ↦ pure name
    | none ↦ throw MyException.syscall_exception
  ]

  unfoldable pub syscall_num_aux : Text → M P ℕ
  unfolding num_of
  syscall_num_aux syscall = elim (num_of k.number syscall syscall_names) [
    | some n ↦ pure n
    | none ↦ throw MyException.syscall_exception
  ]

  unfoldable pub syscall_num : Text → M P ℕ
  unfolding syscall_num_aux
  syscall_num syscall = do
    ret ← syscall_num_aux syscall
    if ret == minus_one then throw MyException.syscall_exception else pure ret
