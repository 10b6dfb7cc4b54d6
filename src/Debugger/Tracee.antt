-- ===== src/Debugger/Tracee.antt =====
-- src/wrappers/my_syscalls.c: calls of the operating system that throw on error.
use my_dbg.Base.{ℕ}
use my_dbg.Debugger.State.{MyException, Regs, Request, Kernel, done, failed}
use my_dbg.Debugger.Monad.{ok, M}
use my_dbg.Debugger.Exceptions.{throw}

module _ {P : Type 0} ⦃k : Kernel P⦄ where
  -- `my_ptrace` for a request without a structure
  unfoldable pub my_ptrace : Request → (addr word : ℕ) → M P ℕ
  my_ptrace r addr word s = elim (k.ptrace r s.pid addr word s.process) [
    | failed e ↦ throw MyException.ptrace_exception (record s { errno = e })
    | done (w, p) ↦ ok w (record s { process = p })
  ]

  -- `my_ptrace(PTRACE_GETREGS, NULL, regs)`
  unfoldable pub my_ptrace_getregs : M P Regs
  my_ptrace_getregs s = elim (k.get_regs s.pid s.process) [
    | failed e ↦ throw MyException.ptrace_exception (record s { errno = e })
    | done r ↦ ok r s
  ]

  -- `my_ptrace(PTRACE_SETREGS, NULL, &regs)`
  unfoldable pub my_ptrace_setregs : Regs → M P (Unit {0})
  my_ptrace_setregs r s = elim (k.set_regs s.pid r s.process) [
    | failed e ↦ throw MyException.ptrace_exception (record s { errno = e })
    | done p ↦ ok tt (record s { process = p })
  ]

  unfoldable pub my_wait : M P ℕ
  my_wait s = elim (k.wait s.pid s.process) [
    | failed e ↦ throw MyException.wait_exception (record s { errno = e })
    | done (status, p) ↦ ok status (record s { process = p })
  ]
