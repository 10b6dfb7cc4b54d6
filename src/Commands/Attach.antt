-- ===== src/Commands/Attach.antt =====
-- src/commands/cmd_attach.c. `setup_modules` of src/my-dbg.c starts libunwind, and is an argument.
pub mod Outcome
use my_dbg.Base.{
  ℕ, ◌+◌, ◌-◌, ◌^◌, Bool, not, ◌||◌, List, Option, none, some, Text, ◌==◌, ltb, leb, if◌then◌else◌,
  get_elem?, to_int,
}
use my_dbg.Debugger.{
  MyException, Request, Kernel, Line, Dbg, fault, ok, M, pure, get, modify, print, ◌>>=◌, ◌>>◌,
}
use my_dbg.Debugger.Exceptions.{throw, try_catch}
use my_dbg.Debugger.Tracee.{my_ptrace, my_wait}
use my_dbg.Format.{read_size}
use my_dbg.Control.{if_stopped, stop_sig}

abbrev pub sigstop : ℕ
sigstop = 19

-- PTRACE_O_EXITKILL, which the program passes as a request
abbrev pub exit_kill : Request
exit_kill = Request.other 0x10_0000

-- PTRACE_O_EXITKILL | PTRACE_O_TRACESYSGOOD, of src/my-dbg.c
abbrev pub g_options : ℕ
g_options = 0x10_0001

module _ {P : Type 0} where
  -- The `catch` clauses, with `my_ex` for the value behind `etry`
  unfoldable pub keep_exception : MyException → M P (Option MyException)
  keep_exception MyException.ptrace_exception = pure (some MyException.ptrace_exception)
  keep_exception MyException.wait_exception = pure (some MyException.wait_exception)
  keep_exception _ = pure none

  -- Behind the `try`
  unfoldable pub finish_attach : M P (Unit {0}) → Option MyException → M P (Unit {0})
  finish_attach setup_modules none = setup_modules
  finish_attach setup_modules (some e) = (modify λ s. record s { pid = 0 }) >> throw e

module _ {P : Type 0} ⦃k : Kernel P⦄ where
  -- The body of the `try`
  unfoldable pub seize : M P (Option MyException)
  seize = do
    my_ptrace Request.attach 0 0
    status ← my_wait
    if not (if_stopped status) || not (stop_sig status == sigstop)
        then throw MyException.wait_exception
        else (my_ptrace exit_kill 0 g_options >> pure none)

  unfoldable pub attach_process : M P (Unit {0}) → ℕ → M P (Unit {0})
  unfolding seize keep_exception finish_attach
  attach_process setup_modules pid = do
    modify λ s. record s { pid = pid }
    my_ex ← try_catch seize keep_exception
    finish_attach setup_modules my_ex

  -- `1 << 31` is INT_MIN with GCC, so that the bound is 2 ^ 64 - 2 ^ 31.
  unfoldable pub cmd_attach : M P (Unit {0}) → ℕ → List Text → M P (Unit {0})
  unfolding attach_process
  cmd_attach setup_modules argc argv = do
    s ← get
    if not (s.pid == 0)
        then print (Line.text "A process is already attached")
        else if ltb argc 2
        then print (Line.text "No process ID specified")
        else elim (get_elem? argv 1) [
          | none ↦ λ t. fault
          | some str ↦ do
            pid ← read_size str
            if leb (2 ^ 64 - 2 ^ 31) pid
                then print (Line.text "Invalid process ID specified")
                else attach_process setup_modules (to_int pid)
        ]
