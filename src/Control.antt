-- ===== src/Control.antt =====
-- src/binary.c: resuming the tracee and handling its stops. A status of `waitpid` is read by the
-- macros of <sys/wait.h>. The three functions call one another: `wait_program` takes the call of
-- `continue_execution` as an argument, and only that function recurs, on fuel.
pub mod Runs
pub mod Steps
pub mod Frame
pub mod Finished
pub mod Fuel
pub mod Hit
use my_dbg.Base.{
  ℕ, zero, suc, ◌+◌, ◌-◌, ◌/◌, ◌%◌, ◌^◌, Bool, true, false, not, ◌&&◌, ◌||◌, [], ◌∷◌, Option, none,
  some, ◌==◌, if◌then◌else◌, leb, to_int,
}
use my_dbg.Debugger.{
  MyException, Request, Kernel, Line, Dbg, ok, out_of_fuel, M, pure, get, modify, print, ◌>>=◌,
  ◌>>◌,
}
use my_dbg.Debugger.Exceptions.{try_catch, catch_only}
use my_dbg.Debugger.Tracee.{my_ptrace, my_wait}
use my_dbg.Registers.{reg_rip, reg_orig_rax, get_register, set_register}
use my_dbg.Breakpoints.{get_breakpoint, is_breakpoint, load_bp, toggle_breakpoint}
use my_dbg.Syscalls.{in_syscalls, syscall_name}

abbrev pub sigtrap : ℕ
sigtrap = 5

-- `WIFSTOPPED`, `WSTOPSIG` (also `WEXITSTATUS`), `WIFEXITED`, `WTERMSIG` and `WIFSIGNALED`
abbrev pub if_stopped : ℕ → Bool
if_stopped status = status % 256 == 0x7f

abbrev pub stop_sig : ℕ → ℕ
stop_sig status = status / 256 % 256

abbrev pub term_sig : ℕ → ℕ
term_sig status = status % 128

abbrev pub if_exited : ℕ → Bool
if_exited status = term_sig status == 0

abbrev pub if_signaled : ℕ → Bool
if_signaled status = not (term_sig status == 0) && not (term_sig status == 0x7f)

-- `WSTOPSIG(wstatus) & 0x80`: a stop at the entry or the exit of a system call
abbrev pub is_syscall_stop : ℕ → Bool
is_syscall_stop status = leb 0x80 (stop_sig status)

module _ {P : Type 0} where
  abbrev pub set_signum : ℕ → M P (Unit {0})
  set_signum n = modify λ s. record s { signum = n }

  abbrev pub when : Bool → M P (Unit {0}) → M P (Unit {0})
  when b m = if b then m else pure tt

module _ {P : Type 0} ⦃k : Kernel P⦄ where
  -- The part of `wait_program` for a stop at an enabled breakpoint
  unfoldable pub hit_breakpoint : (bp addr : ℕ) → M P (Unit {0})
  hit_breakpoint i addr = do
    bp ← load_bp i
    when bp.flags.temp (toggle_breakpoint i)
    when (not bp.flags.internal) (print (Line.breakpoint_at bp.id addr))
    set_register reg_rip addr
    s ← get
    when (s.signum == sigtrap) (set_signum 0)

  unfoldable pub print_syscall : ℕ → M P (Unit {0})
  print_syscall syscall =
      try_catch (do name ← syscall_name syscall; print (Line.syscall_catched (some name) syscall))
        (catch_only MyException.syscall_exception (print (Line.syscall_catched none syscall)) tt)

  unfoldable pub report_signal : M P (Unit {0})
  report_signal = do s ← get; when (not (s.signum == 0)) (print (Line.interrupted s.pid s.signum))

  -- The part of `wait_program` for a system call stop; `is_bp` says that a breakpoint was hit.
  unfoldable pub syscall_stop : M P (Unit {0}) → (is_bp : Bool) → M P (Unit {0})
  unfolding print_syscall report_signal
  syscall_stop continue is_bp = do
    set_signum 0
    rax ← get_register reg_orig_rax
    modify λ s. record s { syscall_entry = not s.syscall_entry }
    caught ← in_syscalls (to_int rax)
    s ← get
    if caught && s.syscall_entry
        then (print_syscall (to_int rax) >> report_signal)
        else if not is_bp
        then continue
        else report_signal

  abbrev pub hit_if : Option ℕ → ℕ → M P Bool
  hit_if none addr = pure false
  hit_if (some i) addr = hit_breakpoint i addr >> pure true

  -- `wait_program` at a stop, behind the early return for a single step
  unfoldable pub inspect_stop : M P (Unit {0}) → (status : ℕ) → M P Bool
  unfolding hit_breakpoint syscall_stop report_signal
  inspect_stop continue status = do
    rip ← get_register reg_rip
    let addr = (rip + 2 ^ 64 - 1) % 2 ^ 64
    bp ← get_breakpoint addr
    is_bp ← hit_if bp addr
    if is_syscall_stop status then syscall_stop continue is_bp else report_signal
    pure false

  unfoldable pub stopped : M P (Unit {0}) → (step : Bool) → (status : ℕ) → M P Bool
  unfolding inspect_stop
  stopped continue step status = do
    set_signum (stop_sig status % 128)
    s ← get
    if step && (s.signum == sigtrap)
        then (set_signum 0 >> pure true)
        else inspect_stop continue status

  -- The tracee is gone.
  unfoldable pub ended : (status : ℕ) → M P Bool
  ended status = do
    s ← get
    print (
        if if_exited status
        then Line.exited_with s.pid (stop_sig status)
        else if if_signaled status
        then Line.terminated_by s.pid (term_sig status)
        else Line.text "something went wrong")
    modify λ t. record t { quit = true }
    pure false

  unfoldable pub wait_program : M P (Unit {0}) → (step : Bool) → M P Bool
  unfolding stopped ended
  wait_program continue step = do
    status ← my_wait
    if if_stopped status then stopped continue step status else ended status

  abbrev pub toggle_if : Option ℕ → M P (Unit {0})
  toggle_if none = pure tt
  toggle_if (some i) = toggle_breakpoint i

  unfoldable pub single_step : M P (Unit {0}) → M P Bool
  unfolding wait_program
  single_step continue = do
    addr ← get_register reg_rip
    bp ← get_breakpoint addr
    toggle_if bp
    s ← get
    my_ptrace Request.single_step 0 s.signum
    set_signum 0
    ret ← wait_program continue true
    toggle_if bp
    pure ret

  -- The part of `continue_execution` behind its early return
  unfoldable pub resume : M P (Unit {0}) → M P (Unit {0})
  unfolding wait_program
  resume continue = do
    s ← get
    my_ptrace (elim s.syscalls [ [] ↦ Request.cont | _ ∷ _ ↦ Request.syscall ]) 0 s.signum
    set_signum 0
    wait_program continue false
    pure tt

  unfoldable pub continue_with : M P (Unit {0}) → M P (Unit {0})
  unfolding resume single_step
  continue_with continue = do
    addr ← get_register reg_rip
    at_bp ← is_breakpoint addr
    if at_bp
        then (do stepped ← single_step continue; if stepped then resume continue else pure tt)
        else resume continue

  unfoldable pub continue_execution : ℕ → M P (Unit {0})
  unfolding continue_with
  continue_execution zero s = out_of_fuel
  continue_execution (suc fuel) s = continue_with (continue_execution fuel) s
