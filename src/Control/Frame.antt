-- ===== src/Control/Frame.antt =====
-- `continue_execution` of src/binary.c changes no more than the relation `Runs` allows.
use my_dbg.Base.{ℕ, zero, suc, refl, Bool, true, false, not, ◌&&◌, Option, none, some, ◌==◌, to_int}
use my_dbg.Debugger.{Request, Kernel, Line, M, pure, get, modify, print, ◌>>=◌}
use my_dbg.Debugger.Ends.{Keeps, keeps, within, bind, branch, Within}
use my_dbg.Debugger.Tracee.{my_ptrace, my_wait}
use my_dbg.Registers.{Reg, reg_rip, reg_orig_rax, get_register, set_register}
use my_dbg.Breakpoints.{get_breakpoint, is_breakpoint, load_bp, toggle_breakpoint}
use my_dbg.Syscalls.{in_syscalls}
use my_dbg.Control.{
  set_signum, sigtrap, if_stopped, is_syscall_stop, toggle_if, hit_if, hit_breakpoint,
  print_syscall, report_signal, syscall_stop, inspect_stop, stopped, ended, wait_program,
  single_step, resume, continue_with, continue_execution,
}
use my_dbg.Control.Runs.{
  Runs, Runs-preorder, Runs-quiet, Within-pure, Within-print, Within-load_bp, Within-get_breakpoint,
  Within-in_syscalls,
}
use my_dbg.Control.Steps.{
  Within-my_ptrace, Within-wait, Within-get_register, Within-set_register, Within-toggle,
  Within-is_breakpoint, Within-print_syscall, Within-report_signal, Within-signum, Within-ended,
}

module _ {P : Type 0} ⦃k : Kernel P⦄ where
  k_toggle : (i : ℕ) → Keeps Runs (toggle_breakpoint {P = P} i)
  k_toggle i = keeps (Within-toggle i)

  k_print : (l : Line) → Keeps Runs (print {P = P} l)
  k_print l = keeps (Within-print l)

  k_load_bp : (i : ℕ) → Keeps Runs (load_bp {P = P} i)
  k_load_bp i = keeps (Within-load_bp i)

  k_set_register : (r : Reg) (v : ℕ) → Keeps Runs (set_register {P = P} r v)
  k_set_register r v = keeps (Within-set_register r v)

  k_get_register : (r : Reg) → Keeps Runs (get_register {P = P} r)
  k_get_register r = keeps (Within-get_register r)

  k_signum : (n : ℕ) → Keeps Runs (set_signum {P = P} n)
  k_signum n = keeps (Within-signum n)

  k_in_syscalls : (n : ℕ) → Keeps Runs (in_syscalls {P = P} n)
  k_in_syscalls n = keeps (Within-in_syscalls n)

  k_print_syscall : (n : ℕ) → Keeps Runs (print_syscall {P = P} n)
  k_print_syscall n = keeps (Within-print_syscall n)

  k_get_breakpoint : (a : ℕ) → Keeps Runs (get_breakpoint {P = P} a)
  k_get_breakpoint a = keeps (Within-get_breakpoint a)

  k_is_breakpoint : (a : ℕ) → Keeps Runs (is_breakpoint {P = P} a)
  k_is_breakpoint a = keeps (Within-is_breakpoint a)

  k_ended : (n : ℕ) → Keeps Runs (ended {P = P} n)
  k_ended n = keeps (Within-ended n)

  k_my_ptrace : (r : Request) (a w : ℕ) → Keeps Runs (my_ptrace {P = P} r a w)
  k_my_ptrace r a w = keeps (Within-my_ptrace r a w)

  k_report_signal : Keeps Runs (report_signal {P = P})
  k_report_signal = keeps Within-report_signal

  k_wait : Keeps Runs (my_wait {P = P})
  k_wait = keeps Within-wait

  k_pure : {A : Type 0} (a : A) → Keeps Runs (pure {P = P} a)
  k_pure a = keeps (Within-pure a)

  Keeps-toggle_if : (bp : Option ℕ) → Keeps Runs (toggle_if {P = P} bp)
  Keeps-toggle_if none = k_pure tt
  Keeps-toggle_if (some i) = k_toggle i

  -- One step of an operation, and the operations that need no more
  then_next :
      {A B : Type 0} {m : M P A} {f : A → M P B}
      → Keeps Runs m
      → ((a : A) → Keeps Runs (f a))
      → Keeps Runs (m >>= f)
  then_next = bind Runs-preorder

  k_get : Keeps Runs (get {P = P})
  k_get = keeps Runs-preorder.same

  Keeps-hit_breakpoint : (i a : ℕ) → Keeps Runs (hit_breakpoint {P = P} i a)
  unfolding hit_breakpoint
  Keeps-hit_breakpoint i a = then_next (k_load_bp i) λ bp.
      then_next (branch bp.flags.temp (k_toggle i) (k_pure tt)) λ _.
        then_next
          (branch (not bp.flags.internal) (k_print (Line.breakpoint_at bp.id a)) (k_pure tt))
          λ _.
            then_next (k_set_register reg_rip a)
              λ _. then_next k_get λ s. branch (s.signum == sigtrap) (k_signum 0) (k_pure tt)

  Keeps-hit_if : (bp : Option ℕ) (a : ℕ) → Keeps Runs (hit_if {P = P} bp a)
  Keeps-hit_if none a = k_pure false
  Keeps-hit_if (some i) a = then_next (Keeps-hit_breakpoint i a) λ _. k_pure true

  k_entry : Keeps Runs (modify {P = P} (λ s. record s { syscall_entry = not s.syscall_entry }))
  k_entry = keeps (λ s. Runs-quiet s _ refl refl refl refl refl refl)

  module _ {continue : M P (Unit {0})} (h : Keeps Runs continue) where
    Keeps-syscall_stop : (is_bp : Bool) → Keeps Runs (syscall_stop continue is_bp)
    unfolding syscall_stop
    Keeps-syscall_stop is_bp = then_next (k_signum 0) λ _.
        then_next (k_get_register reg_orig_rax) λ rax. then_next k_entry λ _.
          then_next (k_in_syscalls (to_int rax)) λ caught. then_next k_get λ s.
            branch (caught && s.syscall_entry)
              (then_next (k_print_syscall (to_int rax)) λ _. k_report_signal)
              (branch (not is_bp) h k_report_signal)

    Keeps-inspect_stop : (status : ℕ) → Keeps Runs (inspect_stop continue status)
    unfolding inspect_stop
    Keeps-inspect_stop status = then_next (k_get_register reg_rip) λ rip.
        then_next (k_get_breakpoint _) λ bp. then_next (Keeps-hit_if bp _) λ is_bp.
          then_next (branch (is_syscall_stop status) (Keeps-syscall_stop is_bp) k_report_signal)
            λ _. k_pure false

    Keeps-stopped : (step : Bool) (status : ℕ) → Keeps Runs (stopped continue step status)
    unfolding stopped
    Keeps-stopped step status = then_next (k_signum _) λ _. then_next k_get λ s.
        branch (step && (s.signum == sigtrap)) (then_next (k_signum 0) λ _. k_pure true)
          (Keeps-inspect_stop status)

    Keeps-wait_program : (step : Bool) → Keeps Runs (wait_program continue step)
    unfolding wait_program
    Keeps-wait_program step =
        then_next k_wait
          λ status. branch (if_stopped status) (Keeps-stopped step status) (k_ended status)

    pub Keeps-single_step : Keeps Runs (single_step continue)
    unfolding single_step
    Keeps-single_step = then_next (k_get_register reg_rip) λ addr.
        then_next (k_get_breakpoint addr) λ bp. then_next (Keeps-toggle_if bp) λ _.
          then_next k_get λ s. then_next (k_my_ptrace Request.single_step 0 s.signum) λ _.
            then_next (k_signum 0) λ _.
              then_next (Keeps-wait_program true)
                λ ret. then_next (Keeps-toggle_if bp) λ _. k_pure ret

    Keeps-resume : Keeps Runs (resume continue)
    unfolding resume
    Keeps-resume = then_next k_get λ s.
        then_next (k_my_ptrace _ 0 s.signum)
          λ _. then_next (k_signum 0) λ _. then_next (Keeps-wait_program false) λ _. k_pure tt

    Keeps-continue_with : Keeps Runs (continue_with continue)
    unfolding continue_with
    Keeps-continue_with = then_next (k_get_register reg_rip) λ addr.
        then_next (k_is_breakpoint addr) λ at_bp.
          branch at_bp (then_next Keeps-single_step λ b. branch b Keeps-resume (k_pure tt))
            Keeps-resume

  -- Whatever the tracee does, and however `continue_execution` ends (with a return, an exception or
  -- an exit), it has only run the tracee: the process, the watched system calls and the depth of
  -- jump buffers are as before, no breakpoint was added, removed or changed but for `enabled`, and
  -- output was only appended, and `g_quit` was not reset.
  pub continue_execution-Runs : (fuel : ℕ) → Within Runs (continue_execution {P = P} fuel)
  unfolding continue_execution
  continue_execution-Runs zero s = tt
  continue_execution-Runs (suc fuel) s =
      within (Keeps-continue_with (keeps (continue_execution-Runs fuel))) s
