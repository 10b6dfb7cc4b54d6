-- ===== src/Session/Breaks.antt =====
-- The commands on breakpoints, and the command that attaches a process.
use my_dbg.Base.{
  ℕ, ◌-◌, ◌^◌, refl, not, ◌||◌, List, [], ◌∷◌, Option, none, some, Text, ◌==◌, ltb, leb, get_elem?,
  to_int,
}
use my_dbg.Debugger.{MyException, Request, Kernel, Bp, Line, M}
use my_dbg.Debugger.Ends.{keeps}
use my_dbg.Breakpoints.{no_flags, temp_flag}
use my_dbg.Control.{if_stopped, stop_sig}
use my_dbg.Control.Steps.{Within-wait}
use my_dbg.Commands.Breaks.{
  cmd_break, cmd_tbreak, cmd_break_del, read_syscall, print_placed, cmd_breaks, print_row,
  list_loop, cmd_break_list,
}
use my_dbg.Commands.Attach.{
  sigstop, exit_kill, g_options, keep_exception, finish_attach, seize, attach_process, cmd_attach,
}
use my_dbg.Session.Rules.{
  IsSafe, then_next, branch, choose, IsSafe-pure, IsSafe-fault, IsSafe-throw, IsSafe-get,
  IsSafe-print, IsSafe-modify, IsSafe-try, IsSafe-catch_only, IsSafe-Runs,
}
use my_dbg.Session.Reads.{IsSafe-read_address, IsSafe-read_size}
use my_dbg.Session.Places.{
  quiet, IsSafe-arg, IsSafe-delete_breakpoint, IsSafe-my_ptrace, IsSafe-place_breakpoint,
  IsSafe-add_syscall_break, IsSafe-syscall_name, IsSafe-syscall_num,
}

module _ {P : Type 0} ⦃k : Kernel P⦄ where
  pub IsSafe-cmd_break : (argc : ℕ) (argv : List Text) → IsSafe (cmd_break {P = P} argc argv)
  unfolding cmd_break
  IsSafe-cmd_break argc argv =
      branch (leb argc 1) (IsSafe-print (Line.text "No address specified")) (
        then_next (IsSafe-arg 1 argv) λ str. then_next (IsSafe-read_address str) λ addr.
          then_next (IsSafe-place_breakpoint addr no_flags)
            λ nb. IsSafe-print (Line.breakpoint_placed_at nb addr))

  pub IsSafe-cmd_tbreak : (argc : ℕ) (argv : List Text) → IsSafe (cmd_tbreak {P = P} argc argv)
  unfolding cmd_tbreak
  IsSafe-cmd_tbreak argc argv =
      branch (leb argc 1) (IsSafe-print (Line.text "No address specified")) (
        then_next (IsSafe-arg 1 argv) λ str. then_next (IsSafe-read_address str) λ addr.
          then_next (IsSafe-place_breakpoint addr temp_flag)
            λ nb. IsSafe-print (Line.breakpoint_placed_at nb addr))

  pub IsSafe-cmd_break_del :
      (argc : ℕ) (argv : List Text) → IsSafe (cmd_break_del {P = P} argc argv)
  unfolding cmd_break_del
  IsSafe-cmd_break_del argc argv =
      branch (leb argc 1) (IsSafe-print (Line.text "No ID specified")) (
        then_next (IsSafe-arg 1 argv)
          λ str. then_next (IsSafe-read_size str) λ nb. IsSafe-delete_breakpoint nb)

  IsSafe-read_syscall : (str : Text) → IsSafe (read_syscall {P = P} str)
  unfolding read_syscall
  IsSafe-read_syscall str =
      IsSafe-try (then_next (IsSafe-read_size str) λ size. IsSafe-pure (some (to_int size))) (
        IsSafe-catch_only MyException.exception (some 0) (
          IsSafe-try (then_next (IsSafe-syscall_num str) λ n. IsSafe-pure (some n)) (
            IsSafe-catch_only MyException.syscall_exception (some 0)
              (then_next (IsSafe-print (Line.unknown_syscall_name str)) λ _. IsSafe-pure none))))

  IsSafe-print_placed : (n : ℕ) → IsSafe (print_placed {P = P} n)
  unfolding print_placed
  IsSafe-print_placed n =
      IsSafe-try
        (then_next (IsSafe-syscall_name n)
          λ name. IsSafe-print (Line.breakpoint_placed_on (some name) n))
        (IsSafe-catch_only MyException.syscall_exception tt
          (IsSafe-print (Line.breakpoint_placed_on none n)))

  pub IsSafe-cmd_breaks : (argc : ℕ) (argv : List Text) → IsSafe (cmd_breaks {P = P} argc argv)
  unfolding cmd_breaks
  IsSafe-cmd_breaks argc argv =
      branch (leb argc 1) (IsSafe-print (Line.text "No syscall specified")) (
        then_next (IsSafe-arg 1 argv) λ str. then_next (IsSafe-read_syscall str) λ syscall.
          choose syscall (IsSafe-throw MyException.syscall_exception)
            λ n. then_next (IsSafe-add_syscall_break n) λ _. IsSafe-print_placed n)

  IsSafe-print_row : (bp : Bp) → IsSafe (print_row {P = P} bp)
  unfolding print_row
  IsSafe-print_row bp =
      let row = Line.breakpoint_row bp.id bp.flags.syscall bp.flags.temp bp.enabled in
      branch (bp.flags.internal || bp.deleted) (IsSafe-pure tt) (
        branch bp.flags.syscall
          (IsSafe-try
            (then_next (IsSafe-syscall_name (to_int bp.addr))
              λ name. IsSafe-print (row (to_int bp.addr) (some name)))
            (IsSafe-catch_only MyException.syscall_exception tt
              (IsSafe-print (row (to_int bp.addr) none))))
          (IsSafe-print (row bp.addr none)))

  IsSafe-list_loop : (bps : List Bp) → IsSafe (list_loop {P = P} bps)
  unfolding list_loop
  IsSafe-list_loop [] = IsSafe-pure tt
  IsSafe-list_loop (bp ∷ bps) = then_next (IsSafe-print_row bp) λ _. IsSafe-list_loop bps

  pub IsSafe-cmd_break_list :
      (argc : ℕ) (argv : List Text) → IsSafe (cmd_break_list {P = P} argc argv)
  unfolding cmd_break_list
  IsSafe-cmd_break_list argc argv =
      then_next (IsSafe-print (Line.text "ID     Type       Temporary Enabled What"))
        λ _. then_next IsSafe-get λ s. IsSafe-list_loop s.breakpoints

  IsSafe-seize : IsSafe (seize {P = P})
  unfolding seize
  IsSafe-seize = then_next (IsSafe-my_ptrace Request.attach 0 0) λ _.
      then_next (IsSafe-Runs (keeps Within-wait)) λ status.
        branch (not (if_stopped status) || not (stop_sig status == sigstop))
          (IsSafe-throw MyException.wait_exception)
          (then_next (IsSafe-my_ptrace exit_kill 0 g_options) λ _. IsSafe-pure none)

  IsSafe-keep_exception : (e : MyException) → IsSafe (keep_exception {P = P} e)
  unfolding keep_exception
  IsSafe-keep_exception MyException.ptrace_exception = IsSafe-pure _
  IsSafe-keep_exception MyException.wait_exception = IsSafe-pure _
  IsSafe-keep_exception _ = IsSafe-pure none

  module _ {setup_modules : M P (Unit {0})} (setup : IsSafe setup_modules) where
    IsSafe-finish_attach : (ex : Option MyException) → IsSafe (finish_attach setup_modules ex)
    unfolding finish_attach
    IsSafe-finish_attach none = setup
    IsSafe-finish_attach (some e) =
        then_next (IsSafe-modify _ (λ s. refl) (λ s. quiet s _ refl refl refl)) λ _. IsSafe-throw e

    IsSafe-attach_process : (pid : ℕ) → IsSafe (attach_process setup_modules pid)
    unfolding attach_process
    IsSafe-attach_process pid =
        then_next (IsSafe-modify _ (λ s. refl) (λ s. quiet s _ refl refl refl)) λ _.
          then_next (IsSafe-try IsSafe-seize IsSafe-keep_exception)
            λ my_ex. IsSafe-finish_attach my_ex

    pub IsSafe-cmd_attach :
        (argc : ℕ) (argv : List Text) → IsSafe (cmd_attach setup_modules argc argv)
    unfolding cmd_attach
    IsSafe-cmd_attach argc argv = then_next IsSafe-get λ s.
        branch (not (s.pid == 0)) (IsSafe-print (Line.text "A process is already attached")) (
          branch (ltb argc 2) (IsSafe-print (Line.text "No process ID specified")) (
            choose (get_elem? argv 1) IsSafe-fault λ str. then_next (IsSafe-read_size str) λ pid.
              branch (leb (2 ^ 64 - 2 ^ 31) pid)
                (IsSafe-print (Line.text "Invalid process ID specified"))
                (IsSafe-attach_process (to_int pid))))
