-- ===== src/Control/Steps.antt =====
-- The operations on the tracee, its registers and the breakpoints change no more than the relation
-- `Runs` allows.
use my_dbg.Base.{
  ℕ, ◌+◌, ◌≡◌, refl, sym, Bool, true, false, not, ◌&&◌, [], ◌∷◌, ◌++◌, some, arith, get_elem?,
  if◌then◌else◌, Bool-cases, Option-cases, inl, inr, Text, ◌==◌, high_bytes, low_byte,
}
use mathlib.Core.List.{append-nil}
use my_dbg.Debugger.{MyException, Regs, Request, Kernel, Reply-cases, Bp, Dbg, Line, ok, M, pure}
use my_dbg.Debugger.Ends.{Ends, Within, Within-bind}
use my_dbg.Debugger.Exceptions.{catch_only}
use my_dbg.Debugger.Exceptions.Tries.{enter, throw-thrown, try_returns, try_caught}
use my_dbg.Debugger.Tracee.{my_ptrace, my_ptrace_getregs, my_ptrace_setregs, my_wait}
use my_dbg.Registers.{Reg, get_register, set_register, get_register_internal}
use my_dbg.Breakpoints.{get_breakpoint, is_breakpoint, load_bp, flip_trap, toggle_breakpoint}
use my_dbg.Syscalls.{found_name, syscall_name}
use my_dbg.Control.{set_signum, print_syscall, report_signal, ended}
use my_dbg.Control.Runs.{
  Runs, Runs-preorder, Runs-quiet, Within-pure, throw_after, throw_last, Within-print,
  map-sealed-set,
}

module _ {P : Type 0} ⦃k : Kernel P⦄ where
  pub Within-my_ptrace : (r : Request) (a w : ℕ) → Within Runs (my_ptrace {P = P} r a w)
  unfolding my_ptrace
  Within-my_ptrace r a w s = elim (Reply-cases (k.ptrace r s.pid a w s.process)) [
    | inl ((x, p), e) ↦ rw (e, my_ptrace) (Runs-quiet s _ refl refl refl refl refl refl)
    | inr (n, e) ↦
        rw (e, my_ptrace) (throw_last _ _ s _ (Runs-quiet s _ refl refl refl refl refl refl))
  ]

  pub Within-getregs : Within Runs (my_ptrace_getregs {P = P})
  unfolding my_ptrace_getregs
  Within-getregs s = elim (Reply-cases (k.get_regs s.pid s.process)) [
    | inl (regs, e) ↦ rw (e, my_ptrace_getregs) (Runs-preorder.same s)
    | inr (n, e) ↦
        rw (e, my_ptrace_getregs)
          (throw_last _ _ s _ (Runs-quiet s _ refl refl refl refl refl refl))
  ]

  pub Within-setregs : (v : Regs) → Within Runs (my_ptrace_setregs {P = P} v)
  unfolding my_ptrace_setregs
  Within-setregs v s = elim (Reply-cases (k.set_regs s.pid v s.process)) [
    | inl (p, e) ↦ rw (e, my_ptrace_setregs) (Runs-quiet s _ refl refl refl refl refl refl)
    | inr (n, e) ↦
        rw (e, my_ptrace_setregs)
          (throw_last _ _ s _ (Runs-quiet s _ refl refl refl refl refl refl))
  ]

  pub Within-wait : Within Runs (my_wait {P = P})
  unfolding my_wait
  Within-wait s = elim (Reply-cases (k.wait s.pid s.process)) [
    | inl ((x, p), e) ↦ rw (e, my_wait) (Runs-quiet s _ refl refl refl refl refl refl)
    | inr (n, e) ↦
        rw (e, my_wait) (throw_last _ _ s _ (Runs-quiet s _ refl refl refl refl refl refl))
  ]

  pub Within-get_register : (r : Reg) → Within Runs (get_register {P = P} r)
  unfolding get_register
  Within-get_register r =
      Within-bind Runs-preorder my_ptrace_getregs _ Within-getregs
        (λ regs. Within-pure (get_register_internal regs r))

  pub Within-set_register : (r : Reg) (v : ℕ) → Within Runs (set_register {P = P} r v)
  unfolding set_register
  Within-set_register r v =
      Within-bind Runs-preorder my_ptrace_getregs _ Within-getregs (λ regs. Within-setregs _)

  -- The word is read and written, and the record is stored back with another `enabled`.
  pub Within-flip_trap :
      (i : ℕ) (bp : Bp) (s : Dbg P)
      → get_elem? s.breakpoints i ≡ some bp
      → Ends (λ _ t. Runs s t) (Runs s) (flip_trap i bp s)
  unfolding flip_trap my_ptrace
  Within-flip_trap i bp s at_i =
      elim (Reply-cases (k.ptrace Request.peek_data s.pid bp.addr 0 s.process)) [
        | inr (n, e) ↦
            rw (e, my_ptrace)
              (throw_after _ _ _ s _ _ (Runs-quiet s _ refl refl refl refl refl refl))
        | inl ((w, p), e) ↦
            rw (e, my_ptrace)
              (elim (Reply-cases (
                k.ptrace Request.poke_data s.pid bp.addr
                  (high_bytes w + (if not bp.enabled then 0xcc else low_byte bp.word)) p)) [
                    | inr (n, f) ↦
                        rw (f, my_ptrace)
                          (throw_after _ _ _ s _ _ (Runs-quiet s _ refl refl refl refl refl refl))
                    | inl ((x, q), f) ↦
                        rw (f, my_ptrace)
                          (record {
                            pid = refl;
                            syscalls = refl;
                            envs = refl;
                            table = map-sealed-set s.breakpoints i bp (not bp.enabled) at_i;
                            printed = ([], sym (append-nil s.out));
                            quit = (Runs-preorder.same s).quit;
                          })
                  ])
      ]

  pub Within-toggle : (i : ℕ) → Within Runs (toggle_breakpoint {P = P} i)
  unfolding toggle_breakpoint
  Within-toggle i s = elim (Option-cases (get_elem? s.breakpoints i)) [
    | inl e ↦ rw (e, load_bp) tt
    | inr (bp, e) ↦
        rw (e, load_bp)
          (elim (Bool-cases (not bp.enabled && bp.flags.temp)) [
            | inl h ↦ rw h (Runs-preorder.same s)
            | inr h ↦ rw h (Within-flip_trap i bp s e)
          ])
  ]

  pub Within-is_breakpoint : (a : ℕ) → Within Runs (is_breakpoint {P = P} a)
  unfolding is_breakpoint get_breakpoint
  Within-is_breakpoint a s = Runs-preorder.same s

  pub Within-when :
      (b : Bool) (m : M P (Unit {0})) → Within Runs m → Within Runs (if b then m else pure tt)
  Within-when true m h = h
  Within-when false m h = Within-pure tt

  -- `print_syscall` returns, with the name if the number has one.
  pub print_syscall-ok :
      (n : ℕ) (s : Dbg P)
      → print_syscall n s
        ≡ ok tt (record s { out = s.out ++ Line.syscall_catched (found_name k.number n) n ∷ [] })
  unfolding print_syscall syscall_name catch_only
  print_syscall-ok n s = elim (Option-cases (found_name k.number n)) [
    | inl e ↦ rw e (
        try_caught _ _ s _ tt MyException.syscall_exception (enter s)
          (rw (e, syscall_name)
            (rw (throw-thrown {A = Text} MyException.syscall_exception (enter s) (omega arith))))
          refl)
    | inr (x, e) ↦ rw e (try_returns _ _ s _ tt (rw (e, syscall_name)))
  ]

  pub Within-print_syscall : (n : ℕ) → Within Runs (print_syscall {P = P} n)
  Within-print_syscall n s =
      rw (print_syscall-ok n s) (Within-print (Line.syscall_catched (found_name k.number n) n) s)

  pub Within-report_signal : Within Runs (report_signal {P = P})
  unfolding report_signal
  Within-report_signal s =
      Within-when (not (s.signum == 0)) _ (Within-print (Line.interrupted s.pid s.signum)) s

  pub Within-signum : (n : ℕ) → Within Runs (set_signum {P = P} n)
  Within-signum n s = Runs-quiet s _ refl refl refl refl refl refl

  pub Within-ended : (status : ℕ) → Within Runs (ended {P = P} status)
  unfolding ended
  Within-ended status s = record {
    pid = refl;
    syscalls = refl;
    envs = refl;
    table = refl;
    printed = (_ ∷ [], refl);
    quit = ground arith;
  }
