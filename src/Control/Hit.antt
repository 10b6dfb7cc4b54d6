-- ===== src/Control/Hit.antt =====
-- `wait_program` of src/binary.c at a breakpoint.
use my_dbg.Base.{
  ℕ, ◌+◌, ◌-◌, ◌%◌, ◌^◌, ◌<◌, ◌≡◌, refl, Bool, true, false, [], ◌∷◌, ◌++◌, some, arith, get_elem?,
  ◌==◌, if◌then◌else◌, Bool-cases, inl, inr,
}
use my_dbg.Debugger.{
  MyException, Regs, Kernel, Reply, Reply-cases, done, failed, Bp, Dbg, Line, Res, ok, M,
}
use my_dbg.Debugger.Exceptions.{throw}
use my_dbg.Debugger.Tracee.{my_ptrace_getregs, my_ptrace_setregs, my_wait}
use my_dbg.Registers.{reg_rip, set_register, get_register_internal, set_register_internal}
use my_dbg.Registers.Access.{get_register-ok}
use my_dbg.Breakpoints.{get_loop, get_breakpoint, load_bp}
use my_dbg.Control.{sigtrap, hit_breakpoint, report_signal, inspect_stop, stopped, wait_program}

module _ {P : Type 0} ⦃k : Kernel P⦄ where
  -- The state with the message on a breakpoint
  abbrev told : Bp → ℕ → Dbg P → Dbg P
  told bp addr s = record s { out = s.out ++ Line.breakpoint_at bp.id addr ∷ [] }

  -- The end of a stop at a breakpoint in the state `s`, where PTRACE_SETREGS answers as it does: the
  -- message, and the signal taken if the registers are
  abbrev pub moved_back : {A : Type 0} → A → (bp : Bp) (addr : ℕ) → Dbg P → Reply P → Res P A
  moved_back a bp addr s (done p) = ok a (record (told bp addr s) { process = p; signum = 0 })
  moved_back a bp addr s (failed e) =
      throw MyException.ptrace_exception (record (told bp addr s) { errno = e })

  hit_breakpoint_lem :
      (i addr : ℕ) (bp : Bp) (regs : Regs) (s : Dbg P)
      → get_elem? s.breakpoints i ≡ some bp
      → bp.flags.temp ≡ false
      → bp.flags.internal ≡ false
      → s.signum ≡ sigtrap
      → k.get_regs s.pid s.process ≡ done regs
      → hit_breakpoint i addr s
        ≡ moved_back tt bp addr s (k.set_regs s.pid (record regs { rip = addr }) s.process)
  unfolding hit_breakpoint set_register my_ptrace_getregs my_ptrace_setregs load_bp
      set_register_internal throw
  hit_breakpoint_lem i addr bp regs s found steady shown trap e =
      let is_trap : (s.signum == sigtrap) ≡ true = ground arith in
      rw (found, load_bp)
        (rw (steady, shown)
          (rw (e, my_ptrace_getregs)
            (elim (Reply-cases (k.set_regs s.pid (record regs { rip = addr }) s.process)) [
              | inl (p, wrote) ↦ rw (wrote, my_ptrace_setregs) (rw is_trap)
              | inr (n, refused) ↦
                  rw (refused, my_ptrace_setregs)
                    (elim (Bool-cases (s.envs == 0)) [
                      | inl none_left ↦ rw none_left refl
                      | inr some_left ↦ rw some_left refl
                    ])
            ])))

  inspect_stop_lem :
      (continue : M P (Unit {0})) (s : Dbg P) (regs : Regs) (addr i : ℕ) (bp : Bp)
      → k.get_regs s.pid s.process ≡ done regs
      → regs.rip ≡ addr + 1
      → addr + 1 < 2 ^ 64
      → s.signum ≡ sigtrap
      → get_breakpoint addr s ≡ ok (some i) s
      → get_elem? s.breakpoints i ≡ some bp
      → bp.flags.temp ≡ false
      → bp.flags.internal ≡ false
      → inspect_stop continue 0x57f s
        ≡ moved_back false bp addr s (k.set_regs s.pid (record regs { rip = addr }) s.process)
  unfolding inspect_stop report_signal throw get_register_internal
  inspect_stop_lem continue s regs addr i bp e rip fits trap at_addr found steady shown =
      let back : (regs.rip + 2 ^ 64 - 1) % 2 ^ 64 ≡ addr = omega (arith, rip, fits) in
      rw (get_register-ok reg_rip regs s e) (
        rw (back, at_addr)
          (rw (hit_breakpoint_lem i addr bp regs s found steady shown trap e)
            (elim (Reply-cases (k.set_regs s.pid (record regs { rip = addr }) s.process)) [
              | inl (p, wrote) ↦ rw wrote refl
              | inr (n, refused) ↦ rw refused (elim (Bool-cases (s.envs == 0)) [
                | inl none_left ↦ rw none_left refl
                | inr some_left ↦ rw some_left refl
              ])
            ])))

  -- A tracee that stops with SIGTRAP behind a set breakpoint on code that is neither temporary nor
  -- internal. In a single step, `wait_program` takes the signal for itself and returns 1 with nothing
  -- else done. Otherwise it prints the breakpoint's number and has PTRACE_SETREGS put the instruction
  -- pointer back to the breakpoint, the other registers as they are; if that is done it takes the
  -- signal for itself and returns 0, and if it is refused it throws.
  pub wait_program-get_breakpoint :
      (continue : M P (Unit {0})) (step : Bool) (s : Dbg P) (q : P) (regs : Regs) (addr i : ℕ)
      (bp : Bp)
      → k.wait s.pid s.process ≡ done (0x57f, q)
      → k.get_regs s.pid q ≡ done regs
      → regs.rip ≡ addr + 1
      → addr + 1 < 2 ^ 64
      → get_breakpoint addr s ≡ ok (some i) s
      → get_elem? s.breakpoints i ≡ some bp
      → bp.flags.temp ≡ false
      → bp.flags.internal ≡ false
      → wait_program continue step s ≡ (
          if step
          then ok true (record s { process = q; signum = 0 })
          else moved_back false bp addr
              (record s { process = q; signum = sigtrap })
              (k.set_regs s.pid (record regs { rip = addr }) q))
  unfolding wait_program my_wait stopped get_breakpoint
  wait_program-get_breakpoint continue true s q regs addr i bp stop e rip fits at_addr found steady
        shown =
      rw (stop, my_wait) refl
  wait_program-get_breakpoint continue false s q regs addr i bp stop e rip fits at_addr found steady
        shown =
      let t : Dbg P = record s { process = q; signum = sigtrap } in
      let first : get_loop addr 0 s.breakpoints ≡ some i = cc (at_addr) in
      let here : get_breakpoint addr t ≡ ok (some i) t = rw first refl in
      rw (stop, my_wait)
        (inspect_stop_lem continue t regs addr i bp e rip fits refl here found steady shown)
