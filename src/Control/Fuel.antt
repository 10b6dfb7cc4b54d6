-- ===== src/Control/Fuel.antt =====
-- `continue_execution` of src/binary.c ends when the tracee makes finitely many system calls.
use my_dbg.Base.{
  ℕ, zero, suc, ◌≤◌, ◌<◌, ◌≡◌, ◌≢◌, refl, Bool, true, false, not, ◌&&◌, Option, none, some, arith,
  Bool-cases, inl, inr, ◌==◌, to_int,
}
use mathlib.Core.Path.{subst}
use my_dbg.Debugger.{Regs, Request, Kernel, Reply-cases, Dbg, out_of_fuel, M}
use my_dbg.Debugger.Laws.{StopsIn}
use my_dbg.Debugger.Tracee.{my_ptrace, my_ptrace_getregs, my_ptrace_setregs, my_wait}
use my_dbg.Registers.{Reg, reg_rip, reg_orig_rax, get_register, set_register, get_register_internal}
use my_dbg.Breakpoints.{flip_trap, toggle_breakpoint}
use my_dbg.Control.{
  sigtrap, if_stopped, is_syscall_stop, toggle_if, hit_if, hit_breakpoint, print_syscall,
  report_signal, syscall_stop, inspect_stop, stopped, ended, wait_program, single_step, resume,
  continue_with, continue_execution,
}
use my_dbg.Control.Steps.{print_syscall-ok}
use my_dbg.Control.Finished.{
  Finished-≢out_of_fuel, Finished-throw, Finished-mono, Finished-bind, run, then_next, choose,
  f_pure, f_get, f_print, f_signum, f_entry, f_load_bp, f_store_bp, f_get_breakpoint,
  f_is_breakpoint, f_in_syscalls, Finished, Fine, fine,
}

-- A status of a stopped tracee whose signal has bit 7 set
abbrev pub at_syscall : ℕ → Bool
at_syscall status = if_stopped status && is_syscall_stop status

module _ {P : Type 0} ⦃k : Kernel P⦄ {left : P → ℕ} (law : StopsIn k at_syscall left) {n : ℕ} where
  f_report_signal : Fine left n report_signal
  unfolding report_signal
  f_report_signal = then_next f_get λ s. choose (not (s.signum == 0)) (f_print _) (f_pure tt)

  f_my_ptrace : (r : Request) (a w : ℕ) → Fine left n (my_ptrace r a w)
  unfolding my_ptrace
  f_my_ptrace r a w = fine λ s le. elim (Reply-cases (k.ptrace r s.pid a w s.process)) [
    | inl ((x, p), e) ↦
        rw (e, my_ptrace) (omega (arith, le, law.ptrace_left r s.pid a w x s.process p e))
    | inr (x, e) ↦ rw (e, my_ptrace) (Finished-throw _ _ _)
  ]

  f_getregs : Fine left n my_ptrace_getregs
  unfolding my_ptrace_getregs
  f_getregs = fine λ s le. elim (Reply-cases (k.get_regs s.pid s.process)) [
    | inl (r, e) ↦ rw (e, my_ptrace_getregs) le
    | inr (x, e) ↦ rw (e, my_ptrace_getregs) (Finished-throw _ _ _)
  ]

  f_setregs : (v : Regs) → Fine left n (my_ptrace_setregs v)
  unfolding my_ptrace_setregs
  f_setregs v = fine λ s le. elim (Reply-cases (k.set_regs s.pid v s.process)) [
    | inl (p, e) ↦ rw (e, my_ptrace_setregs) (omega (arith, le, law.set_left s.pid v s.process p e))
    | inr (x, e) ↦ rw (e, my_ptrace_setregs) (Finished-throw _ _ _)
  ]

  f_get_register : (r : Reg) → Fine left n (get_register r)
  unfolding get_register
  f_get_register r = then_next f_getregs λ regs. f_pure (get_register_internal regs r)

  f_set_register : (r : Reg) (v : ℕ) → Fine left n (set_register r v)
  unfolding set_register
  f_set_register r v = then_next f_getregs λ regs. f_setregs _

  f_toggle : (i : ℕ) → Fine left n (toggle_breakpoint i)
  unfolding toggle_breakpoint flip_trap
  f_toggle i = then_next (f_load_bp i) λ bp. choose (not bp.enabled && bp.flags.temp) (f_pure tt) (
      then_next (f_my_ptrace Request.peek_data bp.addr 0)
        λ w. then_next (f_my_ptrace Request.poke_data bp.addr _) λ _. f_store_bp i _)

  f_toggle_if : (bp : Option ℕ) → Fine left n (toggle_if bp)
  f_toggle_if none = f_pure tt
  f_toggle_if (some i) = f_toggle i

  f_print_syscall : (x : ℕ) → Fine left n (print_syscall x)
  f_print_syscall x = fine λ s le. rw (print_syscall-ok x s) le

  f_ended : (status : ℕ) → Fine left n (ended status)
  unfolding ended
  f_ended status = fine λ s le. le

  f_hit_breakpoint : (i a : ℕ) → Fine left n (hit_breakpoint i a)
  unfolding hit_breakpoint
  f_hit_breakpoint i a = then_next (f_load_bp i) λ bp.
      then_next (choose bp.flags.temp (f_toggle i) (f_pure tt)) λ _.
        then_next (choose (not bp.flags.internal) (f_print _) (f_pure tt)) λ _.
          then_next (f_set_register reg_rip a)
            λ _. then_next f_get λ s. choose (s.signum == sigtrap) (f_signum 0) (f_pure tt)

  f_hit_if : (bp : Option ℕ) (a : ℕ) → Fine left n (hit_if bp a)
  f_hit_if none a = f_pure false
  f_hit_if (some i) a = then_next (f_hit_breakpoint i a) λ _. f_pure true

  module _ {continue : M P (Unit {0})} where
    f_syscall_stop :
        Fine left n continue → (is_bp : Bool) → Fine left n (syscall_stop continue is_bp)
    unfolding syscall_stop
    f_syscall_stop h is_bp = then_next (f_signum 0) λ _.
        then_next (f_get_register reg_orig_rax) λ rax. then_next f_entry λ _.
          then_next (f_in_syscalls (to_int rax)) λ caught. then_next f_get λ s.
            choose (caught && s.syscall_entry)
              (then_next (f_print_syscall (to_int rax)) λ _. f_report_signal)
              (choose (not is_bp) h f_report_signal)

    -- `continue` matters at a system call stop alone.
    f_inspect_stop :
        (status : ℕ)
        → (is_syscall_stop status ≡ true → Fine left n continue)
        → Fine left n (inspect_stop continue status)
    unfolding inspect_stop
    f_inspect_stop status h = then_next (f_get_register reg_rip) λ rip.
        then_next (f_get_breakpoint _) λ bp. then_next (f_hit_if bp _) λ is_bp.
          then_next
            (elim (Bool-cases (is_syscall_stop status)) [
              | inl e ↦ rw e (f_syscall_stop (h e) is_bp)
              | inr e ↦ rw e f_report_signal
            ])
            λ _. f_pure false

    f_stopped :
        (step : Bool) (status : ℕ)
        → (is_syscall_stop status ≡ true → Fine left n continue)
        → Fine left n (stopped continue step status)
    unfolding stopped
    f_stopped step status h = then_next (f_signum _) λ _. then_next f_get λ s.
        choose (step && (s.signum == sigtrap)) (then_next (f_signum 0) λ _. f_pure true)
          (f_inspect_stop status h)

module _ {P : Type 0} ⦃k : Kernel P⦄ {left : P → ℕ} (law : StopsIn k at_syscall left)
    {continue : M P (Unit {0})} where
  after_stop :
      (n : ℕ) (step : Bool) (status : ℕ) (t : Dbg P)
      → left t.process ≤ n
      → (is_syscall_stop status ≡ true → left t.process < n)
      → ((m : ℕ) → n ≡ suc m → Fine left m continue)
      → Finished (λ _ u. left u.process ≤ n) (stopped continue step status t)
  after_stop zero step status t le lt next =
      run (f_stopped law step status (λ e. absurd (omega (arith, lt e)))) t le
  after_stop (suc m) step status t le lt next = elim (Bool-cases (is_syscall_stop status)) [
    | inl e ↦
        Finished-mono (λ _ u. left u.process ≤ m) (λ _ u. left u.process ≤ suc m) _
          (run (f_stopped law step status (λ _. next m refl)) t (omega (arith, lt e)))
          λ a u h. omega (arith, h)
    | inr e ↦ run (f_stopped law step status (λ h. absurd cc)) t le
  ]

  module _ (n : ℕ) (next : (m : ℕ) → n ≡ suc m → Fine left m continue) where
    f_wait_program : (step : Bool) → Fine left n (wait_program continue step)
    unfolding wait_program my_wait
    f_wait_program step = fine λ s le. elim (Reply-cases (k.wait s.pid s.process)) [
      | inr (x, e) ↦
          rw (e, my_wait)
            (Finished-bind (λ _ _. ⊥) (λ _ t. left t.process ≤ n) _ _
              (Finished-throw (λ _ _. ⊥) _ _) λ a t h. absurd h)
      | inl ((status, q), e) ↦
          let t : Dbg P = record s { process = q } in
          let less = law.wait_left s.pid status s.process q e in
          rw (e, my_wait)
            (elim (Bool-cases (if_stopped status)) [
              | inr gone ↦ rw gone (run (f_ended law status) t (omega (arith, less, le)))
              | inl here ↦ rw here (
                  after_stop n step status t (omega (arith, less, le))
                    (λ b.
                      omega (arith, law.wait_takes s.pid status s.process q e (ground arith), le))
                    next)
            ])
    ]

    f_single_step : Fine left n (single_step continue)
    unfolding single_step
    f_single_step = then_next (f_get_register law reg_rip) λ addr.
        then_next (f_get_breakpoint addr) λ bp. then_next (f_toggle_if law bp) λ _.
          then_next f_get λ s. then_next (f_my_ptrace law Request.single_step 0 s.signum) λ _.
            then_next (f_signum 0) λ _.
              then_next (f_wait_program true) λ ret. then_next (f_toggle_if law bp) λ _. f_pure ret

    f_resume : Fine left n (resume continue)
    unfolding resume
    f_resume = then_next f_get λ s.
        then_next (f_my_ptrace law _ 0 s.signum)
          λ _. then_next (f_signum 0) λ _. then_next (f_wait_program false) λ _. f_pure tt

    f_continue_with : Fine left n (continue_with continue)
    unfolding continue_with
    f_continue_with = then_next (f_get_register law reg_rip) λ addr.
        then_next (f_is_breakpoint addr) λ at_bp.
          choose at_bp (then_next f_single_step λ b. choose b f_resume (f_pure tt)) f_resume

module _ {P : Type 0} ⦃k : Kernel P⦄ (left : P → ℕ) (law : StopsIn k at_syscall left) where
  continue_execution-Fine : (n : ℕ) → Fine left n (continue_execution (suc n))
  unfolding continue_execution
  continue_execution-Fine zero = fine (run (f_continue_with law 0 λ m e. absurd (omega (arith, e))))
  continue_execution-Fine (suc n) = fine (
      run (
        f_continue_with law (suc n) λ m e.
          let same : n ≡ m = omega (arith, e) in
          subst (λ (x : ℕ). Fine left x (continue_execution (suc n))) same
            (continue_execution-Fine n)))

  -- If the tracee makes at most `fuel` more stops at system calls, `continue_execution` ends: the
  -- calls of itself that it makes, one for each stop that is not reported, fit in `fuel + 1` rounds.
  pub continue_execution-≢out_of_fuel :
      (fuel : ℕ) (s : Dbg P) → left s.process ≤ fuel → continue_execution (suc fuel) s ≢ out_of_fuel
  continue_execution-≢out_of_fuel fuel s le =
      Finished-≢out_of_fuel (λ _ t. left t.process ≤ fuel) _
        (run (continue_execution-Fine fuel) s le)
