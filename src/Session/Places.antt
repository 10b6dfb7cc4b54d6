-- ===== src/Session/Places.antt =====
-- Breakpoints that are set and deleted, and the numbers of system calls.
use my_dbg.Base.{
  ℕ, ◌+◌, ◌-◌, ◌%◌, ◌^◌, ◌≡◌, refl, true, not, ◌||◌, List, some, Text, ◌==◌, ltb, arith, length,
  get_elem?, minus_one, sign_extend, Option-cases, inl, inr, high_bytes,
}
use my_dbg.Debugger.{MyException, Request, Kernel, Flags, Bp, Dbg, Line, M, ◌>>=◌}
use my_dbg.Debugger.Ends.{keeps}
use my_dbg.Debugger.Tracee.{my_ptrace}
use my_dbg.Breakpoints.{syscall_flag, patch, place_breakpoint, load_bp, store_bp}
use my_dbg.Syscalls.{
  add_syscall_break, syscall_name, syscall_num_aux, syscall_num, found_name, num_of,
}
use my_dbg.SyscallTable.{syscall_names}
use my_dbg.Control.Steps.{Within-my_ptrace}
use my_dbg.Commands.Breaks.{arg, clear_syscall, delete_breakpoint}
use my_dbg.Session.{Survives, Survives-refl, Grows-append, Grows-delete}
use my_dbg.Session.Rules.{
  branch_at, then_at, IsSafe, safe, from, SafeFrom, at, then_next, branch, choose, if_at, option_at,
  IsSafe-pure, IsSafe-fault, IsSafe-throw, IsSafe-get, IsSafe-print, IsSafe-modify, IsSafe-Runs,
}

module _ {P : Type 0} where
  pub IsSafe-arg : (i : ℕ) (argv : List Text) → IsSafe (arg {P = P} i argv)
  IsSafe-arg i argv =
      safe λ s. option_at (get_elem? argv i) (from IsSafe-fault s) λ a. from (IsSafe-pure a) s

  -- A change that no part of `Survives` speaks of
  pub quiet :
      (s t : Dbg P) → t.quit ≡ s.quit → t.breakpoints ≡ s.breakpoints → t.out ≡ s.out → Survives s t
  quiet s t a b c = record {
    quit = rw a (Survives-refl s).quit;
    table = rw b (Survives-refl s).table;
    printed = rw c (Survives-refl s).printed;
  }

  IsSafe-clear_syscall : (i : ℕ) → IsSafe (clear_syscall {P = P} i)
  unfolding clear_syscall
  IsSafe-clear_syscall i = safe λ s.
      if_at (ltb i (length s.syscalls)) (at (refl, quiet s _ refl refl refl)) (from IsSafe-fault s)

  -- The breakpoint at index `i` is read, and what follows is about the state it was read in.
  IsSafe-load :
      {A : Type 0} (i : ℕ) {f : Bp → M P A}
      → ((bp : Bp) (s : Dbg P) → get_elem? s.breakpoints i ≡ some bp → SafeFrom s (f bp s))
      → IsSafe (load_bp i >>= f)
  unfolding load_bp
  IsSafe-load i h = safe λ s. elim (Option-cases (get_elem? s.breakpoints i)) [
    | inl e ↦ rw (e, load_bp) (at tt)
    | inr (bp, e) ↦ rw (e, load_bp) (h bp s e)
  ]

  store_at :
      (i : ℕ) (bp : Bp) (s : Dbg P)
      → get_elem? s.breakpoints i ≡ some bp
      → SafeFrom s (store_bp i (record bp { deleted = true }) s)
  unfolding store_bp
  store_at i bp s e = at (
    refl,
    record {
      quit = (Survives-refl s).quit;
      table = Grows-delete 0 i s.breakpoints bp e;
      printed = (Survives-refl s).printed;
    },
  )

  pub IsSafe-delete_breakpoint : (nb : ℕ) → IsSafe (delete_breakpoint {P = P} nb)
  unfolding delete_breakpoint
  IsSafe-delete_breakpoint nb = then_next IsSafe-get λ s.
      branch (nb == 0 || ltb (length s.breakpoints) nb)
        (IsSafe-print (Line.text "Invalid ID specified"))
        (IsSafe-load (nb - 1) λ bp t e.
          branch_at bp.deleted _ _ (from (IsSafe-print (Line.breakpoint_already_deleted nb)) t) (
            then_at (store_at (nb - 1) bp t e) λ _.
              then_next (IsSafe-clear_syscall bp.word)
                λ _. IsSafe-print (Line.breakpoint_deleted nb)))

module _ {P : Type 0} ⦃k : Kernel P⦄ where
  pub IsSafe-my_ptrace : (r : Request) (a w : ℕ) → IsSafe (my_ptrace {P = P} r a w)
  IsSafe-my_ptrace r a w = IsSafe-Runs (keeps (Within-my_ptrace r a w))

  IsSafe-patch : (addr : ℕ) (flags : Flags) → IsSafe (patch {P = P} addr flags)
  unfolding patch
  IsSafe-patch addr flags =
      branch (not flags.syscall)
        (then_next (IsSafe-my_ptrace Request.peek_data addr 0) λ word.
          then_next (IsSafe-my_ptrace Request.poke_data addr (high_bytes word + 0xcc))
            λ _. IsSafe-pure word)
        (then_next IsSafe-get λ s. IsSafe-pure ((length s.syscalls + 2 ^ 64 - 1) % 2 ^ 64))

  pub IsSafe-place_breakpoint :
      (addr : ℕ) (flags : Flags) → IsSafe (place_breakpoint {P = P} addr flags)
  unfolding place_breakpoint
  IsSafe-place_breakpoint addr flags = then_next (IsSafe-patch addr flags) λ word. safe λ s. at (
    refl,
    record {
      quit = (Survives-refl s).quit;
      table = Grows-append 0 s.breakpoints _ (omega arith);
      printed = (Survives-refl s).printed;
    },
  )

  pub IsSafe-add_syscall_break : (syscall : ℕ) → IsSafe (add_syscall_break {P = P} syscall)
  unfolding add_syscall_break
  IsSafe-add_syscall_break syscall =
      then_next (IsSafe-modify _ (λ s. refl) (λ s. quiet s _ refl refl refl)) λ _.
        then_next (IsSafe-place_breakpoint (sign_extend syscall) syscall_flag) λ _. IsSafe-pure tt

  pub IsSafe-syscall_name : (n : ℕ) → IsSafe (syscall_name {P = P} n)
  unfolding syscall_name
  IsSafe-syscall_name n =
      choose (found_name k.number n) (IsSafe-throw MyException.syscall_exception)
        λ name. IsSafe-pure name

  pub IsSafe-syscall_num : (name : Text) → IsSafe (syscall_num {P = P} name)
  unfolding syscall_num syscall_num_aux
  IsSafe-syscall_num name =
      then_next
        (choose (num_of k.number name syscall_names) (IsSafe-throw MyException.syscall_exception)
          λ n. IsSafe-pure n)
        λ ret.
          branch (ret == minus_one) (IsSafe-throw MyException.syscall_exception) (IsSafe-pure ret)
