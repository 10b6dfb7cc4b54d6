-- ===== src/Tests/Calls.antt =====
-- System calls and registers.
use mathlib.Core.Path.{subst}
use my_dbg.Base.{
  ℕ, zero, suc, ◌≡◌, ◌≢◌, ◌↔◌, refl, true, [], ◌∷◌, some, arith, length, Text, some_inj,
  if◌then◌else◌, minus_one, to_int, sym, ◌∙◌, codes, str_eq, get_elem?,
}
use my_dbg.Debugger.{Regs, Dbg, Bp, ok, fault}
use my_dbg.Breakpoints.{syscall_flag, place_breakpoint}
use my_dbg.Breakpoints.Memory.{new_bp, Holds}
use my_dbg.Registers.{
  reg_rax, reg_rip, reg_name, get_register_from_name, set_register, get_register_internal,
}
use my_dbg.Registers.Access.{handed, set_register-get_register}
use my_dbg.SyscallTable.{syscall_names}
use my_dbg.Syscalls.{
  mem_syscalls, in_syscalls, add_syscall_break, syscall_name, syscall_num, syscall_num_aux,
  found_name, name_of, num_of,
}
use my_dbg.Syscalls.Watched.{
  Watches, IsWatched, IsWatched-append, IsLive, in_syscalls-IsLive, add_syscall_break-IsWatched,
}
use my_dbg.Syscalls.Names.{syscall_name-syscall_num}
use my_dbg.Commands.Breaks.{delete_breakpoint}
use my_dbg.Commands.Breaks.Delete.{
  deleted_state, delete_breakpoint-place_breakpoint, delete_breakpoint-IsWatched,
  delete_breakpoint-IsLive,
}
use my_dbg.Tests.Toy.{
  Toy, toy, toy_number, start, toy_ptrace, toy-HasMemory, zero_regs, plain_flags, code_word,
}

-- One breakpoint on system call 0
abbrev bp : Bp
bp = new_bp 1 syscall_flag 0 0

abbrev watching : Dbg Toy
watching = record start { breakpoints = bp ∷ []; syscalls = 0 ∷ [] }

only : (i : ℕ) (b : Bp) → Watches (bp ∷ []) i b → (i ≡ 0) × (bp ≡ b)
only zero b w = (refl, some_inj w.found)
only (suc i) b w = cc (w.found)

first : Watches (bp ∷ []) 0 bp
first = record { found = refl; on_syscall = refl }

at_first : (j n : ℕ) → get_elem? (0 ∷ []) j ≡ some n → 0 ≡ j
at_first zero n e = refl
at_first (suc j) n e = cc

watched : IsWatched (bp ∷ []) (0 ∷ [])
unfolding to_int
watched = record {
  entry = λ i b w.
      subst
        (λ (x : Bp).
          get_elem? (0 ∷ []) x.word ≡ some (if x.deleted then minus_one else to_int x.addr))
        (only i b w).1 refl;
  apart = λ i j a b wa wb e. (only i a wa).0 ∙ sym (only j b wb).0;
  owner = λ j n e ne. (0, bp, first, refl, at_first j n e);
}

pub unwatched : IsWatched [] []
unwatched = record {
  entry = λ i b w. cc (w.found);
  apart = λ i j a b wa wb e. cc (wa.found);
  owner = λ j n e ne. cc;
}

in_syscalls-IsLive_example :
    (in_syscalls 0 watching ≡ ok true watching) ↔ ((0 ≢ minus_one) × IsLive watching.breakpoints 0)
in_syscalls-IsLive_example = in_syscalls-IsLive 0 watching watched

in_syscalls_run : in_syscalls 0 watching ≡ ok true watching
unfolding in_syscalls mem_syscalls
in_syscalls_run = refl

add_syscall_break-IsWatched_example :
    (t : Dbg Toy) × (add_syscall_break ⦃k = toy⦄ 0 start ≡ ok tt t)
    × IsWatched t.breakpoints t.syscalls
    × (length t.breakpoints ≡ 1)
    × (t.syscalls ≡ 0 ∷ [])
add_syscall_break-IsWatched_example =
    add_syscall_break-IsWatched ⦃k = toy⦄ 0 start unwatched (omega arith) (omega arith)

delete_breakpoint-IsWatched_example :
    (delete_breakpoint 1 watching ≡ ok tt (deleted_state 1 bp watching))
    × IsWatched (deleted_state 1 bp watching).breakpoints (deleted_state 1 bp watching).syscalls
delete_breakpoint-IsWatched_example =
    delete_breakpoint-IsWatched 1 bp watching (omega arith) refl refl refl watched

-- Two breakpoints on system call 0: the second one is live when the first is deleted.
abbrev second : Bp
second = new_bp 2 syscall_flag 0 1

abbrev watching_twice : Dbg Toy
watching_twice = record start { breakpoints = bp ∷ second ∷ []; syscalls = 0 ∷ 0 ∷ [] }

IsWatched-twice : IsWatched (bp ∷ second ∷ []) (0 ∷ 0 ∷ [])
unfolding to_int
IsWatched-twice = IsWatched-append (bp ∷ []) (0 ∷ []) second 0 watched refl refl refl refl

delete_breakpoint-IsLive_example :
    (t : Dbg Toy) × (delete_breakpoint 1 watching_twice ≡ ok tt t)
    × ((in_syscalls 0 t ≡ ok true t)
        ↔ ((0 ≢ minus_one) × (l : IsLive watching_twice.breakpoints 0) × (l.index ≢ 0)))
delete_breakpoint-IsLive_example =
    delete_breakpoint-IsLive 1 bp watching_twice (omega arith) refl refl 0 refl IsWatched-twice

readable_code : Holds toy start 0x1000 code_word
unfolding toy_ptrace
readable_code = refl

-- The word of the code is no index of the empty `g_syscalls`.
delete_breakpoint-place_breakpoint_example :
    (n : ℕ) × (t : Dbg Toy) × (place_breakpoint ⦃k = toy⦄ 0x1000 plain_flags start ≡ ok n t)
    × (delete_breakpoint n t ≡ fault)
delete_breakpoint-place_breakpoint_example =
    delete_breakpoint-place_breakpoint ⦃k = toy⦄ toy-HasMemory start 0x1000 code_word plain_flags
      refl readable_code

read_named : syscall_name ⦃k = toy⦄ 0 start ≡ ok (codes "read") start
unfolding syscall_name found_name name_of toy_number str_eq syscall_names
read_named = refl

read_numbered : syscall_num ⦃k = toy⦄ (codes "read") start ≡ ok 0 start
unfolding syscall_num syscall_num_aux num_of toy_number str_eq syscall_names
read_numbered = refl

syscall_name-syscall_num_example :
    (other : Text) × (syscall_name ⦃k = toy⦄ 0 start ≡ ok other start)
    × (syscall_num ⦃k = toy⦄ other start ≡ ok 0 start)
syscall_name-syscall_num_example =
    syscall_name-syscall_num ⦃k = toy⦄ (codes "read") 0 start start read_numbered

set_register-get_register_example :
    (new : Regs) × (set_register ⦃k = toy⦄ reg_rax 7 start ≡ handed ⦃k = toy⦄ new start)
    × (get_register_internal new reg_rax ≡ 7)
    × (get_register_from_name ⦃k = toy⦄ (reg_name reg_rip) start
        ≡ ok (get_register_internal new reg_rip) start)
set_register-get_register_example =
    set_register-get_register ⦃k = toy⦄ reg_rax reg_rip 7 zero_regs start (λ e. absurd cc) refl
