-- ===== src/Builtins/Watched.antt =====
-- `breaks` with the name of a system call, from the table of the program to `g_syscalls`.
use mathlib.Core.List.{Permᴰ}
use my_dbg.Base.{
  ℕ, ◌+◌, ◌-◌, ◌^◌, ◌%◌, ◌<◌, ◌≤◌, ◌≡◌, ◌≢◌, refl, ap, ◌∙◌, true, false, ◌==◌, leb, ◌&&◌, Bool,
  List, [], ◌∷◌, ◌++◌, some, Text, codes, arith, length, str_eq, minus_one, sign_extend, Bool-cases,
  Option-cases, length-append, to_int-sign_extend, inl, inr, str_eq→eq,
}
use my_dbg.Debugger.{MyException, Kernel, Dbg, Line, ok, thrown}
use my_dbg.Debugger.Exceptions.{catch_only}
use my_dbg.Breakpoints.{place_breakpoint, syscall_flag}
use my_dbg.Breakpoints.Memory.{new_bp}
use my_dbg.Debugger.Exceptions.Tries.{enter, throw-thrown, try_returns, try_caught}
use my_dbg.Commands.Breaks.{read_syscall, print_placed, cmd_breaks}
use my_dbg.Format.{read_size}
use my_dbg.Syscalls.{
  num_of, found_name, syscall_name, syscall_num_aux, syscall_num, in_syscalls, add_syscall_break,
}
use my_dbg.SyscallTable.{syscall_names}
use my_dbg.Syscalls.Watched.{IsWatched, IsWatched-append, in_syscalls_lem, mem_syscalls_end}
use my_dbg.Memory.{Memory}
use my_dbg.Capstone.{Capstone}
use my_dbg.MemMappings.{Maps}
use my_dbg.Unwind.{Unwind}
use my_dbg.Elf.Tracee.{Files}
use my_dbg.Dwarf.Sources.{Sources}
use my_dbg.Commands.{Cmd, run_command}
use my_dbg.Builtins.{Bounds, commands, breaks_command, place_commands, register_command}
use my_dbg.Builtins.Names.{commands-IsReached}
use my_dbg.Builtins.Typed.{run_command_found, run_found-ok}
use my_dbg.Format.Unread.{starts_with-letter, scan_zu-letter, read_size_unread}

module _ {P : Type 0} ⦃k : Kernel P⦄ where
  syscall_num_found :
      (name : Text) (n : ℕ) (s : Dbg P)
      → n ≢ minus_one
      → num_of k.number name syscall_names ≡ some n
      → syscall_num name s ≡ ok n s
  unfolding syscall_num
  syscall_num_found name n s ne found =
      let test : (n == minus_one) ≡ false = ground arith in rw (found, syscall_num_aux) (rw test)

  -- A text that is no number is read as a name.
  read_syscall_named :
      (name : Text) (n : ℕ) (s : Dbg P)
      → read_size name (enter s) ≡ thrown MyException.exception (enter s)
      → n ≢ minus_one
      → num_of k.number name syscall_names ≡ some n
      → read_syscall name s ≡ ok (some n) s
  unfolding read_syscall catch_only
  read_syscall_named name n s unread ne found =
      try_caught _ _ s s (some n) MyException.exception (enter s) (rw unread)
        (try_returns _ _ (enter s) (enter s) (some n) (rw (syscall_num_found name n _ ne found)))

  print_placed_lem :
      (n : ℕ) (s : Dbg P)
      → print_placed n s
        ≡ ok tt
            (record s { out = s.out ++ Line.breakpoint_placed_on (found_name k.number n) n ∷ [] })
  unfolding print_placed syscall_name catch_only
  print_placed_lem n s = elim (Option-cases (found_name k.number n)) [
    | inl e ↦ rw e (
        try_caught _ _ s _ tt MyException.syscall_exception (enter s)
          (rw (e, syscall_name)
            (rw (throw-thrown {A = Text} MyException.syscall_exception (enter s) (omega arith))))
          refl)
    | inr (x, e) ↦ rw e (try_returns _ _ s _ tt (rw (e, syscall_name)))
  ]

  -- The state behind `add_syscall_break`
  abbrev added : ℕ → Dbg P → Dbg P
  added n s = record s {
    syscalls = s.syscalls ++ n ∷ [];
    breakpoints =
        s.breakpoints
        ++ new_bp (length s.breakpoints + 1) syscall_flag (sign_extend n)
            ((length (s.syscalls ++ n ∷ []) + 2 ^ 64 - 1) % 2 ^ 64)
          ∷ [];
  }

  add_syscall_break_lem : (n : ℕ) (s : Dbg P) → add_syscall_break n s ≡ ok tt (added n s)
  unfolding add_syscall_break place_breakpoint new_bp
  add_syscall_break_lem n s = refl

  cmd_breaks_named :
      (word name : Text) (n : ℕ) (s : Dbg P)
      → read_size name (enter s) ≡ thrown MyException.exception (enter s)
      → n ≢ minus_one
      → num_of k.number name syscall_names ≡ some n
      → cmd_breaks 2 (word ∷ name ∷ []) s
        ≡ ok tt (record (added n s) {
          out = s.out ++ Line.breakpoint_placed_on (found_name k.number n) n ∷ [];
        })
  unfolding cmd_breaks
  cmd_breaks_named word name n s unread ne found =
      rw (read_syscall_named name n s unread ne found, add_syscall_break_lem, print_placed_lem) refl

-- A text that begins with a small letter or `_`
unfoldable begins : Text → Bool
begins [] = false
begins (c ∷ cs) = leb 95 c && leb c 122

unfoldable all_begin : List Text → Bool
unfolding begins
all_begin [] = true
all_begin (x ∷ xs) = begins x && all_begin xs

names_begin : all_begin syscall_names ≡ true
unfolding all_begin syscall_names
names_begin = refl

and_true : (a b : Bool) → (a && b) ≡ true → (a ≡ true) × (b ≡ true)
and_true true b h = (refl, h)
and_true false b h = cc

num_of-begins :
    (number : Text → ℕ) (name : Text) (n : ℕ) (names : List Text)
    → all_begin names ≡ true
    → num_of number name names ≡ some n
    → begins name ≡ true
unfolding num_of all_begin
num_of-begins number name n [] all found = cc
num_of-begins number name n (x ∷ xs) all found = elim (Bool-cases (str_eq name x)) [
  | inl h ↦ ap begins (str_eq→eq name x h) ∙ (and_true (begins x) (all_begin xs) all).0
  | inr h ↦
      num_of-begins number name n xs (and_true (begins x) (all_begin xs) all).1 (rw h at found)
]

module _ {P : Type 0} ⦃k : Kernel P⦄ where
  -- The name of a system call is no number.
  read_size_name :
      (name : Text) (n : ℕ) (s : Dbg P)
      → 1 < s.envs
      → num_of k.number name syscall_names ≡ some n
      → read_size name s ≡ thrown MyException.exception s
  unfolding begins
  read_size_name [] n s deep found =
      cc (num_of-begins k.number [] n syscall_names names_begin found)
  read_size_name (c ∷ cs) n s deep found =
      let first = num_of-begins k.number (c ∷ cs) n syscall_names names_begin found in
      let letter : (95 ≤ c) × (c ≤ 122) = ground (arith, first) in
      read_size_unread (c ∷ cs) s deep
        (starts_with-letter c cs letter b'0' (codes "x") (omega arith))
        (starts_with-letter c cs letter b'%' [] (omega arith)) (scan_zu-letter c cs letter)

module _ {P C : Type 0} ⦃k : Kernel P⦄ ⦃mem : Memory P⦄ ⦃files : Files P⦄ ⦃maps : Maps P⦄
    ⦃src : Sources P⦄ (unw : Unwind P C) (cs : Capstone) (bounds : Bounds)
    (listed table : List (Cmd P)) (d : Permᴰ (commands unw cs bounds listed) table) where
  -- With a process, "bs" and the name of a system call of the list for which the header has a 32-bit
  -- number other than -1, where the breakpoints and `g_syscalls` are in step and a `size_t` can count
  -- `g_syscalls`, whatever order the table has: the command returns with the message, the two are still
  -- in step, and `in_syscalls` finds the number.
  pub run_command-breaks :
      (name : Text) (n : ℕ) (s : Dbg P)
      → s.pid ≢ 0
      → num_of k.number name syscall_names ≡ some n
      → n < 2 ^ 32
      → n ≢ minus_one
      → length s.syscalls < 2 ^ 64 - 1
      → IsWatched s.breakpoints s.syscalls
      → (t : Dbg P) × (run_command table (codes "bs") (codes "bs" ∷ name ∷ []) s ≡ ok tt t)
        × IsWatched t.breakpoints t.syscalls
        × (in_syscalls n t ≡ ok true t)
        × (t.out ≡ s.out ++ Line.breakpoint_placed_on (found_name k.number n) n ∷ [])
  unfolding register_command commands place_commands
  run_command-breaks name n s traced found small ne fits w =
      let reached = commands-IsReached unw cs bounds listed table d in
      let words : List Text = codes "bs" ∷ name ∷ [] in
      let t : Dbg P = record (added n s) {
        out = s.out ++ Line.breakpoint_placed_on (found_name k.number n) n ∷ [];
      } in
      let there : (s.pid == 0 && true) ≡ false = ground arith in
      let runs =
        cmd_breaks_named (codes "bs") name n (enter s)
          (read_size_name name n (enter (enter s)) (omega arith) found) ne found in
      (
        t,
        run_command_found table (codes "bs") words (breaks_command unw cs bounds) s
              (reached.1.1.1.1.1.0.1 s)
            ∙ run_found-ok (breaks_command unw cs bounds) words s t there runs,
        IsWatched-append s.breakpoints s.syscalls _ n w
            (omega (arith, length-append s.syscalls (n ∷ []))) refl (to_int-sign_extend n small)
            refl,
        in_syscalls_lem n t ne ∙ rw (mem_syscalls_end n s.syscalls) refl,
        refl,
      )
