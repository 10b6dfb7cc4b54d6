-- ===== src/Builtins/Typed.antt =====
-- What some typed commands do, from the table of the program to the tracee.
use mathlib.Core.List.{Permᴰ}
use my_dbg.Base.{
  ℕ, ◌+◌, ◌^◌, ◌<◌, ◌≡◌, ◌≢◌, refl, ◌∙◌, true, false, ◌==◌, ◌&&◌, List, [], ◌∷◌, ◌++◌, some, Text,
  codes, arith, length, high_bytes,
}
use my_dbg.Debugger.{Kernel, done, Request, Dbg, Line, ok}
use my_dbg.Debugger.Laws.{HasMemory}
use my_dbg.Debugger.Exceptions.Tries.{enter, try_returns}
use my_dbg.Memory.{Memory}
use my_dbg.Capstone.{Capstone}
use my_dbg.MemMappings.{Maps}
use my_dbg.Unwind.{Unwind}
use my_dbg.Elf.Tracee.{Files}
use my_dbg.Dwarf.Sources.{Sources}
use my_dbg.Printing.{print_p}
use my_dbg.Format.RoundTrip.{read_address-print_p}
use my_dbg.Breakpoints.{no_flags}
use my_dbg.Breakpoints.Memory.{Holds, new_bp, place_breakpoint-Holds}
use my_dbg.Commands.{Cmd, report, get_command, run_found, run_command}
use my_dbg.Commands.Running.{cmd_quit}
use my_dbg.Commands.Breaks.{cmd_break}
use my_dbg.Prompt.{run_tokens, main_loop}
use my_dbg.Prompt.Quit.{main_loop-quit_set, main_loop_step}
use my_dbg.Builtins.{
  Bounds, commands, break_command, quit_command, place_commands, run_commands, register_command,
  register_command_with_alias,
}
use my_dbg.Builtins.Names.{commands-IsReached}

module _ {P : Type 0} where
  pub run_command_found :
      (table : List (Cmd P)) (name : Text) (args : List Text) (c : Cmd P) (s : Dbg P)
      → get_command table name s ≡ ok (some c) s
      → run_command table name args s ≡ run_found (some c) args s
  unfolding run_command
  run_command_found table name args c s e = rw e refl

  -- A command that returns, with a jump buffer of its own
  pub run_found-ok :
      (c : Cmd P) (args : List Text) (s t : Dbg P)
      → (s.pid == 0 && c.program_required) ≡ false
      → c.function (length args) args (enter s) ≡ ok tt (enter t)
      → run_found (some c) args s ≡ ok tt t
  unfolding run_found
  run_found-ok c args s t runs e =
      rw runs (try_returns (c.function (length args) args) (report c) s t tt e)

  cmd_break_lem :
      ⦃k : Kernel P⦄
      → (law : HasMemory k) (s : Dbg P) (addr w : ℕ) → addr < 2 ^ 64
      → Holds k s addr w
      → (p : P) × (cmd_break 2 (codes "b" ∷ print_p addr ∷ []) s
          ≡ ok tt (record s {
            process = p;
            breakpoints = s.breakpoints ++ new_bp (length s.breakpoints + 1) no_flags addr w ∷ [];
            out = s.out ++ Line.breakpoint_placed_at (length s.breakpoints + 1) addr ∷ [];
          }))
        × (k.ptrace Request.peek_data s.pid addr 0 p ≡ done (high_bytes w + 0xcc, p))
  unfolding cmd_break
  cmd_break_lem law s addr w small e =
      let (p, placed, trap) = place_breakpoint-Holds law s addr w no_flags refl e in
      (p, rw (read_address-print_p addr s small, placed) refl, trap)

module _ {P C : Type 0} ⦃k : Kernel P⦄ ⦃mem : Memory P⦄ ⦃files : Files P⦄ ⦃maps : Maps P⦄
    ⦃src : Sources P⦄ (unw : Unwind P C) (cs : Capstone) (bounds : Bounds)
    (listed table : List (Cmd P)) (d : Permᴰ (commands unw cs bounds listed) table) where
  -- With a process, "b" and an address at which the tracee can be read, as "%p" prints it, sets a
  -- breakpoint there, whatever order the table has: the byte 0xCC is at the address and the other seven
  -- of the word are as before, the new breakpoint has the next number, and the message tells it.
  pub run_command-break :
      (law : HasMemory k) (s : Dbg P) (addr w : ℕ)
      → s.pid ≢ 0
      → addr < 2 ^ 64
      → Holds k s addr w
      → (p : P) × (run_command table (codes "b") (codes "b" ∷ print_p addr ∷ []) s
          ≡ ok tt (record s {
            process = p;
            breakpoints = s.breakpoints ++ new_bp (length s.breakpoints + 1) no_flags addr w ∷ [];
            out = s.out ++ Line.breakpoint_placed_at (length s.breakpoints + 1) addr ∷ [];
          }))
        × (k.ptrace Request.peek_data s.pid addr 0 p ≡ done (high_bytes w + 0xcc, p))
  unfolding register_command_with_alias commands place_commands
  run_command-break law s addr w traced small e =
      let reached = commands-IsReached unw cs bounds listed table d in
      let (p, runs, trap) = cmd_break_lem law (enter s) addr w small e in
      let there : (s.pid == 0 && true) ≡ false = ground arith in
      (
        p,
        run_command_found table (codes "b") (codes "b" ∷ print_p addr ∷ [])
              (break_command unw cs bounds) s (reached.1.0.1 s)
            ∙ run_found-ok (break_command unw cs bounds) (codes "b" ∷ print_p addr ∷ []) s _ there
                runs,
        trap,
      )

  -- A line that begins with the word "quit" ends the main loop with nothing else done, whatever order
  -- the table has and whatever lines follow, unless the loop has ended before it.
  pub main_loop-quit_typed :
      (history_tokenize : Text → List Text) (line : Text) (args inputs : List Text) (s : Dbg P)
      → s.quit ≡ false
      → history_tokenize line ≡ codes "quit" ∷ args
      → main_loop table history_tokenize (line ∷ inputs) s ≡ ok tt (record s { quit = true })
  unfolding register_command commands place_commands run_commands run_tokens cmd_quit
  main_loop-quit_typed history_tokenize line args inputs s going words =
      let t : Dbg P = record s { quit = true } in
      let reached = commands-IsReached unw cs bounds listed table d in
      let free : (s.pid == 0 && false) ≡ false = ground arith in
      let runs : run_tokens table history_tokenize (codes "quit" ∷ args) s ≡ ok tt t =
        run_command_found table (codes "quit") (codes "quit" ∷ args) (quit_command unw cs bounds) s
          (reached.1.1.1.1.1.1.1.1.1.1.1.1.1.0.0 s)
        ∙ run_found-ok (quit_command unw cs bounds) (codes "quit" ∷ args) s t free refl in
      main_loop_step table history_tokenize line inputs s going
      ∙ rw (words, runs) (main_loop-quit_set table history_tokenize inputs t refl)
