-- ===== src/Tests/Session.antt =====
-- The commands of the program and a session with them.
use mathlib.Core.List.Permᴰ as Permᴰ
use my_dbg.Base.{
  ◌+◌, ◌≡◌, refl, arith, high_bytes, true, false, List, [], ◌∷◌, none, some, str_eq, Text, codes,
  All,
}
use my_dbg.Debugger.{Request, done, ok, Line, Dbg}
use my_dbg.Printing.{print_p}
use my_dbg.Breakpoints.{no_flags}
use my_dbg.Builtins.Typed.{run_command-break, main_loop-quit_typed}
use my_dbg.Builtins.Watched.{run_command-breaks}
use my_dbg.Tests.Calls.{unwatched}
use my_dbg.SyscallTable.{syscall_names}
use my_dbg.Syscalls.{num_of, found_name, in_syscalls}
use my_dbg.Syscalls.Watched.{IsWatched}
use my_dbg.MemMappings.{Maps}
use my_dbg.Dwarf.Sources.{Sources}
use my_dbg.Commands.{Cmd, run_command}
use my_dbg.Prompt.{Launch, main, main_loop}
use my_dbg.Builtins.{Bounds, commands, setup_modules}
use my_dbg.Builtins.Names.{IsReached, commands-IsReached}
use my_dbg.Builtins.Start.{main-Settles}
use my_dbg.Session.Rules.{Settles}
use my_dbg.Breakpoints.Memory.{new_bp, Holds}
use my_dbg.Tests.Toy.{
  Toy, toy, toy_number, toy_ptrace, process, toy-HasMemory, start, plain_flags, code_word,
}
use my_dbg.Tests.Files.{object_files}
use my_dbg.Tests.Dumps.{toy_mem, no_insns, endless, one_word}

abbrev no_maps : Maps Toy
no_maps = record { lines = λ pid p. none; breaks = λ pid p. false; closes = λ pid p. true }

abbrev no_sources : Sources Toy
no_sources = record { exe_link = λ pid p. none; file_lines = λ path p. none }

abbrev bounds : Bounds
bounds = record { stops = 9; links = 3; rounds = 9; names = 9 }

abbrev toy_commands : List (Cmd Toy)
toy_commands =
    commands ⦃k = toy⦄ ⦃mem = toy_mem⦄ ⦃files = object_files⦄ ⦃maps = no_maps⦄ ⦃src = no_sources⦄
      endless no_insns bounds []

commands-IsReached_example : All (IsReached toy_commands) toy_commands
commands-IsReached_example =
    commands-IsReached ⦃k = toy⦄ ⦃mem = toy_mem⦄ ⦃files = object_files⦄ ⦃maps = no_maps⦄
      ⦃src = no_sources⦄ endless no_insns bounds [] toy_commands (Permᴰ.refl toy_commands)

-- A breakpoint is set already, and the tracee will report a SIGTRAP and then a stop at a system call.
abbrev one_breakpoint : Dbg Toy
one_breakpoint = record start {
  process = record process { stops = 0x057f ∷ 0x857f ∷ [] };
  breakpoints = new_bp 1 plain_flags 0x1000 code_word ∷ [];
}

abbrev typed : List Text
typed = codes "continue" ∷ codes "b" ∷ codes "break_list" ∷ codes "quit" ∷ []

-- Every program is started as process 42.
abbrev launch : Launch Toy
launch = record { fork = λ argv p. done (42, p) }

main-Settles_example : Settles one_breakpoint (
    main toy_commands one_word ⦃k = toy⦄ launch
      (setup_modules ⦃k = toy⦄ ⦃mem = toy_mem⦄ ⦃files = object_files⦄ ⦃maps = no_maps⦄
        ⦃src = no_sources⦄ endless no_insns bounds)
      (codes "my-dbg" ∷ codes "a.out" ∷ [])
      typed
      one_breakpoint)
main-Settles_example =
    main-Settles ⦃k = toy⦄ ⦃mem = toy_mem⦄ ⦃files = object_files⦄ ⦃maps = no_maps⦄
      ⦃src = no_sources⦄ endless no_insns bounds [] toy_commands one_word launch
      (codes "my-dbg" ∷ codes "a.out" ∷ []) typed one_breakpoint (Permᴰ.refl toy_commands)

readable : Holds toy start 0x1000 code_word
unfolding toy_ptrace
readable = refl

run_command-break_example :
    (p : Toy) × (run_command toy_commands (codes "b") (codes "b" ∷ print_p 0x1000 ∷ []) start
      ≡ ok tt (record start {
        process = p;
        breakpoints = new_bp 1 no_flags 0x1000 code_word ∷ [];
        out = Line.breakpoint_placed_at 1 0x1000 ∷ [];
      }))
    × (toy_ptrace Request.peek_data 42 0x1000 0 p ≡ done (high_bytes code_word + 0xcc, p))
run_command-break_example =
    run_command-break ⦃k = toy⦄ ⦃mem = toy_mem⦄ ⦃files = object_files⦄ ⦃maps = no_maps⦄
      ⦃src = no_sources⦄ endless no_insns bounds [] toy_commands (Permᴰ.refl toy_commands)
      toy-HasMemory start 0x1000 code_word (λ e. omega (arith, e)) (omega arith) readable

main_loop-quit_typed_example :
    main_loop toy_commands one_word (codes "quit" ∷ codes "help" ∷ []) start
    ≡ ok tt (record start { quit = true })
main_loop-quit_typed_example =
    main_loop-quit_typed ⦃k = toy⦄ ⦃mem = toy_mem⦄ ⦃files = object_files⦄ ⦃maps = no_maps⦄
      ⦃src = no_sources⦄ endless no_insns bounds [] toy_commands (Permᴰ.refl toy_commands) one_word
      (codes "quit") [] (codes "help" ∷ []) start refl refl

read_number : num_of toy_number (codes "read") syscall_names ≡ some 0
unfolding num_of toy_number str_eq syscall_names
read_number = refl

run_command-breaks_example :
    (t : Dbg Toy) × (run_command toy_commands (codes "bs") (codes "bs" ∷ codes "read" ∷ []) start
      ≡ ok tt t)
    × IsWatched t.breakpoints t.syscalls
    × (in_syscalls 0 t ≡ ok true t)
    × (t.out ≡ Line.breakpoint_placed_on (found_name toy_number 0) 0 ∷ [])
run_command-breaks_example =
    run_command-breaks ⦃k = toy⦄ ⦃mem = toy_mem⦄ ⦃files = object_files⦄ ⦃maps = no_maps⦄
      ⦃src = no_sources⦄ endless no_insns bounds [] toy_commands (Permᴰ.refl toy_commands)
      (codes "read") 0 start (λ e. omega (arith, e)) read_number (omega arith)
      (λ e. omega (arith, e)) (omega arith) unwatched
