-- ===== src/Tests/Dumps.antt =====
-- Numbers, the tracee's memory, dumps, backtraces and the main loop.
use my_dbg.Base.{
  ℕ, zero, suc, ◌+◌, ◌≡◌, ◌≢◌, refl, true, false, List, [], ◌∷◌, ◌++◌, none, some, Text, codes,
  arith, ◌==◌, if◌then◌else◌,
}
use my_dbg.Debugger.{Dbg, ok, fault}
use my_dbg.Printing.{print_zu, print_p, digits}
use my_dbg.Format.{read_size}
use my_dbg.Format.RoundTrip.{read_size-print_zu}
use my_dbg.Memory.{Memory, read_mem_string}
use my_dbg.Memory.Strings.{read_mem_string-HasBytes}
use my_dbg.Capstone.{Capstone}
use my_dbg.Examine.{examine_memory, examine_string}
use my_dbg.Examine.Bounds.{examine_memory-≢fault}
use my_dbg.Examine.Dumps.{Mode, read_string, examine_string-read_string}
use my_dbg.Unwind.{Unwind, went, walk}
use my_dbg.Unwind.Depth.{Writes, walk-Writes}
use my_dbg.Base.{str_eq, starts_with}
use my_dbg.Debugger.Exceptions.{try_catch, new_env, delete_env, dispatch}
use my_dbg.Commands.{
  Cmd, run_command, run_found, get_command, exact_loop, is_called, prefix_loop, pick,
}
use my_dbg.Commands.Running.{cmd_quit}
use my_dbg.Prompt.{main_loop, run_tokens}
use my_dbg.Tests.Toy.{Toy, toy, start}

read_size-print_zu_example : read_size ⦃k = toy⦄ (print_zu 4096) start ≡ ok 4096 start
read_size-print_zu_example = read_size-print_zu ⦃k = toy⦄ 4096 start (omega arith)

printed : print_p 0x401136 ≡ codes "0x401136"
unfolding print_p digits
printed = refl

-- A memory that holds "hi" at 0x2000, and zeros elsewhere
abbrev byte_at : ℕ → ℕ
byte_at a = if a == 0x2000 then b'h' else if a == 0x2001 then b'i' else 0

abbrev bytes_from : (addr size : ℕ) → List ℕ
bytes_from addr zero = []
bytes_from addr (suc size) = byte_at addr ∷ bytes_from (addr + 1) size

abbrev pub toy_mem : Memory Toy
toy_mem = record {
  opens = λ pid p. true;
  allocates = λ size p. true;
  pread = λ pid addr size p. some (bytes_from addr size);
}

read_mem_string-HasBytes_example :
    read_mem_string ⦃mem = toy_mem⦄ 10 0x2000 start ≡ ok (some (codes "hi")) start
read_mem_string-HasBytes_example =
    read_mem_string-HasBytes ⦃mem = toy_mem⦄ start (codes "hi") 0x2000 10 refl (λ n. refl)
      (refl, (refl, tt)) (refl, (refl, (refl, tt))) (omega arith)

-- A disassembler that knows no instruction
abbrev pub no_insns : Capstone
no_insns = record { opens = true; disasm = λ code count. [] }

examine_memory-≢fault_example : examine_memory ⦃mem = toy_mem⦄ no_insns b'd' 0x2000 5 start ≢ fault
examine_memory-≢fault_example =
    examine_memory-≢fault ⦃mem = toy_mem⦄ no_insns b'd' 0x2000 5 start (omega arith)

examine_string-read_string_example :
    (t : Text) × (examine_string (codes "a\"\n" ++ 0 ∷ 0 ∷ []) 3 ≡ some t)
    × (read_string Mode.opening t ≡ codes "a\"\n")
examine_string-read_string_example =
    examine_string-read_string (codes "a\"\n") (0 ∷ 0 ∷ [])
      (omega arith, (omega arith, (omega arith, tt)))

-- A stack without end
abbrev pub endless : Unwind Toy ℕ
endless = record {
  has_space = true;
  creates_info = λ pid p. true;
  init_remote = λ pid p. went 0;
  step = λ c p. went (some (c + 1));
  get_ip = λ c p. went (0x401000 + c);
  proc_name = λ c p. (0, codes "f");
  inode = λ path p. none;
  exe_inode = λ pid p. none;
}

walk-Writes_example : Writes 65 start (walk endless [] start)
walk-Writes_example = walk-Writes endless [] start

abbrev quit_cmd : Cmd Toy
quit_cmd = record {
  name = codes "quit";
  program_required = false;
  description = codes "Quit";
  function = cmd_quit;
  usage = codes "quit";
  alias = none;
}

-- A line is one word.
abbrev pub one_word : Text → List Text
one_word t = t ∷ []

abbrev stopped : Dbg Toy
stopped = record start { quit = true }

quits : main_loop (quit_cmd ∷ []) one_word (codes "quit" ∷ []) start ≡ ok tt stopped
unfolding main_loop run_tokens run_command run_found get_command exact_loop is_called prefix_loop
    pick cmd_quit str_eq try_catch new_env delete_env dispatch starts_with
quits = refl
