-- ===== src/Commands.antt =====
-- src/commands.c: the table of commands, its lookup and the dispatcher. The linker lays the table
-- out from the records of `register_command`, in the order of the object files.
pub mod Stepping
pub mod Breaks
pub mod Running
pub mod Attach
pub mod Lookup
pub mod Run
use my_dbg.Base.{
  ℕ, ◌+◌, Bool, true, false, not, ◌&&◌, ◌||◌, List, [], ◌∷◌, Option, none, some, Text, ◌==◌, ltb,
  if◌then◌else◌, length, drop, str_eq, starts_with,
}
use my_dbg.Debugger.{MyException, Dbg, Line, Res, ok, exited, M, pure, get, print, ◌>>=◌, ◌>>◌}
use my_dbg.Debugger.Exceptions.{try_catch}

-- `struct my_cmd`; `program_required` is its `type`.
pub record Cmd (P : Type 0) : Type 0 where
  pub name : Text
  pub program_required : Bool
  pub description : Text
  pub function : ℕ → List Text → M P (Unit {0})
  pub usage : Text
  pub alias : Option Text

pub data Matched (P : Type 0) : Type 0 where
  ambiguous : Matched P
  matched : Option (Cmd P) → Matched P

abbrev pub esrch : ℕ
esrch = 3

module _ {P : Type 0} where
  -- The two `strcmp` tests of the first loop
  unfoldable pub is_called : Text → Cmd P → Bool
  is_called name cmd =
      str_eq name cmd.name || elim cmd.alias [ none ↦ false | some a ↦ str_eq name a ]

  unfoldable pub exact_loop : Text → List (Cmd P) → Option (Cmd P)
  unfolding is_called
  exact_loop name [] = none
  exact_loop name (cmd ∷ cmds) = if is_called name cmd then some cmd else exact_loop name cmds

  -- The second loop, with `cmd_matched`
  unfoldable pub prefix_loop : Text → Option (Cmd P) → List (Cmd P) → Matched P
  unfolding starts_with
  prefix_loop name found [] = matched found
  prefix_loop name none (cmd ∷ cmds) =
      prefix_loop name (if starts_with cmd.name name then some cmd else none) cmds
  prefix_loop name (some c) (cmd ∷ cmds) =
      if starts_with cmd.name name then ambiguous else prefix_loop name (some c) cmds

  -- What `get_command` does with the results of its loops; the second one runs only if the first
  -- finds nothing.
  unfoldable pub pick : Option (Cmd P) → Matched P → Text → M P (Option (Cmd P))
  pick (some cmd) m name = pure (some cmd)
  pick none ambiguous name = print (Line.ambiguous_command name) >> pure none
  pick none (matched (some cmd)) name = pure (some cmd)
  pick none (matched none) name = print (Line.command_not_found name) >> pure none

  unfoldable pub get_command : List (Cmd P) → Text → M P (Option (Cmd P))
  get_command cmds name = pick (exact_loop name cmds) (prefix_loop name none cmds) name

  -- src/errors.c: an `errno` of ESRCH while a process is traced ends the debugger.
  unfoldable pub ptrace_error : M P (Unit {0})
  ptrace_error = do
    s ← get
    if s.errno == esrch && not (s.pid == 0) then exited else print (Line.text "ptrace error")

  -- The other errors of src/errors.c
  abbrev wait_error : M P (Unit {0})
  wait_error = print (Line.text "wait error")

  abbrev sscanf_error : M P (Unit {0})
  sscanf_error = print (Line.text "sscanf error")

  abbrev printf_error : M P (Unit {0})
  printf_error = print (Line.text "printf error")

  abbrev io_error : M P (Unit {0})
  io_error = print (Line.text "IO error")

  abbrev memory_error : M P (Unit {0})
  memory_error = print (Line.text "Memory error")

  abbrev elf_error : M P (Unit {0})
  elf_error = print (Line.text "ELF error")

  abbrev disasm_error : M P (Unit {0})
  disasm_error = print (Line.text "Dissasemble failed")

  abbrev unwind_error : M P (Unit {0})
  unwind_error = print (Line.text "Unwind failed")

  abbrev dwarf_error : M P (Unit {0})
  dwarf_error = print (Line.text "DWARF error")

  -- The `catch` clauses of `run_command`. SyscallException has none.
  unfoldable pub report : Cmd P → MyException → M P (Unit {0})
  unfolding ptrace_error
  report cmd MyException.ptrace_exception = ptrace_error
  report cmd MyException.wait_exception = wait_error
  report cmd MyException.scanf_exception = sscanf_error
  report cmd MyException.printf_exception = printf_error
  report cmd MyException.io_exception = io_error
  report cmd MyException.memory_exception = memory_error
  report cmd MyException.elf_exception = elf_error
  report cmd MyException.disasm_exception = disasm_error
  report cmd MyException.unwind_exception = unwind_error
  report cmd MyException.dwarf_exception = dwarf_error
  report cmd MyException.exception = print (Line.command_failed cmd.name)
  report cmd MyException.syscall_exception = pure tt

  -- `run_command` once the command is found
  unfoldable pub run_found : Option (Cmd P) → List Text → M P (Unit {0})
  run_found none args = pure tt
  run_found (some cmd) args = do
    s ← get
    if s.pid == 0 && cmd.program_required
        then print (Line.text "This command requires a running program to be executed")
        else try_catch (cmd.function (length args) args) (report cmd)

  -- `tmp_free_all` frees memory of the debugger that the state does not hold.
  unfoldable pub run_command : List (Cmd P) → Text → List Text → M P (Unit {0})
  unfolding run_found
  run_command cmds name args = do found ← get_command cmds name; run_found found args

  abbrev pub print_help : Option (Cmd P) → M P (Unit {0})
  print_help none = pure tt
  print_help (some cmd) = print (Line.help_line cmd.usage cmd.description)

  unfoldable pub help_loop : List (Cmd P) → List Text → M P (Unit {0})
  unfolding get_command
  help_loop cmds [] = pure tt
  help_loop cmds (arg ∷ args) = do cmd ← get_command cmds arg; print_help cmd; help_loop cmds args

  unfoldable pub help_all : List (Cmd P) → M P (Unit {0})
  help_all [] = pure tt
  help_all (cmd ∷ cmds) = print_help (some cmd) >> help_all cmds

  unfoldable pub cmd_help : List (Cmd P) → ℕ → List Text → M P (Unit {0})
  unfolding help_loop help_all
  cmd_help cmds argc argv = if ltb 1 argc then help_loop cmds (drop 1 argv) else help_all cmds
