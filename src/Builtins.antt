-- ===== src/Builtins.antt =====
-- The commands of the program: the records that `register_command` and `register_command_with_alias`
-- (include/commands.h) leave behind in src/commands.c and the files of src/commands/, and `setup_modules`
-- of src/my-dbg.c. The linker decides on their order.
pub mod Names
pub mod Safe
pub mod Loop
pub mod Typed
pub mod Start
pub mod Watched
use my_dbg.Base.{
  ℕ, ◌+◌, Bool, true, false, List, [], ◌∷◌, ◌++◌, Option, none, some, String, Text, codes,
}
use my_dbg.Debugger.{Kernel, M, pure}
use my_dbg.Memory.{Memory}
use my_dbg.Capstone.{Capstone}
use my_dbg.MemMappings.{Maps, cmd_info_memory}
use my_dbg.Unwind.{Unwind, init_libunwind}
use my_dbg.Elf.Tracee.{Files}
use my_dbg.Elf.Lookup.{get_address}
use my_dbg.GnuHash.Tracee.{get_address_gnu}
use my_dbg.Dwarf.Sources.{Sources, get_line_address, cmd_list}
use my_dbg.Examine.{cmd_examine}
use my_dbg.Commands.{Cmd, cmd_help}
use my_dbg.Commands.Running.{cmd_quit, cmd_continue, cmd_step_instr, cmd_info_regs}
use my_dbg.Commands.Breaks.{cmd_break, cmd_tbreak, cmd_breaks, cmd_break_list, cmd_break_del}
use my_dbg.Commands.Stepping.{
  cmd_breakf, cmd_breakl, cmd_next_instr, cmd_finish, cmd_disassemble, cmd_backtrace,
}
use my_dbg.Commands.Attach.{cmd_attach}

-- `NO_PROGRAM_REQUIRED` and `PROGRAM_REQUIRED`
abbrev program_required : Bool
program_required = true

abbrev no_program_required : Bool
no_program_required = false

-- How long a run of the tracee, a list of libraries, a chain of symbols and a name may be
pub record Bounds : Type 0 where
  pub stops : ℕ
  pub links : ℕ
  pub rounds : ℕ
  pub names : ℕ

module _ {P : Type 0} where
  unfoldable pub register_command_with_alias :
      String
      → Bool
      → (ℕ → List Text → M P (Unit {0}))
      → (description usage : String) → Option Text
      → Cmd P
  register_command_with_alias name type function description usage alias = record {
    name = codes name;
    program_required = type;
    description = codes description;
    function = function;
    usage = codes usage;
    alias = alias;
  }

  unfoldable pub register_command :
      String → Bool → (ℕ → List Text → M P (Unit {0})) → (description usage : String) → Cmd P
  unfolding register_command_with_alias
  register_command name type function description usage =
      register_command_with_alias name type function description usage none

  unfoldable pub help_command : (help : ℕ → List Text → M P (Unit {0})) → Cmd P
  help_command help =
      register_command "help" no_program_required help
        "Display this help message, or specified commands help" "help [command ...]"

module _ {P C : Type 0} ⦃k : Kernel P⦄ ⦃mem : Memory P⦄ ⦃files : Files P⦄ ⦃maps : Maps P⦄
    ⦃src : Sources P⦄ (unw : Unwind P C) (cs : Capstone) (bounds : Bounds) where
  unfoldable pub setup_modules : M P (Unit {0})
  unfolding init_libunwind
  setup_modules = init_libunwind unw

  -- `get_address` of src/infos/my_elf.c with the search of src/infos/gnu_hash_table.c
  unfoldable pub function_address : Text → M P ℕ
  unfolding get_address get_address_gnu
  function_address =
      get_address (get_address_gnu bounds.rounds bounds.names) bounds.links bounds.names

  abbrev break_command : Cmd P
  break_command =
      register_command_with_alias "break" program_required cmd_break
        "Set a breakpoint at specified addresses" "break <address>" (some (codes "b"))

  abbrev tbreak_command : Cmd P
  tbreak_command =
      register_command "tbreak" program_required cmd_tbreak
        "Set a temporary breakpoint at specified addresses" "tbreak <address>"

  abbrev breakf_command : Cmd P
  breakf_command =
      register_command_with_alias "breakf" program_required (λ argc. cmd_breakf function_address)
        "Set a breakpoint at specified function" "breakf <function>" (some (codes "bf"))

  abbrev breakl_command : Cmd P
  breakl_command =
      register_command_with_alias "breakl" program_required (λ argc. cmd_breakl get_line_address)
        "Ends current function" "breakl" (some (codes "bl"))

  abbrev breaks_command : Cmd P
  breaks_command =
      register_command_with_alias "breaks" program_required cmd_breaks
        "Set a breakpoint on specified syscall" "breaks <syscall | syscall number>"
        (some (codes "bs"))

  abbrev break_list_command : Cmd P
  break_list_command =
      register_command "break_list" program_required cmd_break_list "List breakpoints" "break_list"

  abbrev break_del_command : Cmd P
  break_del_command =
      register_command "break_del" program_required cmd_break_del "Delete a breakpoint"
        "break_del <ID>"

  -- The commands that place breakpoints
  unfoldable pub place_commands : List (Cmd P)
  place_commands =
      break_command ∷ tbreak_command ∷ breakf_command ∷ breakl_command ∷ breaks_command
      ∷ break_list_command ∷ break_del_command ∷ []

  abbrev attach_command : Cmd P
  attach_command =
      register_command "attach" no_program_required (cmd_attach setup_modules)
        "Attach process identified by the given process ID" "attach <pid>"

  abbrev continue_command : Cmd P
  continue_command =
      register_command "continue" program_required (cmd_continue bounds.stops)
        "Continue program execution" "continue"

  abbrev step_instr_command : Cmd P
  step_instr_command =
      register_command "step_instr" program_required (cmd_step_instr bounds.stops)
        "Step one instruction exactly" "step_instr"

  abbrev next_instr_command : Cmd P
  next_instr_command =
      register_command "next_instr" program_required (λ argc. cmd_next_instr bounds.stops cs)
        "Step one instruction, but proceed through calls" "next_instr"

  abbrev finish_command : Cmd P
  finish_command =
      register_command "finish" program_required (λ argc. cmd_finish bounds.stops unw cs)
        "Ends current function" "finish"

  abbrev quit_command : Cmd P
  quit_command = register_command "quit" no_program_required cmd_quit "Exit my-dbg" "quit"

  -- Those that run the tracee, attach one or quit
  unfoldable pub run_commands : List (Cmd P)
  run_commands =
      attach_command ∷ continue_command ∷ step_instr_command ∷ next_instr_command ∷ finish_command
      ∷ quit_command ∷ []

  abbrev backtrace_command : Cmd P
  backtrace_command =
      register_command_with_alias "backtrace" program_required (λ argc. cmd_backtrace unw)
        "Print backtrace" "backtrace" (some (codes "bt"))

  abbrev disassemble_command : Cmd P
  disassemble_command =
      register_command "disassemble" program_required (λ argc. cmd_disassemble cs)
        "Disassemble N instructions at specified address" "disassemble <address> <N>"

  abbrev examine_command : Cmd P
  examine_command =
      register_command "examine" program_required (λ argc. cmd_examine cs)
        "Examine memory at given address" "examine <format> <size> <start_addr>"

  abbrev info_memory_command : Cmd P
  info_memory_command =
      register_command "info_memory" program_required (λ argc argv. cmd_info_memory)
        "Display mapped memory regions" "info_memory"

  abbrev info_regs_command : Cmd P
  info_regs_command =
      register_command "info_regs" program_required cmd_info_regs "Display registers" "info_regs"

  abbrev list_command : Cmd P
  list_command =
      register_command "list" program_required (λ argc. cmd_list) "Print current source code line"
        "list"

  -- Those that show something of the tracee
  unfoldable pub info_commands : List (Cmd P)
  info_commands =
      backtrace_command ∷ disassemble_command ∷ examine_command ∷ info_memory_command
      ∷ info_regs_command ∷ list_command ∷ []

  -- All of them; `help` goes through a table that it is given.
  unfoldable pub commands : (listed : List (Cmd P)) → List (Cmd P)
  unfolding place_commands run_commands info_commands help_command cmd_help
  commands listed =
      help_command (cmd_help listed) ∷ (place_commands ++ (run_commands ++ info_commands))
