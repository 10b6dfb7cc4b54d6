-- ===== src/Lib.antt =====
-- my-dbg, a debugger for Linux on x86-64: it runs a program under ptrace, sets breakpoints on code
-- and on system calls, steps, and shows registers, memory and source lines.
--
-- The program reads a command, looks it up in a table that the linker collects (src/commands.c) and
-- runs it inside a `try`. Commands place, list and delete breakpoints (src/breakpoints.c and
-- src/syscalls.c) or resume the tracee (src/binary.c), which inspects each stop with the registers
-- (src/registers.c). Exceptions are `longjmp`s to a stack of jump buffers (src/utils/exceptions.c).
-- Source lines come from the line number program of DWARF (src/infos).
--
-- Which file models what:
--   Base                  lists, texts, machine words and Boolean tests
--   Debugger.State        the data types of the headers and the globals, as the record `Dbg`; the
--                         operating system as the parameter `Kernel`
--   Debugger.Monad        an operation is a function from `Dbg` to a result `Res`: a return, an
--                         exception, an exit of the debugger, or an access that C leaves undefined
--   Debugger.Exceptions   src/utils/exceptions.c and include/utils/exceptions.h
--   Debugger.Tracee       src/wrappers/my_syscalls.c
--   Debugger.Laws         what is relied on of ptrace and waitpid, as records of hypotheses
--   Registers             src/registers.c
--   Breakpoints           src/breakpoints.c
--   SyscallTable          the names of include/syscalls_list.h
--   Syscalls              src/syscalls.c
--   Control               src/binary.c
--   Format                src/utils/format_utils.c
--   Printing              the numbers that `printf` writes
--   Memory                src/memory.c; the file /proc/<pid>/mem as the parameter `Memory`
--   TempMemory            src/utils/temp_memory_utils.c and memory_utils.c, on a store of live blocks
--                         of its own; the allocator as the parameter `Allocator`
--   Capstone              src/wrappers/capstone_wrapper.c; the library as the parameter `Capstone`
--   Examine               src/commands/cmd_examine.c and `in_array` of src/utils/array_utils.c
--   Elf                   src/infos/my_elf.c, on the bytes of the executable; Elf.Tracee what it
--                         reads in the tracee, and Elf.Lookup `get_address`; the files of the
--                         process as the parameter `Files`
--   MemMappings           src/mem_mappings.c and src/commands/cmd_info_memory.c; the lines of
--                         /proc/<pid>/maps as the parameter `Maps`
--   Unwind                src/wrappers/libunwind_wrapper.c; the library as the parameter `Unwind`
--   Prompt                src/my-dbg.c, src/prompt.c and `setup_binary` of src/binary.c
--   Commands              src/commands.c and src/errors.c, for any table of commands
--   Commands.Breaks       src/commands/cmd_break.c, cmd_tbreak.c, cmd_break_del.c, cmd_breaks.c and
--                         cmd_break_list.c
--   Commands.Attach       src/commands/cmd_attach.c
--   Commands.Stepping     src/commands/cmd_next_instr.c, cmd_finish.c, cmd_breakf.c, cmd_breakl.c,
--                         cmd_disassemble.c and cmd_backtrace.c
--   Commands.Running      src/commands/cmd_quit.c, cmd_continue.c, cmd_step_instr.c, cmd_info_regs.c
--   Dwarf                 src/infos/my_dwarf.c and src/infos/dwarf_state_machine.c
--   Dwarf.Tables          the header, the directories and the files of a line table
--   Dwarf.Sources         `print_line` and `get_line_address`, src/utils/file_utils.c and
--                         src/commands/cmd_list.c; the file system as the parameter `Sources`
--   GnuHash               src/infos/gnu_hash_table.c on the tables that it reads
--   GnuHash.Tracee        the same on the tracee's memory, from the dynamic section on
--   Builtins              the records of `register_command` in src/commands.c and src/commands/, and
--                         `setup_modules` of src/my-dbg.c
--   Session               the rules by which the theorem on a run of `main` is put together: that each
--                         operation of the commands keeps what a session is to keep
--   Tests                 a small process as a `Kernel`, runs of the model on it, and instances of
--                         the theorems
-- The functions keep their names. A pointer to a breakpoint is an index into the list of
-- breakpoints, a pointer into the mapped file is the list of the bytes from there on, and an `int`
-- or a `size_t` is its bit pattern with the wrap-around written out. A module below a component
-- holds theorems about it.
--
-- Fuel. `continue_execution` calls itself through `wait_program`, once for each stop at a system
-- call that is not reported; one round more than such stops is enough. The loop of `run_machine` has
-- a round for each byte of the program, since every instruction takes one. `get_dynamic_entry` has a
-- round for each entry, `read_mem_string` one for each character and one for the end, and the loop
-- over the libraries one for each, and the search of a hash table one for each symbol; that these end is up to the tracee's memory. The loops over the
-- auxiliary vector and over the directories and files of a line table take a byte or more in each
-- round, and their fuel is the number of bytes. All other loops are structural.
--
-- Builtins.Bounds collects these: how many stops, libraries, symbols of a chain and characters of a name.
--
-- Not modelled: the forked child before it becomes the program, `destroy_libunwind`, which only lets
-- libunwind free its own data, and the libraries, which are not part of the repository. Outside TempMemory, Memory and
-- `open_elf` allocation succeeds, and the list of temporary memory is not part of the state of the
-- other modules. The text of a message is its format with the arguments.
pub mod Base
pub mod Debugger
pub mod Registers
pub mod Breakpoints
pub mod Syscalls
pub mod SyscallTable
pub mod Control
pub mod Format
pub mod Commands
pub mod Dwarf
pub mod GnuHash
pub mod Memory
pub mod Capstone
pub mod TempMemory
pub mod Elf
pub mod MemMappings
pub mod Unwind
pub mod Prompt
pub mod Builtins
pub mod Session
pub mod Examine
pub mod Printing
pub mod Tests
