-- ===== src/Debugger/State.antt =====
-- Data of include/utils/exceptions.h, include/registers.h, include/breakpoints.h, and the globals
-- of src/binary.c, src/breakpoints.c, src/syscalls.c, src/my-dbg.c and src/utils/exceptions.c.
use my_dbg.Base.{◌≡◌, refl, ◌⊎◌, inl, inr, ℕ, Bool, Option, List, String, Text}

-- `enum my_exception`; `None`, the value 0 of a plain return from `setjmp`, is not thrown.
pub data MyException : Type 0 where
  exception ptrace_exception wait_exception scanf_exception printf_exception : MyException
  io_exception memory_exception elf_exception syscall_exception disasm_exception : MyException
  unwind_exception dwarf_exception : MyException

-- `struct user_regs_struct`, in the order of `enum my_reg`
pub record Regs : Type 0 where
  pub rip : ℕ
  pub rsp : ℕ
  pub rbp : ℕ
  pub eflags : ℕ
  pub orig_rax : ℕ
  pub rax : ℕ
  pub rbx : ℕ
  pub rcx : ℕ
  pub rdx : ℕ
  pub rdi : ℕ
  pub rsi : ℕ
  pub r8 : ℕ
  pub r9 : ℕ
  pub r10 : ℕ
  pub r11 : ℕ
  pub r12 : ℕ
  pub r13 : ℕ
  pub r14 : ℕ
  pub r15 : ℕ
  pub cs : ℕ
  pub ds : ℕ
  pub es : ℕ
  pub fs : ℕ
  pub gs : ℕ
  pub ss : ℕ
  pub fs_base : ℕ
  pub gs_base : ℕ

-- The values of the enumeration
unfoldable pub ex_code : MyException → ℕ
ex_code MyException.exception = 1
ex_code MyException.ptrace_exception = 2
ex_code MyException.wait_exception = 3
ex_code MyException.scanf_exception = 4
ex_code MyException.printf_exception = 5
ex_code MyException.io_exception = 6
ex_code MyException.memory_exception = 7
ex_code MyException.elf_exception = 8
ex_code MyException.syscall_exception = 9
ex_code MyException.disasm_exception = 10
ex_code MyException.unwind_exception = 11
ex_code MyException.dwarf_exception = 12

-- The ptrace requests that carry no structure; `other` is a request by its number.
pub data Request : Type 0 where
  peek_data poke_data single_step cont syscall attach : Request
  other : ℕ → Request

-- The result of a system call: a value, or the `errno` of a failure
pub data Reply (A : Type 0) : Type 0 where
  done : A → Reply A
  failed : ℕ → Reply A

-- What the program asks of the operating system about the process `pid`. `P` is the state of the
-- processes, and `number` the header's `SYS_` constant.
pub record Kernel (P : Type 0) : Type 0 where
  pub ptrace : Request → (pid addr word : ℕ) → P → Reply (ℕ × P)
  pub get_regs : (pid : ℕ) → P → Reply Regs
  pub set_regs : (pid : ℕ) → Regs → P → Reply P
  pub wait : (pid : ℕ) → P → Reply (ℕ × P)
  pub number : Text → ℕ

-- `enum my_bp_flags`, bit by bit
pub record Flags : Type 0 where
  pub temp : Bool
  pub internal : Bool
  pub syscall : Bool

-- `struct my_bp`
pub record Bp : Type 0 where
  pub id : ℕ
  pub flags : Flags
  pub addr : ℕ
  pub word : ℕ
  pub enabled : Bool
  pub deleted : Bool

-- A call of `printf`, `warn` or `warnx`, by its format; `written` is what several calls write.
pub data Line : Type 0 where
  breakpoint_at : (id addr : ℕ) → Line
  breakpoint_placed_at : (id addr : ℕ) → Line
  breakpoint_placed_on : Option Text → ℕ → Line
  breakpoint_deleted : ℕ → Line
  breakpoint_already_deleted : ℕ → Line
  ambiguous_command : Text → Line
  command_not_found : Text → Line
  command_failed : Text → Line
  breakpoint_row :
      (id : ℕ) → (is_syscall is_temp is_enabled : Bool) → (what : ℕ) → Option Text → Line
  syscall_catched : Option Text → ℕ → Line
  interrupted : (pid signum : ℕ) → Line
  exited_with : (pid code : ℕ) → Line
  terminated_by : (pid signum : ℕ) → Line
  stepped_to : (over : Bool) → ℕ → Line
  help_line : (usage description : Text) → Line
  unknown_syscall_name : Text → Line
  unknown_register : Text → Line
  register_value : (name : Text) → ℕ → Line
  written : Text → Line
  instruction : (addr : ℕ) → (mnemonic op_str : Text) → Line
  mapping_row : (start end size offset : ℕ) → (objfile : Text) → Line
  frame : (count ip : ℕ) → (name : Option Text) → (cut : Bool) → (path : Option Text) → Line
  continued_to : ℕ → Line
  placed_at : ℕ → Line
  text : String → Line

-- The globals. `g_bp_len` and `g_syscalls_nb` are the lengths of the two lists, and `g_syscalls`
-- is NULL when its list is empty. `envs` is the length of the list of jump buffers;
-- `errno` is that of the last call that failed.
pub record Dbg (P : Type 0) : Type 0 where
  pub process : P
  pub pid : ℕ
  pub quit : Bool
  pub breakpoints : List Bp
  pub syscalls : List ℕ
  pub signum : ℕ
  pub syscall_entry : Bool
  pub envs : ℕ
  pub errno : ℕ
  pub out : List Line

pub Reply-cases : {A : Type 0} (r : Reply A) → ((a : A) × (r ≡ done a)) ⊎ ((e : ℕ) × (r ≡ failed e))
Reply-cases (done a) = inl (a, refl)
Reply-cases (failed e) = inr (e, refl)
