-- ===== src/Registers.antt =====
-- src/registers.c, with the enumeration of include/registers.h.
pub mod Access
use my_dbg.Base.{ℕ, List, [], ◌∷◌, Option, none, some, Text, codes, str_eq, if◌then◌else◌}
use my_dbg.Debugger.{MyException, Regs, Kernel, Line, M, pure, print, ◌>>=◌, ◌>>◌}
use my_dbg.Debugger.Exceptions.{throw}
use my_dbg.Debugger.Tracee.{my_ptrace_getregs, my_ptrace_setregs}

-- `enum my_reg`
pub data Reg : Type 0 where
  reg_rip reg_rsp reg_rbp reg_eflags reg_orig_rax reg_rax reg_rbx reg_rcx reg_rdx : Reg
  reg_rdi reg_rsi reg_r8 reg_r9 reg_r10 reg_r11 reg_r12 reg_r13 reg_r14 : Reg
  reg_r15 reg_cs reg_ds reg_es reg_fs reg_gs reg_ss reg_fs_base reg_gs_base : Reg

-- `get_register_internal` for reading: the field that the returned pointer points to.
unfoldable pub get_register_internal : Regs → Reg → ℕ
get_register_internal regs reg_rip = regs.rip
get_register_internal regs reg_rsp = regs.rsp
get_register_internal regs reg_rbp = regs.rbp
get_register_internal regs reg_eflags = regs.eflags
get_register_internal regs reg_orig_rax = regs.orig_rax
get_register_internal regs reg_rax = regs.rax
get_register_internal regs reg_rbx = regs.rbx
get_register_internal regs reg_rcx = regs.rcx
get_register_internal regs reg_rdx = regs.rdx
get_register_internal regs reg_rdi = regs.rdi
get_register_internal regs reg_rsi = regs.rsi
get_register_internal regs reg_r8 = regs.r8
get_register_internal regs reg_r9 = regs.r9
get_register_internal regs reg_r10 = regs.r10
get_register_internal regs reg_r11 = regs.r11
get_register_internal regs reg_r12 = regs.r12
get_register_internal regs reg_r13 = regs.r13
get_register_internal regs reg_r14 = regs.r14
get_register_internal regs reg_r15 = regs.r15
get_register_internal regs reg_cs = regs.cs
get_register_internal regs reg_ds = regs.ds
get_register_internal regs reg_es = regs.es
get_register_internal regs reg_fs = regs.fs
get_register_internal regs reg_gs = regs.gs
get_register_internal regs reg_ss = regs.ss
get_register_internal regs reg_fs_base = regs.fs_base
get_register_internal regs reg_gs_base = regs.gs_base

-- A write through the pointer that `get_register_internal` returns
unfoldable pub set_register_internal : Regs → Reg → ℕ → Regs
set_register_internal regs reg_rip value = record regs { rip = value }
set_register_internal regs reg_rsp value = record regs { rsp = value }
set_register_internal regs reg_rbp value = record regs { rbp = value }
set_register_internal regs reg_eflags value = record regs { eflags = value }
set_register_internal regs reg_orig_rax value = record regs { orig_rax = value }
set_register_internal regs reg_rax value = record regs { rax = value }
set_register_internal regs reg_rbx value = record regs { rbx = value }
set_register_internal regs reg_rcx value = record regs { rcx = value }
set_register_internal regs reg_rdx value = record regs { rdx = value }
set_register_internal regs reg_rdi value = record regs { rdi = value }
set_register_internal regs reg_rsi value = record regs { rsi = value }
set_register_internal regs reg_r8 value = record regs { r8 = value }
set_register_internal regs reg_r9 value = record regs { r9 = value }
set_register_internal regs reg_r10 value = record regs { r10 = value }
set_register_internal regs reg_r11 value = record regs { r11 = value }
set_register_internal regs reg_r12 value = record regs { r12 = value }
set_register_internal regs reg_r13 value = record regs { r13 = value }
set_register_internal regs reg_r14 value = record regs { r14 = value }
set_register_internal regs reg_r15 value = record regs { r15 = value }
set_register_internal regs reg_cs value = record regs { cs = value }
set_register_internal regs reg_ds value = record regs { ds = value }
set_register_internal regs reg_es value = record regs { es = value }
set_register_internal regs reg_fs value = record regs { fs = value }
set_register_internal regs reg_gs value = record regs { gs = value }
set_register_internal regs reg_ss value = record regs { ss = value }
set_register_internal regs reg_fs_base value = record regs { fs_base = value }
set_register_internal regs reg_gs_base value = record regs { gs_base = value }

-- The spelling of a register in `CASES_REG`
unfoldable pub reg_name : Reg → Text
reg_name reg_rip = codes "rip"
reg_name reg_rsp = codes "rsp"
reg_name reg_rbp = codes "rbp"
reg_name reg_eflags = codes "eflags"
reg_name reg_orig_rax = codes "orig_rax"
reg_name reg_rax = codes "rax"
reg_name reg_rbx = codes "rbx"
reg_name reg_rcx = codes "rcx"
reg_name reg_rdx = codes "rdx"
reg_name reg_rdi = codes "rdi"
reg_name reg_rsi = codes "rsi"
reg_name reg_r8 = codes "r8"
reg_name reg_r9 = codes "r9"
reg_name reg_r10 = codes "r10"
reg_name reg_r11 = codes "r11"
reg_name reg_r12 = codes "r12"
reg_name reg_r13 = codes "r13"
reg_name reg_r14 = codes "r14"
reg_name reg_r15 = codes "r15"
reg_name reg_cs = codes "cs"
reg_name reg_ds = codes "ds"
reg_name reg_es = codes "es"
reg_name reg_fs = codes "fs"
reg_name reg_gs = codes "gs"
reg_name reg_ss = codes "ss"
reg_name reg_fs_base = codes "fs_base"
reg_name reg_gs_base = codes "gs_base"

-- The order of `CASES_REG`
abbrev pub all_regs : List Reg
all_regs =
    reg_rip ∷ reg_rsp ∷ reg_rbp ∷ reg_eflags ∷ reg_orig_rax ∷ reg_rax ∷ reg_rbx ∷ reg_rcx ∷ reg_rdx
    ∷ reg_rdi ∷ reg_rsi ∷ reg_r8 ∷ reg_r9 ∷ reg_r10 ∷ reg_r11 ∷ reg_r12 ∷ reg_r13 ∷ reg_r14
    ∷ reg_r15 ∷ reg_cs ∷ reg_ds ∷ reg_es ∷ reg_fs ∷ reg_gs ∷ reg_ss ∷ reg_fs_base ∷ reg_gs_base ∷ []

-- The chain of `strcmp` tests that `CASES_REG` expands to
unfoldable pub find_reg : Text → List Reg → Option Reg
find_reg name [] = none
find_reg name (r ∷ rs) = if str_eq name (reg_name r) then some r else find_reg name rs

module _ {P : Type 0} ⦃k : Kernel P⦄ where
  unfoldable pub get_registers : M P Regs
  get_registers = my_ptrace_getregs

  unfoldable pub get_register : Reg → M P ℕ
  unfolding get_registers
  get_register reg = do regs ← get_registers; pure (get_register_internal regs reg)

  unfoldable pub set_register : Reg → ℕ → M P (Unit {0})
  unfolding get_registers
  set_register reg value = do
    regs ← get_registers
    my_ptrace_setregs (set_register_internal regs reg value)

  unfoldable pub get_register_from_name : Text → M P ℕ
  unfolding find_reg
  get_register_from_name name = elim (find_reg name all_regs) [
    | some r ↦ get_register r
    | none ↦ print (Line.unknown_register name) >> throw MyException.exception
  ]
