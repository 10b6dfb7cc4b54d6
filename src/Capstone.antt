-- ===== src/Capstone.antt =====
-- src/wrappers/capstone_wrapper.c. The disassembler is the parameter `Capstone`.
use my_dbg.Base.{ℕ, zero, suc, ◌+◌, ◌%◌, ◌^◌, Bool, List, [], ◌∷◌, ◌++◌, Text, if◌then◌else◌}
use my_dbg.Debugger.{MyException, Kernel, Line, M, pure, print, ◌>>=◌, ◌>>◌}
use my_dbg.Debugger.Exceptions.{throw}
use my_dbg.Registers.{Reg, get_register}
use my_dbg.Memory.{Memory, read_memory}

-- `cs_insn`
pub record CsInsn : Type 0 where
  pub address : ℕ
  pub size : ℕ
  pub mnemonic : Text
  pub op_str : Text

-- What the program calls of capstone: whether `cs_open` succeeds, and the instructions that
-- `cs_disasm` finds in some code that starts at address 0; at most `count`, or any number where
-- `count` is 0.
pub record Capstone : Type 0 where
  pub opens : Bool
  pub disasm : (code : List ℕ) → (count : ℕ) → List CsInsn

-- `struct my_instr`
pub record MyInstr : Type 0 where
  pub size : ℕ
  pub str : Text

module _ {P : Type 0} ⦃mem : Memory P⦄ where
  -- The inner loop of `print_instructions`: `left` is 16 - `size`. What it returns is the address
  -- behind the instruction.
  unfoldable pub grow_loop : Capstone → (left addr size : ℕ) → M P ℕ
  unfolding throw
  grow_loop cs zero addr size = throw MyException.disasm_exception
  grow_loop cs (suc left) addr size = do
    code ← read_memory addr size
    elim (cs.disasm code 1) [
      | [] ↦ grow_loop cs left addr (size + 1)
      | insn ∷ _ ↦ do
        print (Line.instruction ((addr + insn.address) % 2 ^ 64) insn.mnemonic insn.op_str)
        pure ((addr + insn.size) % 2 ^ 64)
    ]

  unfoldable pub instructions_loop : Capstone → (count addr : ℕ) → M P (Unit {0})
  unfolding grow_loop
  instructions_loop cs zero addr = pure tt
  instructions_loop cs (suc count) addr = do
    next ← grow_loop cs 15 addr 1
    instructions_loop cs count next

  unfoldable pub print_instructions : Capstone → (addr count : ℕ) → M P (Unit {0})
  unfolding instructions_loop
  print_instructions cs addr count = if cs.opens then instructions_loop cs count addr else pure tt

  unfoldable pub first_instruction : List CsInsn → M P MyInstr
  unfolding throw
  first_instruction [] = throw MyException.disasm_exception
  first_instruction (insn ∷ insns) =
      pure (record { size = insn.size; str = insn.mnemonic ++ insn.op_str ++ 10 ∷ [] })

  unfoldable pub get_instruction : Capstone → (addr : ℕ) → M P MyInstr
  unfolding first_instruction
  get_instruction cs addr = do
    code ← read_memory addr 16
    first_instruction (if cs.opens then cs.disasm code 1 else [])

module _ {P : Type 0} ⦃k : Kernel P⦄ ⦃mem : Memory P⦄ where
  unfoldable pub get_current_instruction : Capstone → M P MyInstr
  unfolding get_instruction
  get_current_instruction cs = do addr ← get_register Reg.reg_rip; get_instruction cs addr
