-- ===== src/Session/Prints.antt =====
-- Instructions, dumps, mappings and frames.
use my_dbg.Base.{
  ℕ, zero, suc, ◌+◌, ◌%◌, ◌^◌, not, List, [], ◌∷◌, Option, none, some, Text, ◌==◌, if◌then◌else◌,
  take,
}
use my_dbg.Debugger.{MyException, Kernel, Line, M}
use my_dbg.Memory.{Memory}
use my_dbg.Registers.{reg_rip}
use my_dbg.Capstone.{
  Capstone, CsInsn, grow_loop, instructions_loop, print_instructions, first_instruction,
  get_instruction, get_current_instruction,
}
use my_dbg.Examine.{
  in_array, write, print_insns, print_disassembled, examine_instructions, dump, examine_hexa,
  examine_decimal, examine_string, examine_memory, examine_range, cmd_examine,
}
use my_dbg.Session.Rules.{
  IsSafe, then_next, branch, IsSafe-pure, IsSafe-fault, IsSafe-throw, IsSafe-print,
}
use my_dbg.Session.Reads.{
  IsSafe-read_memory, IsSafe-get_register, IsSafe-read_address, IsSafe-read_size,
}

module _ {P : Type 0} where
  pub case_list :
      {A B : Type 0} (xs : List B) {m : M P A} {f : B → List B → M P A}
      → IsSafe m
      → ((b : B) (bs : List B) → IsSafe (f b bs))
      → IsSafe (elim xs [ [] ↦ m | b ∷ bs ↦ f b bs ])
  case_list [] h g = h
  case_list (b ∷ bs) h g = g b bs

module _ {P : Type 0} ⦃mem : Memory P⦄ (cs : Capstone) where
  IsSafe-grow_loop : (left addr size : ℕ) → IsSafe (grow_loop {P = P} cs left addr size)
  unfolding grow_loop
  IsSafe-grow_loop zero addr size = IsSafe-throw MyException.disasm_exception
  IsSafe-grow_loop (suc left) addr size = then_next (IsSafe-read_memory addr size) λ code.
      case_list (cs.disasm code 1) (IsSafe-grow_loop left addr (size + 1)) λ insn _.
        then_next
          (IsSafe-print
            (Line.instruction ((addr + insn.address) % 2 ^ 64) insn.mnemonic insn.op_str))
          λ _. IsSafe-pure ((addr + insn.size) % 2 ^ 64)

  IsSafe-instructions_loop : (count addr : ℕ) → IsSafe (instructions_loop {P = P} cs count addr)
  unfolding instructions_loop
  IsSafe-instructions_loop zero addr = IsSafe-pure tt
  IsSafe-instructions_loop (suc count) addr =
      then_next (IsSafe-grow_loop 15 addr 1) λ next. IsSafe-instructions_loop count next

  pub IsSafe-print_instructions :
      (addr count : ℕ) → IsSafe (print_instructions {P = P} cs addr count)
  unfolding print_instructions
  IsSafe-print_instructions addr count =
      branch cs.opens (IsSafe-instructions_loop count addr) (IsSafe-pure tt)

  IsSafe-first_instruction : (insns : List CsInsn) → IsSafe (first_instruction {P = P} insns)
  unfolding first_instruction
  IsSafe-first_instruction [] = IsSafe-throw MyException.disasm_exception
  IsSafe-first_instruction (insn ∷ insns) = IsSafe-pure _

  pub IsSafe-get_instruction : (addr : ℕ) → IsSafe (get_instruction {P = P} cs addr)
  unfolding get_instruction
  IsSafe-get_instruction addr =
      then_next (IsSafe-read_memory addr 16)
        λ code. IsSafe-first_instruction (if cs.opens then cs.disasm code 1 else [])

  pub IsSafe-get_current_instruction : ⦃k : Kernel P⦄ → IsSafe (get_current_instruction {P = P} cs)
  unfolding get_current_instruction
  IsSafe-get_current_instruction =
      then_next (IsSafe-get_register reg_rip) λ addr. IsSafe-get_instruction addr

module _ {P : Type 0} (cs : Capstone) where
  IsSafe-write : (o : Option Text) → IsSafe (write {P = P} o)
  unfolding write
  IsSafe-write none = IsSafe-fault
  IsSafe-write (some t) = IsSafe-print (Line.written t)

  IsSafe-print_insns : (addr : ℕ) (insns : List CsInsn) → IsSafe (print_insns {P = P} addr insns)
  unfolding print_insns
  IsSafe-print_insns addr [] = IsSafe-pure tt
  IsSafe-print_insns addr (insn ∷ insns) =
      then_next
        (IsSafe-print (Line.instruction ((addr + insn.address) % 2 ^ 64) insn.mnemonic insn.op_str))
        λ _. IsSafe-print_insns addr insns

  IsSafe-print_disassembled :
      (addr : ℕ) (insns : List CsInsn) → IsSafe (print_disassembled {P = P} addr insns)
  unfolding print_disassembled
  IsSafe-print_disassembled addr [] = IsSafe-print (Line.text "Dissasemble failed")
  IsSafe-print_disassembled addr (insn ∷ insns) = IsSafe-print_insns addr (insn ∷ insns)

  IsSafe-dump :
      (format addr : ℕ) (buf : List ℕ) (size : ℕ) → IsSafe (dump {P = P} cs format addr buf size)
  unfolding dump examine_instructions
  IsSafe-dump format addr buf size =
      branch (format == b'x') (IsSafe-write (examine_hexa buf size)) (
        branch (format == b'd') (IsSafe-write (examine_decimal buf size)) (
          branch (format == b's') (IsSafe-write (examine_string buf size)) (
            branch (format == b'i')
              (branch (not cs.opens) (IsSafe-pure tt)
                (IsSafe-print_disassembled addr (cs.disasm (take size buf) 0)))
              (IsSafe-pure tt))))

module _ {P : Type 0} ⦃k : Kernel P⦄ ⦃mem : Memory P⦄ (cs : Capstone) where
  IsSafe-examine_range : (format addr size : ℕ) → IsSafe (examine_range {P = P} cs format addr size)
  unfolding examine_range examine_memory
  IsSafe-examine_range format addr size =
      branch (size == 0) (IsSafe-print (Line.text "Nothing to examine (null size)"))
        (then_next (IsSafe-read_memory addr size) λ buf. IsSafe-dump cs format addr buf size)

  pub IsSafe-cmd_examine : (argv : List Text) → IsSafe (cmd_examine {P = P} cs argv)
  unfolding cmd_examine
  IsSafe-cmd_examine (name ∷ (format ∷ []) ∷ size ∷ addr ∷ more) =
      branch (in_array format (b'x' ∷ b'd' ∷ b'i' ∷ b's' ∷ []))
        (then_next (IsSafe-read_size size)
          λ n. then_next (IsSafe-read_address addr) λ a. IsSafe-examine_range format a n)
        (IsSafe-print _)
  IsSafe-cmd_examine (name ∷ [] ∷ size ∷ addr ∷ more) = IsSafe-print _
  IsSafe-cmd_examine (name ∷ (c ∷ d ∷ format) ∷ size ∷ addr ∷ more) = IsSafe-print _
  IsSafe-cmd_examine [] = IsSafe-print _
  IsSafe-cmd_examine (name ∷ []) = IsSafe-print _
  IsSafe-cmd_examine (name ∷ [] ∷ []) = IsSafe-print _
  IsSafe-cmd_examine (name ∷ [] ∷ size ∷ []) = IsSafe-print _
  IsSafe-cmd_examine (name ∷ (c ∷ []) ∷ []) = IsSafe-print _
  IsSafe-cmd_examine (name ∷ (c ∷ []) ∷ size ∷ []) = IsSafe-print _
  IsSafe-cmd_examine (name ∷ (c ∷ d ∷ format) ∷ []) = IsSafe-print _
  IsSafe-cmd_examine (name ∷ (c ∷ d ∷ format) ∷ size ∷ []) = IsSafe-print _
