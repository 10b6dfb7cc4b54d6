-- ===== src/Commands/Stepping.antt =====
-- Commands that place breakpoints where code is found by its name, line or instruction, and those that
-- print instructions or frames: src/commands/cmd_next_instr.c, cmd_finish.c, cmd_breakf.c, cmd_breakl.c,
-- cmd_disassemble.c, cmd_backtrace.c.
use my_dbg.Base.{
  ℕ, ◌+◌, ◌%◌, ◌^◌, Bool, true, false, List, ◌∷◌, Text, codes, ◌==◌, if◌then◌else◌, starts_with,
}
use my_dbg.Debugger.{Kernel, Line, M, pure, print, get, ◌>>=◌, ◌>>◌}
use my_dbg.Registers.{reg_rip, get_register}
use my_dbg.Format.{read_address, read_size}
use my_dbg.Breakpoints.{no_flags, temp_internal_flags, place_breakpoint}
use my_dbg.Control.{single_step, continue_execution}
use my_dbg.Memory.{Memory}
use my_dbg.Capstone.{Capstone, MyInstr, get_current_instruction, print_instructions}
use my_dbg.MemMappings.{Maps}
use my_dbg.Unwind.{Unwind, print_backtrace, get_finish_address}

module _ {P : Type 0} ⦃k : Kernel P⦄ where
  -- `get_address` is an argument.
  unfoldable pub cmd_breakf : (get_address : Text → M P ℕ) → List Text → M P (Unit {0})
  cmd_breakf get_address (name ∷ function ∷ more) = do
    addr ← get_address function
    if addr == 0
        then print (Line.text "Symbol not found")
        else (place_breakpoint addr no_flags >>= λ nb. print (Line.breakpoint_placed_at nb addr))
  cmd_breakf get_address _ = print (Line.text "No function specified")

  -- `get_line_address` is an argument.
  unfoldable pub cmd_breakl : (get_line_address : Text → ℕ → M P ℕ) → List Text → M P (Unit {0})
  cmd_breakl get_line_address (name ∷ line ∷ file ∷ more) = do
    n ← read_size line
    addr ← get_line_address file (n % 2 ^ 32)
    place_breakpoint addr temp_internal_flags
    print (Line.placed_at addr)
  cmd_breakl get_line_address _ = print (Line.text "Missing arguments")

module _ {P : Type 0} ⦃k : Kernel P⦄ ⦃mem : Memory P⦄ where
  -- Over a call, up to the instruction behind it
  unfoldable pub step_over : (fuel rip : ℕ) → MyInstr → M P Bool
  step_over fuel rip instr =
      if starts_with instr.str (codes "call")
      then (do
        place_breakpoint ((rip + instr.size) % 2 ^ 64) temp_internal_flags
        continue_execution fuel
        pure true)
      else (single_step (continue_execution fuel) >> pure false)

  unfoldable pub cmd_next_instr : (fuel : ℕ) → Capstone → List Text → M P (Unit {0})
  unfolding step_over
  cmd_next_instr fuel cs argv = do
    rip ← get_register reg_rip
    instr ← get_current_instruction cs
    over ← step_over fuel rip instr
    s ← get
    if s.quit then pure tt else (get_register reg_rip >>= λ now. print (Line.stepped_to over now))

  unfoldable pub cmd_finish :
      {C : Type 0} → (fuel : ℕ) → Unwind P C → Capstone → List Text → M P (Unit {0})
  cmd_finish fuel unw cs argv = do
    addr ← get_finish_address unw cs
    place_breakpoint addr temp_internal_flags
    continue_execution fuel
    print (Line.continued_to addr)

  unfoldable pub cmd_disassemble : Capstone → List Text → M P (Unit {0})
  cmd_disassemble cs (name ∷ addr ∷ count ∷ more) = do
    a ← read_address addr
    n ← read_size count
    if n == 0
        then print (Line.text "Nothing to disassemble (null size)")
        else print_instructions cs a n
  cmd_disassemble cs _ = print (Line.text "Missing arguments")

module _ {P : Type 0} where
  unfoldable pub cmd_backtrace :
      {C : Type 0} ⦃maps : Maps P⦄ → Unwind P C → List Text → M P (Unit {0})
  cmd_backtrace unw argv = print_backtrace unw
