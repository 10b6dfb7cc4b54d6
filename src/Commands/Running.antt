-- ===== src/Commands/Running.antt =====
-- The commands that run the tracee or read its registers: src/commands/cmd_continue.c,
-- cmd_step_instr.c, cmd_info_regs.c and cmd_quit.c.
use my_dbg.Base.{ℕ, true, false, List, [], ◌∷◌, Text}
use my_dbg.Debugger.{Regs, Kernel, Line, M, pure, print, modify, ◌>>=◌, ◌>>◌}
use my_dbg.Registers.{
  Reg, reg_rip, all_regs, reg_name, get_register_internal, get_registers, get_register,
}
use my_dbg.Control.{single_step, continue_execution}

module _ {P : Type 0} where
  unfoldable pub cmd_quit : ℕ → List Text → M P (Unit {0})
  cmd_quit argc argv = modify λ s. record s { quit = true }

  -- `PRINT_REG` for each register of `print_registers`, whose order is that of `enum my_reg`
  unfoldable pub print_registers : Regs → List Reg → M P (Unit {0})
  print_registers regs [] = pure tt
  print_registers regs (r ∷ rs) =
      print (Line.register_value (reg_name r) (get_register_internal regs r))
      >> print_registers regs rs

module _ {P : Type 0} ⦃k : Kernel P⦄ where
  unfoldable pub cmd_continue : (fuel : ℕ) → ℕ → List Text → M P (Unit {0})
  cmd_continue fuel argc argv = print (Line.text "Continuing.") >> continue_execution fuel

  unfoldable pub cmd_step_instr : (fuel : ℕ) → ℕ → List Text → M P (Unit {0})
  cmd_step_instr fuel argc argv = do
    single_step (continue_execution fuel)
    rip ← get_register reg_rip
    print (Line.stepped_to false rip)

  unfoldable pub cmd_info_regs : ℕ → List Text → M P (Unit {0})
  unfolding print_registers
  cmd_info_regs argc argv = do regs ← get_registers; print_registers regs all_regs
