-- ===== src/Session/Commands.antt =====
-- The other commands.
use my_dbg.Base.{
  refl, ℕ, ◌+◌, ◌%◌, ◌^◌, true, false, List, [], ◌∷◌, Option, none, some, arith, Text, codes, ◌==◌,
  ltb, drop, starts_with,
}
use my_dbg.Debugger.{Regs, Kernel, Line, M}
use my_dbg.Debugger.Ends.{keeps}
use my_dbg.Memory.{Memory}
use my_dbg.Capstone.{Capstone, MyInstr}
use my_dbg.MemMappings.{Maps}
use my_dbg.Unwind.{Unwind}
use my_dbg.Registers.{Reg, reg_rip, all_regs, reg_name, get_register_internal, get_registers}
use my_dbg.Breakpoints.{no_flags, temp_internal_flags}
use my_dbg.Control.{single_step, continue_execution}
use my_dbg.Control.Steps.{Within-getregs}
use my_dbg.Control.Frame.{Keeps-single_step, continue_execution-Runs}
use my_dbg.Commands.{
  Cmd, pick, Matched, ambiguous, matched, get_command, print_help, help_loop, help_all, cmd_help,
  exact_loop, prefix_loop,
}
use my_dbg.Commands.Running.{cmd_quit, print_registers, cmd_continue, cmd_step_instr, cmd_info_regs}
use my_dbg.Commands.Stepping.{
  cmd_breakf, cmd_breakl, step_over, cmd_next_instr, cmd_finish, cmd_disassemble, cmd_backtrace,
}
use my_dbg.Session.{Survives-refl}
use my_dbg.Session.Rules.{
  IsSafe, then_next, branch, IsSafe-pure, IsSafe-get, IsSafe-print, IsSafe-modify, IsSafe-Runs,
}
use my_dbg.Session.Reads.{IsSafe-get_register, IsSafe-read_address, IsSafe-read_size}
use my_dbg.Session.Prints.{IsSafe-print_instructions, IsSafe-get_current_instruction}
use my_dbg.Session.Frames.{IsSafe-print_backtrace, IsSafe-get_finish_address}
use my_dbg.Session.Places.{IsSafe-place_breakpoint}

module _ {P : Type 0} where
  pub IsSafe-cmd_quit : (argc : ℕ) (argv : List Text) → IsSafe (cmd_quit {P = P} argc argv)
  unfolding cmd_quit
  IsSafe-cmd_quit argc argv =
      IsSafe-modify _ (λ s. refl)
        λ s. record {
          quit = ground arith;
          table = (Survives-refl s).table;
          printed = (Survives-refl s).printed;
        }

  IsSafe-print_registers : (regs : Regs) (rs : List Reg) → IsSafe (print_registers {P = P} regs rs)
  unfolding print_registers
  IsSafe-print_registers regs [] = IsSafe-pure tt
  IsSafe-print_registers regs (r ∷ rs) =
      then_next (IsSafe-print (Line.register_value (reg_name r) (get_register_internal regs r)))
        λ _. IsSafe-print_registers regs rs

  IsSafe-pick : (e : Option (Cmd P)) (m : Matched P) (name : Text) → IsSafe (pick e m name)
  unfolding pick
  IsSafe-pick (some cmd) m name = IsSafe-pure _
  IsSafe-pick none ambiguous name =
      then_next (IsSafe-print (Line.ambiguous_command name)) λ _. IsSafe-pure none
  IsSafe-pick none (matched (some cmd)) name = IsSafe-pure _
  IsSafe-pick none (matched none) name =
      then_next (IsSafe-print (Line.command_not_found name)) λ _. IsSafe-pure none

  pub IsSafe-get_command : (cmds : List (Cmd P)) (name : Text) → IsSafe (get_command cmds name)
  unfolding get_command
  IsSafe-get_command cmds name =
      IsSafe-pick (exact_loop name cmds) (prefix_loop name none cmds) name

  IsSafe-print_help : (cmd : Option (Cmd P)) → IsSafe (print_help cmd)
  IsSafe-print_help none = IsSafe-pure tt
  IsSafe-print_help (some cmd) = IsSafe-print (Line.help_line cmd.usage cmd.description)

  IsSafe-help_loop : (cmds : List (Cmd P)) (args : List Text) → IsSafe (help_loop cmds args)
  unfolding help_loop
  IsSafe-help_loop cmds [] = IsSafe-pure tt
  IsSafe-help_loop cmds (arg ∷ args) =
      then_next (IsSafe-get_command cmds arg)
        λ cmd. then_next (IsSafe-print_help cmd) λ _. IsSafe-help_loop cmds args

  IsSafe-help_all : (cmds : List (Cmd P)) → IsSafe (help_all cmds)
  unfolding help_all
  IsSafe-help_all [] = IsSafe-pure tt
  IsSafe-help_all (cmd ∷ cmds) =
      then_next (IsSafe-print (Line.help_line cmd.usage cmd.description)) λ _. IsSafe-help_all cmds

  pub IsSafe-cmd_help :
      (cmds : List (Cmd P)) (argc : ℕ) (argv : List Text) → IsSafe (cmd_help cmds argc argv)
  unfolding cmd_help
  IsSafe-cmd_help cmds argc argv =
      branch (ltb 1 argc) (IsSafe-help_loop cmds (drop 1 argv)) (IsSafe-help_all cmds)

module _ {P : Type 0} ⦃k : Kernel P⦄ where
  IsSafe-continue_execution : (fuel : ℕ) → IsSafe (continue_execution {P = P} fuel)
  IsSafe-continue_execution fuel = IsSafe-Runs (keeps (continue_execution-Runs fuel))

  IsSafe-single_step : (fuel : ℕ) → IsSafe (single_step {P = P} (continue_execution fuel))
  IsSafe-single_step fuel = IsSafe-Runs (Keeps-single_step (keeps (continue_execution-Runs fuel)))

  pub IsSafe-cmd_continue :
      (fuel argc : ℕ) (argv : List Text) → IsSafe (cmd_continue {P = P} fuel argc argv)
  unfolding cmd_continue
  IsSafe-cmd_continue fuel argc argv =
      then_next (IsSafe-print (Line.text "Continuing.")) λ _. IsSafe-continue_execution fuel

  pub IsSafe-cmd_step_instr :
      (fuel argc : ℕ) (argv : List Text) → IsSafe (cmd_step_instr {P = P} fuel argc argv)
  unfolding cmd_step_instr
  IsSafe-cmd_step_instr fuel argc argv =
      then_next (IsSafe-single_step fuel)
        λ _. then_next (IsSafe-get_register reg_rip) λ rip. IsSafe-print (Line.stepped_to false rip)

  pub IsSafe-cmd_info_regs :
      (argc : ℕ) (argv : List Text) → IsSafe (cmd_info_regs {P = P} argc argv)
  unfolding cmd_info_regs get_registers
  IsSafe-cmd_info_regs argc argv =
      then_next (IsSafe-Runs (keeps Within-getregs)) λ regs. IsSafe-print_registers regs all_regs

  pub IsSafe-cmd_breakf :
      {get_address : Text → M P ℕ}
      → ((function : Text) → IsSafe (get_address function))
      → (argv : List Text) → IsSafe (cmd_breakf get_address argv)
  unfolding cmd_breakf
  IsSafe-cmd_breakf h (name ∷ function ∷ more) = then_next (h function) λ addr.
      branch (addr == 0) (IsSafe-print (Line.text "Symbol not found")) (
        then_next (IsSafe-place_breakpoint addr no_flags)
          λ nb. IsSafe-print (Line.breakpoint_placed_at nb addr))
  IsSafe-cmd_breakf h [] = IsSafe-print _
  IsSafe-cmd_breakf h (name ∷ []) = IsSafe-print _

  pub IsSafe-cmd_breakl :
      {get_line_address : Text → ℕ → M P ℕ}
      → ((file : Text) (line : ℕ) → IsSafe (get_line_address file line))
      → (argv : List Text) → IsSafe (cmd_breakl get_line_address argv)
  unfolding cmd_breakl
  IsSafe-cmd_breakl h (name ∷ line ∷ file ∷ more) = then_next (IsSafe-read_size line) λ n.
      then_next (h file (n % 2 ^ 32)) λ addr.
        then_next (IsSafe-place_breakpoint addr temp_internal_flags)
          λ _. IsSafe-print (Line.placed_at addr)
  IsSafe-cmd_breakl h [] = IsSafe-print _
  IsSafe-cmd_breakl h (name ∷ []) = IsSafe-print _
  IsSafe-cmd_breakl h (name ∷ line ∷ []) = IsSafe-print _

module _ {P : Type 0} ⦃k : Kernel P⦄ ⦃mem : Memory P⦄ (cs : Capstone) where
  IsSafe-step_over : (fuel rip : ℕ) (instr : MyInstr) → IsSafe (step_over {P = P} fuel rip instr)
  unfolding step_over
  IsSafe-step_over fuel rip instr =
      branch (starts_with instr.str (codes "call"))
        (then_next (IsSafe-place_breakpoint ((rip + instr.size) % 2 ^ 64) temp_internal_flags)
          λ _. then_next (IsSafe-continue_execution fuel) λ _. IsSafe-pure true)
        (then_next (IsSafe-single_step fuel) λ _. IsSafe-pure false)

  pub IsSafe-cmd_next_instr :
      (fuel : ℕ) (argv : List Text) → IsSafe (cmd_next_instr {P = P} fuel cs argv)
  unfolding cmd_next_instr
  IsSafe-cmd_next_instr fuel argv = then_next (IsSafe-get_register reg_rip) λ rip.
      then_next (IsSafe-get_current_instruction cs) λ instr.
        then_next (IsSafe-step_over fuel rip instr) λ over. then_next IsSafe-get λ s.
          branch s.quit (IsSafe-pure tt)
            (then_next (IsSafe-get_register reg_rip) λ now. IsSafe-print (Line.stepped_to over now))

  pub IsSafe-cmd_finish :
      {C : Type 0} (fuel : ℕ) (unw : Unwind P C) (argv : List Text)
      → IsSafe (cmd_finish {P = P} fuel unw cs argv)
  unfolding cmd_finish
  IsSafe-cmd_finish fuel unw argv = then_next (IsSafe-get_finish_address unw cs) λ addr.
      then_next (IsSafe-place_breakpoint addr temp_internal_flags)
        λ _. then_next (IsSafe-continue_execution fuel) λ _. IsSafe-print (Line.continued_to addr)

  pub IsSafe-cmd_disassemble : (argv : List Text) → IsSafe (cmd_disassemble {P = P} cs argv)
  unfolding cmd_disassemble
  IsSafe-cmd_disassemble (name ∷ addr ∷ count ∷ more) = then_next (IsSafe-read_address addr) λ a.
      then_next (IsSafe-read_size count) λ n.
        branch (n == 0) (IsSafe-print (Line.text "Nothing to disassemble (null size)"))
          (IsSafe-print_instructions cs a n)
  IsSafe-cmd_disassemble [] = IsSafe-print _
  IsSafe-cmd_disassemble (name ∷ []) = IsSafe-print _
  IsSafe-cmd_disassemble (name ∷ addr ∷ []) = IsSafe-print _

module _ {P C : Type 0} ⦃maps : Maps P⦄ where
  pub IsSafe-cmd_backtrace : (unw : Unwind P C) (argv : List Text) → IsSafe (cmd_backtrace unw argv)
  unfolding cmd_backtrace
  IsSafe-cmd_backtrace unw argv = IsSafe-print_backtrace unw
