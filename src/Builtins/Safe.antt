-- ===== src/Builtins/Safe.antt =====
-- Every command of the program is safe for the session.
use my_dbg.Base.{not, List, [], ◌∷◌, ◌++◌, Text, All, length}
use my_dbg.Debugger.{Kernel, Line}
use my_dbg.Memory.{Memory}
use my_dbg.Capstone.{Capstone}
use my_dbg.MemMappings.{Maps}
use my_dbg.Unwind.{Unwind, init_libunwind}
use my_dbg.Elf.Tracee.{Files}
use my_dbg.GnuHash.Tracee.{get_address_gnu}
use my_dbg.Dwarf.Sources.{Sources}
use my_dbg.Commands.{Cmd}
use my_dbg.Builtins.{
  Bounds, register_command, register_command_with_alias, setup_modules, function_address,
  help_command, place_commands, run_commands, info_commands, commands,
}
use my_dbg.Session.{Survives-refl}
use my_dbg.Session.Rules.{IsSafe, safe, from, at, if_at, IsSafe-pure, IsSafe-print}
use my_dbg.Session.Gnu.{IsSafe-get_address_gnu}
use my_dbg.Session.Lookup.{IsSafe-get_address}
use my_dbg.Session.Lines.{IsSafe-get_line_address, IsSafe-cmd_list}
use my_dbg.Session.Prints.{IsSafe-cmd_examine}
use my_dbg.Session.Frames.{IsSafe-cmd_info_memory}
use my_dbg.Session.Breaks.{
  IsSafe-cmd_break, IsSafe-cmd_tbreak, IsSafe-cmd_break_del, IsSafe-cmd_breaks,
  IsSafe-cmd_break_list, IsSafe-cmd_attach,
}
use my_dbg.Session.Commands.{
  IsSafe-cmd_quit, IsSafe-cmd_help, IsSafe-cmd_continue, IsSafe-cmd_step_instr,
  IsSafe-cmd_info_regs, IsSafe-cmd_breakf, IsSafe-cmd_breakl, IsSafe-cmd_next_instr,
  IsSafe-cmd_finish, IsSafe-cmd_disassemble, IsSafe-cmd_backtrace,
}

module _ {P : Type 0} where
  -- Whatever the command is called with
  pub record RunsSafe (cmd : Cmd P) : Type 0 where
    pub runs : (args : List Text) → IsSafe (cmd.function (length args) args)

  All-append : (xs ys : List (Cmd P)) → All RunsSafe xs → All RunsSafe ys → All RunsSafe (xs ++ ys)
  All-append [] ys h g = g
  All-append (x ∷ xs) ys (hx, h) g = (hx, All-append xs ys h g)

module _ {P C : Type 0} ⦃k : Kernel P⦄ ⦃mem : Memory P⦄ ⦃files : Files P⦄ ⦃maps : Maps P⦄
    ⦃src : Sources P⦄ (unw : Unwind P C) (cs : Capstone) (bounds : Bounds) where
  IsSafe-setup_modules : IsSafe (setup_modules unw cs bounds)
  unfolding setup_modules init_libunwind
  IsSafe-setup_modules = safe λ s.
      if_at (not unw.has_space)
        (from (IsSafe-print (Line.text "libunwind address-space creation failed")) s)
        (if_at (unw.creates_info s.pid s.process) (from (IsSafe-pure tt) s) (at (Survives-refl s)))

  IsSafe-function_address : (function : Text) → IsSafe (function_address unw cs bounds function)
  unfolding function_address
  IsSafe-function_address function =
      IsSafe-get_address (get_address_gnu bounds.rounds bounds.names)
        (IsSafe-get_address_gnu bounds.rounds bounds.names) bounds.links bounds.names function

  IsSafe-place_commands : All RunsSafe (place_commands unw cs bounds)
  unfolding place_commands register_command register_command_with_alias
  IsSafe-place_commands = (
    record { runs = λ a. IsSafe-cmd_break (length a) a },
    (
      record { runs = λ a. IsSafe-cmd_tbreak (length a) a },
      (
        record { runs = λ a. IsSafe-cmd_breakf IsSafe-function_address a },
        (
          record { runs = λ a. IsSafe-cmd_breakl IsSafe-get_line_address a },
          (
            record { runs = λ a. IsSafe-cmd_breaks (length a) a },
            (
              record { runs = λ a. IsSafe-cmd_break_list (length a) a },
              (record { runs = λ a. IsSafe-cmd_break_del (length a) a }, tt),
            ),
          ),
        ),
      ),
    ),
  )

  IsSafe-run_commands : All RunsSafe (run_commands unw cs bounds)
  unfolding run_commands register_command register_command_with_alias
  IsSafe-run_commands = (
    record { runs = λ a. IsSafe-cmd_attach IsSafe-setup_modules (length a) a },
    (
      record { runs = λ a. IsSafe-cmd_continue bounds.stops (length a) a },
      (
        record { runs = λ a. IsSafe-cmd_step_instr bounds.stops (length a) a },
        (
          record { runs = λ a. IsSafe-cmd_next_instr cs bounds.stops a },
          (
            record { runs = λ a. IsSafe-cmd_finish cs bounds.stops unw a },
            (record { runs = λ a. IsSafe-cmd_quit (length a) a }, tt),
          ),
        ),
      ),
    ),
  )

  IsSafe-info_commands : All RunsSafe (info_commands unw cs bounds)
  unfolding info_commands register_command register_command_with_alias
  IsSafe-info_commands = (
    record { runs = λ a. IsSafe-cmd_backtrace unw a },
    (
      record { runs = λ a. IsSafe-cmd_disassemble cs a },
      (
        record { runs = λ a. IsSafe-cmd_examine cs a },
        (
          record { runs = λ a. IsSafe-cmd_info_memory },
          (
            record { runs = λ a. IsSafe-cmd_info_regs (length a) a },
            (record { runs = λ a. IsSafe-cmd_list a }, tt),
          ),
        ),
      ),
    ),
  )

  pub IsSafe-commands : (listed : List (Cmd P)) → All RunsSafe (commands unw cs bounds listed)
  unfolding commands help_command register_command register_command_with_alias
  IsSafe-commands listed = (
    record { runs = λ a. IsSafe-cmd_help listed (length a) a },
    All-append (place_commands unw cs bounds)
        (run_commands unw cs bounds ++ info_commands unw cs bounds) IsSafe-place_commands
        (All-append (run_commands unw cs bounds) (info_commands unw cs bounds) IsSafe-run_commands
          IsSafe-info_commands),
  )
