-- ===== src/Tests/Table.antt =====
-- Commands and their table, exceptions, and resuming the tracee.
use my_dbg.Base.{
  ◌≡◌, ◌≢◌, refl, false, List, [], ◌∷◌, some, none, arith, codes, str_eq, starts_with,
}
use mathlib.Core.List.Permᴰ.{swap}
use my_dbg.Debugger.{MyException, Dbg, pure, Line, M, ok, out_of_fuel}
use my_dbg.Debugger.Ends.{Ends}
use my_dbg.Debugger.Exceptions.{throw}
use my_dbg.Commands.{Cmd, ambiguous, get_command, is_called, exact_loop, prefix_loop, pick}
use my_dbg.Commands.Lookup.{tally, join, answer, get_command-answer, get_command-perm}
use my_dbg.Commands.Attach.{attach_process}
use my_dbg.Commands.Attach.Outcome.{Outcome, attach_process-Outcome}
use my_dbg.Control.{wait_program, continue_execution}
use my_dbg.Control.Runs.{Runs}
use my_dbg.Control.Frame.{continue_execution-Runs}
use my_dbg.Control.Fuel.{continue_execution-≢out_of_fuel}
use my_dbg.Control.Hit.{wait_program-get_breakpoint}
use my_dbg.Breakpoints.{is_at, get_loop, get_breakpoint}
use my_dbg.Breakpoints.Memory.{new_bp}
use my_dbg.Tests.Toy.{
  process, plain_flags, code_word, zero_regs, next_stop, Toy, toy, toy-StopsIn, calls_left, start,
}

-- A command that fails with a ptrace error
abbrev failing : M Toy (Unit {0})
failing s = throw MyException.ptrace_exception s

abbrev break_cmd : Cmd Toy
break_cmd = record {
  name = codes "break";
  program_required = false;
  description = codes "";
  function = λ argc argv. failing;
  usage = codes "";
  alias = some (codes "b");
}

abbrev breakl_cmd : Cmd Toy
breakl_cmd = record break_cmd { name = codes "breakl"; alias = none }

abbrev table : List (Cmd Toy)
table = break_cmd ∷ breakl_cmd ∷ []

one_match : tally (is_called (codes "break")) table ≢ ambiguous
unfolding tally is_called join str_eq
one_match e = cc

get_command-answer_example :
    get_command table (codes "break") start
    ≡ answer
        (tally (is_called (codes "break")) table)
        (tally (λ c. starts_with c.name (codes "break")) table)
        (codes "break")
        start
get_command-answer_example = get_command-answer table (codes "break") start one_match

get_command-perm_example :
    get_command (breakl_cmd ∷ break_cmd ∷ []) (codes "break") start
    ≡ get_command table (codes "break") start
get_command-perm_example =
    get_command-perm table (breakl_cmd ∷ break_cmd ∷ []) (codes "break") start (swap refl refl)
      one_match

get_command_run : get_command table (codes "break") start ≡ ok (some break_cmd) start
unfolding get_command exact_loop prefix_loop pick is_called str_eq starts_with
get_command_run = refl

-- Both stops at a system call are passed, then the tracee exits.
continue_execution-≢out_of_fuel_example : continue_execution ⦃k = toy⦄ 3 start ≢ out_of_fuel
unfolding calls_left
continue_execution-≢out_of_fuel_example =
    continue_execution-≢out_of_fuel ⦃k = toy⦄ (λ p. calls_left p.stops) toy-StopsIn 2 start
      (omega arith)

continue_execution-Runs_example :
    Ends (λ _ t. Runs start t) (Runs start) (continue_execution ⦃k = toy⦄ 3 start)
continue_execution-Runs_example = continue_execution-Runs ⦃k = toy⦄ 3 start

abbrev process_after : Toy
process_after = record process { stops = [] }

-- The tracee has stopped behind the breakpoint at 0x1000.
abbrev trapped : Dbg Toy
trapped = record start {
  process = record process { stops = 0x57f ∷ [] };
  breakpoints = new_bp 7 plain_flags 0x1000 code_word ∷ [];
}

found_trap : get_breakpoint 0x1000 trapped ≡ ok (some 0) trapped
unfolding get_breakpoint get_loop is_at
found_trap = refl

wait_program-get_breakpoint_example :
    wait_program ⦃k = toy⦄ (pure tt) false trapped
    ≡ ok false (record trapped {
      process = record process_after { regs = record zero_regs { rip = 0x1000 } };
      signum = 0;
      out = Line.breakpoint_at 7 0x1000 ∷ [];
    })
unfolding next_stop
wait_program-get_breakpoint_example =
    wait_program-get_breakpoint ⦃k = toy⦄ (pure tt) false trapped process_after zero_regs 0x1000 0
      (new_bp 7 plain_flags 0x1000 code_word) refl refl refl (omega arith) found_trap refl refl refl

-- No process yet; the one to attach reports a stop by SIGSTOP.
abbrev detached : Dbg Toy
detached = record start { pid = 0; process = record process { stops = 0x137f ∷ [] } }

attach_process-Outcome_example :
    Outcome toy (pure tt) 42 detached (attach_process ⦃k = toy⦄ (pure tt) 42 detached)
attach_process-Outcome_example =
    attach_process-Outcome ⦃k = toy⦄ (pure tt) 42 detached (omega arith)
