-- ===== src/Session/Lines.antt =====
-- The lines of the source.
use my_dbg.Base.{
  ℕ, ◌+◌, ◌-◌, List, ◌∷◌, ◌++◌, Option, none, some, Text, ◌==◌, leb, length, drop, get_elem?,
}
use my_dbg.Debugger.{MyException, Kernel, Line}
use my_dbg.Memory.{Memory}
use my_dbg.Registers.{reg_rip}
use my_dbg.Elf.{MyElf}
use my_dbg.Elf.Tracee.{Files}
use my_dbg.Dwarf.Result.{Dw, ok, invalid, fault, stuck}
use my_dbg.Dwarf.Machine.{Sm}
use my_dbg.Dwarf.Nearest.{get_nearest_state, get_line_address_internal}
use my_dbg.Dwarf.Tables.{MyDwFile, MyDwLines, dwarf_lines}
use my_dbg.Dwarf.Sources.{
  Sources, dir_of, debug_line, from_tables, element, real_path, print_file_line, dir_of_file,
  print_state, load_lines, print_line_at_addr, print_line, found_line, get_line_address, cmd_list,
}
use my_dbg.Session.Rules.{
  IsSafe, safe, from, then_next, branch, choose, if_at, option_at, IsSafe-pure, IsSafe-fault,
  IsSafe-out_of_fuel, IsSafe-throw, IsSafe-print,
}
use my_dbg.Session.Reads.{IsSafe-get_register}
use my_dbg.Session.Elf.{IsSafe-calc_base_address}
use my_dbg.Session.Lookup.{IsSafe-elf_section, IsSafe-look_up}

module _ {P : Type 0} where
  IsSafe-from_tables : {A : Type 0} (r : Dw A) → IsSafe (from_tables {P = P} r)
  unfolding from_tables
  IsSafe-from_tables (ok a) = IsSafe-pure a
  IsSafe-from_tables invalid = IsSafe-throw MyException.dwarf_exception
  IsSafe-from_tables fault = IsSafe-fault
  IsSafe-from_tables stuck = IsSafe-out_of_fuel

  IsSafe-element : {A : Type 0} (xs : List A) (i : ℕ) → IsSafe (element {P = P} xs i)
  unfolding element
  IsSafe-element xs i = choose (get_elem? xs i) IsSafe-fault λ x. IsSafe-pure x

module _ {P : Type 0} ⦃src : Sources P⦄ where
  IsSafe-real_path : IsSafe (real_path {P = P})
  unfolding real_path
  IsSafe-real_path = safe λ s.
      option_at (src.exe_link s.pid s.process) (from (IsSafe-throw MyException.io_exception) s)
        λ path. option_at (dir_of path) (from IsSafe-fault s) λ dir. from (IsSafe-pure dir) s

  IsSafe-print_file_line :
      (dir file : Text) (line : ℕ) → IsSafe (print_file_line {P = P} dir file line)
  unfolding print_file_line
  IsSafe-print_file_line dir file line = safe λ s.
      let failed = from (IsSafe-throw MyException.io_exception) s in
      if_at (leb 4096 (length dir + length file + 1)) (from IsSafe-fault s) (
        option_at (src.file_lines (dir ++ b'/' ∷ file) s.process) failed λ lines.
          option_at (get_elem? lines (line - 1)) failed λ t. from (IsSafe-print (Line.written t)) s)

  IsSafe-dir_of_file :
      (lines : MyDwLines) (file : MyDwFile) → IsSafe (dir_of_file {P = P} lines file)
  unfolding dir_of_file
  IsSafe-dir_of_file lines file =
      branch (file.index == 0) IsSafe-real_path
        (IsSafe-element lines.lconf.include_directories (file.index - 1))

  IsSafe-print_state :
      (lines : MyDwLines) (state : Option Sm) → IsSafe (print_state {P = P} lines state)
  unfolding print_state
  IsSafe-print_state lines none =
      IsSafe-print (Line.text "No line found: no debugging informations?")
  IsSafe-print_state lines (some my_sm) =
      branch (my_sm.file == 0) (IsSafe-throw MyException.dwarf_exception) (
        then_next (IsSafe-element lines.lconf.files (my_sm.file - 1)) λ file.
          then_next (IsSafe-dir_of_file lines file)
            λ dir. IsSafe-print_file_line dir file.path my_sm.line)

module _ {P : Type 0} ⦃mem : Memory P⦄ ⦃files : Files P⦄ where
  IsSafe-load_lines : (elf : MyElf) → IsSafe (load_lines {P = P} elf)
  unfolding load_lines
  IsSafe-load_lines elf = then_next (IsSafe-calc_base_address elf.header) λ base.
      then_next (IsSafe-elf_section elf debug_line 1) λ s.
        then_next (IsSafe-from_tables (dwarf_lines (drop s.addr elf.elf))) λ lines. IsSafe-pure _

  IsSafe-print_line_at_addr :
      ⦃src : Sources P⦄ → (elf : MyElf) (addr : ℕ) → IsSafe (print_line_at_addr {P = P} elf addr)
  unfolding print_line_at_addr
  IsSafe-print_line_at_addr elf addr =
      then_next (IsSafe-load_lines elf)
        λ loaded. IsSafe-print_state loaded.1 (get_nearest_state loaded.1.states addr loaded.0)

  IsSafe-found_line : (r : Dw ℕ) → IsSafe (found_line {P = P} r)
  unfolding found_line
  IsSafe-found_line invalid =
      then_next (IsSafe-print (Line.text "No line found")) λ _. IsSafe-from_tables invalid
  IsSafe-found_line (ok a) = IsSafe-from_tables (ok a)
  IsSafe-found_line fault = IsSafe-from_tables fault
  IsSafe-found_line stuck = IsSafe-from_tables stuck

  pub IsSafe-get_line_address :
      (file : Text) (line : ℕ) → IsSafe (get_line_address {P = P} file line)
  unfolding get_line_address
  IsSafe-get_line_address file line = IsSafe-look_up λ elf.
      then_next (IsSafe-load_lines elf)
        λ loaded. IsSafe-found_line (get_line_address_internal loaded.0 loaded.1.states line)

  pub IsSafe-cmd_list :
      ⦃k : Kernel P⦄ ⦃src : Sources P⦄ → (argv : List Text) → IsSafe (cmd_list {P = P} argv)
  unfolding cmd_list print_line
  IsSafe-cmd_list argv = then_next (IsSafe-get_register reg_rip) λ addr.
      then_next
        (IsSafe-look_up λ elf. then_next (IsSafe-print_line_at_addr elf addr) λ _. IsSafe-pure 0)
        λ _. IsSafe-pure tt
