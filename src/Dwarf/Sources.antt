-- ===== src/Dwarf/Sources.antt =====
-- The source line of an address and the address of a line, `print_line` and `get_line_address` of
-- src/infos/my_dwarf.c, with src/utils/file_utils.c and src/commands/cmd_list.c.
use my_dbg.Base.{
  ℕ, ◌+◌, ◌-◌, List, [], ◌∷◌, ◌++◌, Option, none, some, Text, codes, ◌==◌, leb, length, drop,
  get_elem?, if◌then◌else◌,
}
use my_dbg.Debugger.{MyException, Kernel, Line, M, fault, out_of_fuel, pure, print, ◌>>=◌, ◌>>◌}
use my_dbg.Debugger.Exceptions.{throw}
use my_dbg.Registers.{reg_rip, get_register}
use my_dbg.Memory.{Memory}
use my_dbg.Elf.{MyElf}
use my_dbg.Elf.Tracee.{Files, calc_base_address}
use my_dbg.Elf.Lookup.{elf_section, look_up}
use my_dbg.Dwarf.Result.{Dw, ok, invalid, fault, stuck}
use my_dbg.Dwarf.Machine.{Sm}
use my_dbg.Dwarf.Nearest.{get_nearest_state, get_line_address_internal}
use my_dbg.Dwarf.Tables.{MyDwFile, MyDwLines, dwarf_lines}

-- What the program asks of the operating system about files: where the link /proc/<pid>/exe leads, and
-- the lines of a file.
pub record Sources (P : Type 0) : Type 0 where
  pub exe_link : (pid : ℕ) → P → Option Text
  pub file_lines : (path : Text) → P → Option (List Text)

-- `strrchr` and the cut: the text in front of the last slash, `none` where there is none
unfoldable pub dir_of : Text → Option Text
dir_of [] = none
dir_of (c ∷ cs) = elim (dir_of cs) [
  | some front ↦ some (c ∷ front)
  | none ↦ if c == b'/' then some [] else none
]

-- `SHT_PROGBITS` is 1.
abbrev pub debug_line : Option Text
debug_line = some (codes ".debug_line")

module _ {P : Type 0} where
  unfoldable pub from_tables : {A : Type 0} → Dw A → M P A
  unfolding throw
  from_tables (ok a) = pure a
  from_tables invalid = throw MyException.dwarf_exception
  from_tables fault = λ s. fault
  from_tables stuck = λ s. out_of_fuel

  -- An element of an array that has to be there
  unfoldable pub element : {A : Type 0} → List A → ℕ → M P A
  element xs i = elim (get_elem? xs i) [ none ↦ (λ s. fault) | some x ↦ pure x ]

module _ {P : Type 0} ⦃src : Sources P⦄ where
  -- Of /proc/<pid>/exe
  unfoldable pub real_path : M P Text
  unfolding throw dir_of
  real_path s = elim (src.exe_link s.pid s.process) [
    | none ↦ throw MyException.io_exception s
    | some path ↦ elim (dir_of path) [ none ↦ fault | some dir ↦ pure dir s ]
  ]

  -- The directory is not NULL here. Line 0 is the first one; `path` has 4096 bytes.
  unfoldable pub print_file_line : (dir file : Text) → (line : ℕ) → M P (Unit {0})
  unfolding throw
  print_file_line dir file line s =
      if leb 4096 (length dir + length file + 1)
      then fault
      else elim (src.file_lines (dir ++ b'/' ∷ file) s.process) [
        | none ↦ throw MyException.io_exception s
        | some lines ↦ elim (get_elem? lines (line - 1)) [
          | none ↦ throw MyException.io_exception s
          | some t ↦ print (Line.written t) s
        ]
      ]

  -- A directory of number 0 is that of the executable, also for an absolute path.
  unfoldable pub dir_of_file : MyDwLines → MyDwFile → M P Text
  unfolding real_path element
  dir_of_file lines file =
      if file.index == 0
      then real_path
      else element lines.lconf.include_directories (file.index - 1)

  unfoldable pub print_state : MyDwLines → Option Sm → M P (Unit {0})
  unfolding dir_of_file print_file_line element throw
  print_state lines none = print (Line.text "No line found: no debugging informations?")
  print_state lines (some my_sm) =
      if my_sm.file == 0
      then throw MyException.dwarf_exception
      else (element lines.lconf.files (my_sm.file - 1) >>= λ file.
          dir_of_file lines file >>= λ dir. print_file_line dir file.path my_sm.line)

module _ {P : Type 0} ⦃mem : Memory P⦄ ⦃files : Files P⦄ where
  -- The line table of the executable, and the base address
  unfoldable pub load_lines : MyElf → M P (ℕ × MyDwLines)
  unfolding from_tables dwarf_lines elf_section calc_base_address
  load_lines elf = calc_base_address elf.header >>= λ base. elf_section elf debug_line 1 >>= λ s.
      from_tables (dwarf_lines (drop s.addr elf.elf)) >>= λ lines. pure (base.0, lines)

  unfoldable pub print_line_at_addr : ⦃src : Sources P⦄ → MyElf → (addr : ℕ) → M P (Unit {0})
  unfolding load_lines print_state get_nearest_state
  print_line_at_addr elf addr = load_lines elf >>= λ loaded.
      print_state loaded.1 (get_nearest_state loaded.1.states addr loaded.0)

  -- `SAFE_DWARF` is what `get_address` does around its search.
  unfoldable pub print_line : ⦃k : Kernel P⦄ ⦃src : Sources P⦄ → M P (Unit {0})
  unfolding print_line_at_addr look_up
  print_line = get_register reg_rip >>= λ addr.
      look_up (λ elf. print_line_at_addr elf addr >> pure 0) >> pure tt

  -- Where no row has the line, the message comes before the exception.
  unfoldable pub found_line : Dw ℕ → M P ℕ
  unfolding from_tables
  found_line invalid = print (Line.text "No line found") >> from_tables invalid
  found_line r = from_tables r

  unfoldable pub get_line_address : (file : Text) → (line : ℕ) → M P ℕ
  unfolding load_lines look_up found_line get_line_address_internal
  get_line_address file line = look_up (λ elf. load_lines elf >>= λ loaded.
      found_line (get_line_address_internal loaded.0 loaded.1.states line))

  unfoldable pub cmd_list : ⦃k : Kernel P⦄ ⦃src : Sources P⦄ → List Text → M P (Unit {0})
  unfolding print_line
  cmd_list argv = print_line
