-- ===== src/Elf/Lookup.antt =====
-- src/infos/my_elf.c: opening the executable, and the address of a function by its name. The search of
-- the GNU hash table of a library, in src/infos/gnu_hash_table.c, is an argument.
pub mod Closing
use my_dbg.Base.{
  ℕ, zero, suc, ◌+◌, ◌*◌, ◌%◌, ◌^◌, Bool, true, false, not, ◌&&◌, List, [], ◌∷◌, Option, none, some,
  Text, ltb, ◌==◌, if◌then◌else◌, str_eq, take,
}
use my_dbg.Debugger.{
  MyException, Dbg, Line, Res, ok, thrown, exited, fault, out_of_fuel, M, pure, print, ◌>>=◌, ◌>>◌,
}
use my_dbg.Debugger.Exceptions.{throw, try_catch, catch_only}
use my_dbg.Memory.{Memory, read_memory}
use my_dbg.Elf.{
  Ehdr, Shdr, MyElf, MyElfSection, le_at, ehdr_at, shdr_at, elf_section_name, get_address_exec,
}
use my_dbg.Elf.Tracee.{
  Files, present, calc_base_address, calc_address, get_dynamic_section, get_dynamic_entry,
  get_address_dyn,
}

module _ {P : Type 0} ⦃files : Files P⦄ where
  -- `sizeof(Elf64_Ehdr)` is 64.
  unfoldable pub elf_size : M P ℕ
  unfolding throw
  elf_size s = elim (files.exe_size s.pid s.process) [
    | none ↦ throw MyException.io_exception s
    | some size ↦ if ltb size 64 then throw MyException.elf_exception s else pure size s
  ]

  unfoldable pub open_elf_exe : (size : ℕ) → M P (List ℕ)
  unfolding throw
  open_elf_exe size s =
      if not (files.exe_opens s.pid s.process)
      then (print (Line.text "open") >> throw MyException.io_exception) s
      else elim (files.exe_maps s.pid size s.process) [
        | none ↦ (print (Line.text "mmap") >> throw MyException.io_exception) s
        | some elf ↦ pure elf s
      ]

  -- The magic number of ELF files
  unfoldable pub check_header_integrity : List ℕ → M P (Unit {0})
  unfolding throw
  check_header_integrity elf =
      if str_eq (take 4 elf) (0x7f ∷ b'E' ∷ b'L' ∷ b'F' ∷ [])
      then pure tt
      else throw MyException.elf_exception

  unfoldable pub open_elf : ⦃mem : Memory P⦄ → M P MyElf
  unfolding elf_size open_elf_exe check_header_integrity present throw
  open_elf ⦃mem = mem⦄ s =
      if not (mem.allocates 40 s.process)
      then throw MyException.memory_exception s
      else (do
        size ← elf_size
        elf ← open_elf_exe size
        check_header_integrity elf
        header ← present (ehdr_at elf)
        pure (record { elf = elf; header = header; s_headers = header.e_shoff }))
          s

  -- NULL is not closed.
  unfoldable pub close_elf : Option MyElf → M P (Unit {0})
  unfolding throw
  close_elf none s = pure tt s
  close_elf (some elf) s =
      if files.exe_unmaps s.pid s.process then pure tt s else throw MyException.io_exception s

-- `name` is NULL, or is the name of the section.
unfoldable pub name_matches : MyElf → Option Text → Shdr → Option Bool
unfolding elf_section_name
name_matches elf none sh = some true
name_matches elf (some name) sh = elim (elf_section_name elf.elf elf.header elf.s_headers sh) [
  | none ↦ none
  | some own ↦ some (str_eq name own)
]

module _ {P : Type 0} where
  -- From section `i` on, `left` of them
  unfoldable pub section_loop :
      (left i : ℕ) → MyElf → Option Text → (sh_type : ℕ) → M P MyElfSection
  unfolding present throw name_matches
  section_loop zero i elf name sh_type = throw MyException.elf_exception
  section_loop (suc left) i elf name sh_type = present (shdr_at elf.elf elf.s_headers i) >>= λ sh.
      present (name_matches elf name sh) >>= λ same.
      if same && sh.sh_type == sh_type
      then pure (record { sh = sh; addr = sh.sh_offset })
      else section_loop left (i + 1) elf name sh_type

  unfoldable pub elf_section : MyElf → Option Text → (sh_type : ℕ) → M P MyElfSection
  unfolding section_loop
  elf_section elf name sh_type = section_loop elf.header.e_shnum 0 elf name sh_type

module _ {P : Type 0} ⦃mem : Memory P⦄ (gnu_hash : (l_ld l_addr : ℕ) → M P ℕ) where
  -- The libraries; `links` bounds how many there are. In `struct link_map`, `l_addr` is at 0, `l_ld`
  -- at 16 and `l_next` at 24.
  unfoldable pub link_loop : (links fuel : ℕ) → Text → (map : ℕ) → M P ℕ
  unfolding present le_at get_address_dyn
  link_loop zero fuel function map = λ s. out_of_fuel
  link_loop (suc links) fuel function map =
      if map == 0
      then pure 0
      else (read_memory map 40 >>= λ bytes. present (le_at bytes 0 8) >>= λ l_addr.
          present (le_at bytes 16 8) >>= λ l_ld. present (le_at bytes 24 8) >>= λ l_next.
          gnu_hash l_ld l_addr >>= λ addr.
          if not (addr == 0)
          then pure ((addr + l_addr) % 2 ^ 64)
          else (get_address_dyn fuel function l_ld l_addr >>= λ addr'.
              if not (addr' == 0)
              then pure ((addr' + l_addr) % 2 ^ 64)
              else link_loop links fuel function l_next))

  -- DT_DEBUG is 21; in `struct r_debug`, `r_map` is at 8.
  unfoldable pub search_libraries : (links fuel : ℕ) → Text → (dyn_section base_addr : ℕ) → M P ℕ
  unfolding link_loop get_dynamic_entry present le_at
  search_libraries links fuel function dyn_section base_addr =
      get_dynamic_entry fuel base_addr dyn_section 21 >>= λ r_debug.
      if r_debug == 0
      then (print (Line.text "Libraries are not loaded yet?") >> pure 0)
      else (read_memory r_debug 40 >>= λ bytes.
          present (le_at bytes 8 8) >>= λ r_map. link_loop links fuel function r_map)

  -- ET_DYN is 3.
  unfoldable pub search_dynamic :
      (links fuel : ℕ) → Text → Ehdr → (dyn_section base_addr : ℕ) → M P ℕ
  unfolding search_libraries get_address_dyn calc_address
  search_dynamic links fuel function header dyn_section base_addr =
      if header.e_type == 3
      then (get_address_dyn fuel function dyn_section base_addr >>= λ addr.
          if not (addr == 0)
          then pure (calc_address base_addr addr)
          else search_libraries links fuel function dyn_section base_addr)
      else search_libraries links fuel function dyn_section base_addr

  -- Behind the test of the type of the file
  unfoldable pub search_loaded : ⦃files : Files P⦄ → (links fuel : ℕ) → Text → MyElf → M P ℕ
  unfolding search_dynamic calc_base_address get_dynamic_section present calc_address
  search_loaded links fuel function elf = calc_base_address elf.header >>= λ base.
      present (get_address_exec function elf.elf elf.header elf.s_headers) >>= λ addr.
      if not (addr == 0)
      then pure (calc_address base.0 addr)
      else (get_dynamic_section elf.header base.1 base.0 >>= λ dyn_section.
          search_dynamic links fuel function elf.header dyn_section base.0)

  -- ET_EXEC is 2.
  unfoldable pub get_address_internal : ⦃files : Files P⦄ → (links fuel : ℕ) → Text → MyElf → M P ℕ
  unfolding search_loaded present throw
  get_address_internal links fuel function elf =
      if elf.header.e_type == 2
      then (present (get_address_exec function elf.elf elf.header elf.s_headers) >>= λ addr.
          if not (addr == 0) then pure addr else search_loaded links fuel function elf)
      else if elf.header.e_type == 3
      then search_loaded links fuel function elf
      else throw MyException.elf_exception

unfoldable pub first_of : Option MyException → Option MyException → Option MyException
first_of none later = later
first_of (some e) later = some e

-- The variables of `get_address`
pub record Found : Type 0 where
  pub my_elf : Option MyElf
  pub my_ex : Option MyException
  pub addr : ℕ

module _ {P : Type 0} where
  -- An exception that comes after `my_elf` was set reaches the `finally` with it.
  unfoldable pub searched : MyElf → Res P ℕ → Res P Found
  searched elf (ok addr s) = ok (record { my_elf = some elf; my_ex = none; addr = addr }) s
  searched elf (thrown e s) = ok (record { my_elf = some elf; my_ex = some e; addr = 0 }) s
  searched elf (exited s) = exited s
  searched elf fault = fault
  searched elf out_of_fuel = out_of_fuel

  -- The last statements
  unfoldable pub deliver : Option MyException → (addr : ℕ) → M P ℕ
  unfolding throw
  deliver none addr = pure addr
  deliver (some e) addr = throw e

module _ {P : Type 0} ⦃files : Files P⦄ ⦃mem : Memory P⦄ where
  -- The first `try` and its `finally`
  unfoldable pub search_elf : (internal : MyElf → M P ℕ) → M P Found
  unfolding open_elf searched
  search_elf internal =
      try_catch (open_elf >>= λ elf. λ s. searched elf (internal elf s))
        (λ e. pure (record { my_elf = none; my_ex = some e; addr = 0 }))

  -- The second `try`
  unfoldable pub close_found : Found → M P (Option MyException)
  unfolding close_elf first_of
  close_found f = try_catch (close_elf f.my_elf >> pure f.my_ex) (
      catch_only MyException.io_exception (pure (first_of f.my_ex (some MyException.io_exception)))
        f.my_ex)

  unfoldable pub look_up : (internal : MyElf → M P ℕ) → M P ℕ
  unfolding search_elf close_found deliver
  look_up internal = do f ← search_elf internal; my_ex ← close_found f; deliver my_ex f.addr

  unfoldable pub get_address :
      (gnu_hash : Text → (l_ld l_addr : ℕ) → M P ℕ) → (links fuel : ℕ) → Text → M P ℕ
  unfolding look_up get_address_internal
  get_address gnu_hash links fuel function =
      look_up (get_address_internal (gnu_hash function) links fuel function)
