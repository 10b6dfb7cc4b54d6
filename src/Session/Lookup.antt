-- ===== src/Session/Lookup.antt =====
-- The executable, the address of a function by its name, and the lines of the source.
use my_dbg.Base.{
  ℕ, zero, suc, ◌+◌, ◌%◌, ◌^◌, not, ◌&&◌, List, [], ◌∷◌, Option, none, some, Text, ◌==◌, ltb,
  str_eq, take,
}
use my_dbg.Debugger.Exceptions.{throw}
use my_dbg.Debugger.{
  Dbg, print, ◌>>◌, MyException, Line, M, Res, ok, thrown, exited, fault, out_of_fuel,
}
use my_dbg.Memory.{Memory}
use my_dbg.Elf.{Ehdr, MyElf, le_at, ehdr_at, shdr_at, get_address_exec}
use my_dbg.Elf.Tracee.{Files, calc_address}
use my_dbg.Elf.Lookup.{
  elf_size, open_elf_exe, check_header_integrity, open_elf, close_elf, name_matches, section_loop,
  elf_section, link_loop, search_libraries, search_dynamic, search_loaded, get_address_internal,
  searched, deliver, search_elf, close_found, look_up, get_address,
}
use my_dbg.Session.Rules.{
  IsSafe, safe, from, at, lasts, Lasts, then_next, branch, if_at, option_at, IsSafe-pure,
  IsSafe-out_of_fuel, IsSafe-throw, IsSafe-print, IsSafe-try, IsSafe-catch_only,
}
use my_dbg.Session.Reads.{IsSafe-read_memory}
use my_dbg.Session.Elf.{
  IsSafe-present, IsSafe-get_dynamic_entry, IsSafe-get_address_dyn, IsSafe-calc_base_address,
  IsSafe-get_dynamic_section,
}

module _ {P : Type 0} ⦃files : Files P⦄ where
  IsSafe-elf_size : IsSafe (elf_size {P = P})
  unfolding elf_size
  IsSafe-elf_size = safe λ s.
      option_at (files.exe_size s.pid s.process) (from (IsSafe-throw MyException.io_exception) s)
        λ size.
          if_at (ltb size 64) (from (IsSafe-throw MyException.elf_exception) s)
            (from (IsSafe-pure size) s)

  IsSafe-io :
      {A : Type 0} (l : Line) → IsSafe {P = P} {A = A} (print l >> throw MyException.io_exception)
  IsSafe-io l = then_next (IsSafe-print l) λ _. IsSafe-throw MyException.io_exception

  IsSafe-open_elf_exe : (size : ℕ) → IsSafe (open_elf_exe {P = P} size)
  unfolding open_elf_exe
  IsSafe-open_elf_exe size = safe λ s.
      if_at (not (files.exe_opens s.pid s.process)) (from (IsSafe-io (Line.text "open")) s) (
        option_at (files.exe_maps s.pid size s.process) (from (IsSafe-io (Line.text "mmap")) s)
          (λ elf. from (IsSafe-pure elf) s))

  IsSafe-check_header_integrity : (elf : List ℕ) → IsSafe (check_header_integrity {P = P} elf)
  unfolding check_header_integrity
  IsSafe-check_header_integrity elf =
      branch (str_eq (take 4 elf) (0x7f ∷ b'E' ∷ b'L' ∷ b'F' ∷ [])) (IsSafe-pure tt)
        (IsSafe-throw MyException.elf_exception)

  IsSafe-open_elf : ⦃mem : Memory P⦄ → IsSafe (open_elf {P = P})
  unfolding open_elf
  IsSafe-open_elf ⦃mem = mem⦄ = safe λ s.
      if_at (not (mem.allocates 40 s.process)) (from (IsSafe-throw MyException.memory_exception) s)
        (from
          (then_next IsSafe-elf_size λ size. then_next (IsSafe-open_elf_exe size) λ elf.
            then_next (IsSafe-check_header_integrity elf)
              λ _. then_next (IsSafe-present (ehdr_at elf)) λ header. IsSafe-pure _)
          s)

  IsSafe-close_elf : (elf : Option MyElf) → IsSafe (close_elf {P = P} elf)
  unfolding close_elf
  IsSafe-close_elf none = safe λ s. from (IsSafe-pure tt) s
  IsSafe-close_elf (some elf) = safe λ s.
      if_at (files.exe_unmaps s.pid s.process) (from (IsSafe-pure tt) s)
        (from (IsSafe-throw MyException.io_exception) s)

module _ {P : Type 0} where
  IsSafe-section_loop :
      (left i : ℕ) (elf : MyElf) (name : Option Text) (sh_type : ℕ)
      → IsSafe (section_loop {P = P} left i elf name sh_type)
  unfolding section_loop
  IsSafe-section_loop zero i elf name sh_type = IsSafe-throw MyException.elf_exception
  IsSafe-section_loop (suc left) i elf name sh_type =
      then_next (IsSafe-present (shdr_at elf.elf elf.s_headers i)) λ sh.
        then_next (IsSafe-present (name_matches elf name sh)) λ same.
          branch (same && sh.sh_type == sh_type) (IsSafe-pure _)
            (IsSafe-section_loop left (i + 1) elf name sh_type)

  pub IsSafe-elf_section :
      (elf : MyElf) (name : Option Text) (sh_type : ℕ)
      → IsSafe (elf_section {P = P} elf name sh_type)
  unfolding elf_section
  IsSafe-elf_section elf name sh_type = IsSafe-section_loop elf.header.e_shnum 0 elf name sh_type

  Lasts-searched : (s : Dbg P) (elf : MyElf) (r : Res P ℕ) → Lasts s r → Lasts s (searched elf r)
  unfolding searched
  Lasts-searched s elf (ok addr t) l = l
  Lasts-searched s elf (thrown e t) l = l
  Lasts-searched s elf (exited t) l = l
  Lasts-searched s elf fault l = tt
  Lasts-searched s elf out_of_fuel l = tt

  IsSafe-searched : (elf : MyElf) (m : M P ℕ) → IsSafe m → IsSafe (λ s. searched elf (m s))
  IsSafe-searched elf m h = safe λ s. at (Lasts-searched s elf (m s) (lasts h s))

  IsSafe-deliver : (ex : Option MyException) (addr : ℕ) → IsSafe (deliver {P = P} ex addr)
  unfolding deliver
  IsSafe-deliver none addr = IsSafe-pure addr
  IsSafe-deliver (some e) addr = IsSafe-throw e

module _ {P : Type 0} ⦃files : Files P⦄ ⦃mem : Memory P⦄ where
  pub IsSafe-look_up :
      {internal : MyElf → M P ℕ}
      → ((elf : MyElf) → IsSafe (internal elf))
      → IsSafe (look_up internal)
  unfolding look_up search_elf close_found
  IsSafe-look_up h =
      then_next
        (IsSafe-try (then_next IsSafe-open_elf λ elf. IsSafe-searched elf _ (h elf))
          (λ e. IsSafe-pure _))
        λ f.
          then_next
            (IsSafe-try (then_next (IsSafe-close_elf f.my_elf) λ _. IsSafe-pure f.my_ex)
              (IsSafe-catch_only MyException.io_exception f.my_ex (IsSafe-pure _)))
            λ my_ex. IsSafe-deliver my_ex f.addr

module _ {P : Type 0} ⦃mem : Memory P⦄ (gnu_hash : (l_ld l_addr : ℕ) → M P ℕ)
    (gnu : (l_ld l_addr : ℕ) → IsSafe (gnu_hash l_ld l_addr)) where
  IsSafe-link_loop :
      (links fuel : ℕ) (function : Text) (map : ℕ)
      → IsSafe (link_loop gnu_hash links fuel function map)
  unfolding link_loop
  IsSafe-link_loop zero fuel function map = IsSafe-out_of_fuel
  IsSafe-link_loop (suc links) fuel function map = branch (map == 0) (IsSafe-pure 0) (
      then_next (IsSafe-read_memory map 40) λ bytes.
        then_next (IsSafe-present (le_at bytes 0 8)) λ l_addr.
          then_next (IsSafe-present (le_at bytes 16 8)) λ l_ld.
            then_next (IsSafe-present (le_at bytes 24 8)) λ l_next.
              then_next (gnu l_ld l_addr) λ addr.
                branch (not (addr == 0)) (IsSafe-pure ((addr + l_addr) % 2 ^ 64)) (
                  then_next (IsSafe-get_address_dyn fuel function l_ld l_addr) λ addr'.
                    branch (not (addr' == 0)) (IsSafe-pure ((addr' + l_addr) % 2 ^ 64))
                      (IsSafe-link_loop links fuel function l_next)))

  IsSafe-search_libraries :
      (links fuel : ℕ) (function : Text) (dyn_section base_addr : ℕ)
      → IsSafe (search_libraries gnu_hash links fuel function dyn_section base_addr)
  unfolding search_libraries
  IsSafe-search_libraries links fuel function dyn_section base_addr =
      then_next (IsSafe-get_dynamic_entry fuel base_addr dyn_section 21) λ r_debug.
        branch (r_debug == 0)
          (then_next (IsSafe-print (Line.text "Libraries are not loaded yet?")) λ _. IsSafe-pure 0)
          (then_next (IsSafe-read_memory r_debug 40) λ bytes.
            then_next (IsSafe-present (le_at bytes 8 8))
              λ r_map. IsSafe-link_loop links fuel function r_map)

  IsSafe-search_dynamic :
      (links fuel : ℕ) (function : Text) (header : Ehdr) (dyn_section base_addr : ℕ)
      → IsSafe (search_dynamic gnu_hash links fuel function header dyn_section base_addr)
  unfolding search_dynamic
  IsSafe-search_dynamic links fuel function header dyn_section base_addr =
      let libraries = IsSafe-search_libraries links fuel function dyn_section base_addr in
      branch (header.e_type == 3)
        (then_next (IsSafe-get_address_dyn fuel function dyn_section base_addr)
          λ addr. branch (not (addr == 0)) (IsSafe-pure (calc_address base_addr addr)) libraries)
        libraries

  IsSafe-search_loaded :
      ⦃files : Files P⦄
      → (links fuel : ℕ) (function : Text) (elf : MyElf)
      → IsSafe (search_loaded gnu_hash links fuel function elf)
  unfolding search_loaded
  IsSafe-search_loaded links fuel function elf =
      then_next (IsSafe-calc_base_address elf.header) λ base.
        then_next (IsSafe-present (get_address_exec function elf.elf elf.header elf.s_headers))
          λ addr. branch (not (addr == 0)) (IsSafe-pure (calc_address base.0 addr)) (
            then_next (IsSafe-get_dynamic_section elf.header base.1 base.0) λ dyn_section.
              IsSafe-search_dynamic links fuel function elf.header dyn_section base.0)

  IsSafe-get_address_internal :
      ⦃files : Files P⦄
      → (links fuel : ℕ) (function : Text) (elf : MyElf)
      → IsSafe (get_address_internal gnu_hash links fuel function elf)
  unfolding get_address_internal
  IsSafe-get_address_internal links fuel function elf =
      let loaded = IsSafe-search_loaded links fuel function elf in
      branch (elf.header.e_type == 2)
        (then_next (IsSafe-present (get_address_exec function elf.elf elf.header elf.s_headers))
          λ addr. branch (not (addr == 0)) (IsSafe-pure addr) loaded)
        (branch (elf.header.e_type == 3) loaded (IsSafe-throw MyException.elf_exception))

module _ {P : Type 0} ⦃files : Files P⦄ ⦃mem : Memory P⦄ where
  pub IsSafe-get_address :
      (gnu_hash : Text → (l_ld l_addr : ℕ) → M P ℕ)
      → ((function : Text) (l_ld l_addr : ℕ) → IsSafe (gnu_hash function l_ld l_addr))
      → (links fuel : ℕ) (function : Text) → IsSafe (get_address gnu_hash links fuel function)
  unfolding get_address
  IsSafe-get_address gnu_hash gnu links fuel function =
      IsSafe-look_up
        (IsSafe-get_address_internal (gnu_hash function) (gnu function) links fuel function)
