-- ===== src/Elf/Tracee.antt =====
-- src/infos/my_elf.c: what it reads in the tracee, from the auxiliary vector to the dynamic section.
pub mod Dynamic
use my_dbg.Base.{
  ℕ, zero, suc, ◌+◌, ◌-◌, ◌*◌, ◌/◌, ◌%◌, ◌^◌, Bool, true, false, not, List, [], ◌∷◌, Option, none,
  some, Text, ltb, ◌==◌, if◌then◌else◌, drop, length, str_eq,
}
use my_dbg.Debugger.{MyException, Dbg, M, fault, out_of_fuel, pure, ◌>>=◌, ◌>>◌}
use my_dbg.Debugger.Exceptions.{throw}
use my_dbg.Memory.{Memory, read_memory, read_mem_string}
use my_dbg.Elf.{Ehdr, Sym, le_at, sym_at, is_func}

-- What the program asks of the operating system about the files of the process: the bytes of
-- /proc/<pid>/auxv, whether the file that was read can be closed, the size of /proc/<pid>/exe, and
-- its bytes in memory; `none` is a failure.
pub record Files (P : Type 0) : Type 0 where
  pub auxv : (pid : ℕ) → P → Option (List ℕ)
  pub closes : (pid : ℕ) → P → Bool
  pub exe_size : (pid : ℕ) → P → Option ℕ
  pub exe_opens : (pid : ℕ) → P → Bool
  pub exe_maps : (pid size : ℕ) → P → Option (List ℕ)
  pub exe_unmaps : (pid : ℕ) → P → Bool

-- `Elf64_auxv_t`, and `Elf64_Dyn`
pub record Entry : Type 0 where
  pub tag : ℕ
  pub value : ℕ

module _ {P : Type 0} where
  -- A value that is to be there
  unfoldable pub present : {A : Type 0} → Option A → M P A
  present none = λ s. fault
  present (some a) = pure a

  -- The loop of `get_auxiliary_vector` on the bytes of the file. Each round takes 16 of them, so
  -- that their number is fuel enough.
  unfoldable pub auxv_loop : (fuel : ℕ) → List ℕ → M P (List Entry)
  unfolding le_at throw
  auxv_loop zero bytes = throw MyException.io_exception
  auxv_loop (suc fuel) bytes = elim (le_at bytes 0 8) [
    | none ↦ throw MyException.io_exception
    | some tag ↦ elim (le_at bytes 8 8) [
      | none ↦ throw MyException.io_exception
      | some value ↦
          let entry : Entry = record { tag = tag; value = value } in
          let rest = auxv_loop fuel (drop 16 bytes) in
          if tag == 0 then pure (entry ∷ []) else (rest >>= λ more. pure (entry ∷ more))
    ]
  ]

  -- AT_PHDR is 3, and the entry that ends the vector has the type 0.
  unfoldable pub extract_program_headers : List Entry → M P ℕ
  unfolding throw
  extract_program_headers [] = λ s. fault
  extract_program_headers (entry ∷ auxv) =
      let rest = extract_program_headers auxv in
      if entry.tag == 0
      then throw MyException.elf_exception
      else if entry.tag == 3
      then pure entry.value
      else rest

  unfoldable pub close_auxv : ⦃files : Files P⦄ → List Entry → M P (List Entry)
  unfolding throw
  close_auxv ⦃files = files⦄ entries s =
      if files.closes s.pid s.process then pure entries s else throw MyException.io_exception s

  unfoldable pub get_auxiliary_vector : ⦃files : Files P⦄ → M P (List Entry)
  unfolding throw auxv_loop close_auxv
  get_auxiliary_vector ⦃files = files⦄ s = elim (files.auxv s.pid s.process) [
    | none ↦ throw MyException.io_exception s
    | some bytes ↦ (auxv_loop (length bytes) bytes >>= λ entries. close_auxv entries) s
  ]

-- A NULL address stays, and one below the base is an offset.
unfoldable pub calc_address : (base_addr addr : ℕ) → ℕ
calc_address base_addr addr =
    if addr == 0 then 0 else if ltb addr base_addr then (base_addr + addr) % 2 ^ 64 else addr

module _ {P : Type 0} ⦃mem : Memory P⦄ where
  -- The program header of the type among `left` ones, from number `i` on: its `p_vaddr`. One takes
  -- 56 bytes.
  unfoldable pub header_loop : (left i p_headers p_type : ℕ) → M P ℕ
  unfolding present le_at throw
  header_loop zero i p_headers p_type = throw MyException.elf_exception
  header_loop (suc left) i p_headers p_type =
      read_memory ((p_headers + 56 * i) % 2 ^ 64) 56 >>= λ ph. present (le_at ph 0 4) >>= λ type_of.
      if type_of == p_type
      then present (le_at ph 16 8)
      else header_loop left (i + 1) p_headers p_type

  unfoldable pub get_program_header : Ehdr → (p_headers p_type : ℕ) → M P ℕ
  unfolding header_loop
  get_program_header header p_headers p_type = header_loop header.e_phnum 0 p_headers p_type

  -- PT_PHDR is 6.
  unfoldable pub get_base_address : Ehdr → (p_headers : ℕ) → M P ℕ
  unfolding get_program_header
  get_base_address header p_headers = get_program_header header p_headers 6 >>= λ p_vaddr.
      pure ((p_headers + 2 ^ 64 - p_vaddr) % 2 ^ 64)

  -- PT_DYNAMIC is 2.
  unfoldable pub get_dynamic_section : Ehdr → (p_headers base_addr : ℕ) → M P ℕ
  unfolding get_program_header
  get_dynamic_section header p_headers base_addr =
      get_program_header header p_headers 2 >>= λ p_vaddr. pure ((base_addr + p_vaddr) % 2 ^ 64)

  unfoldable pub get_dynamic_entry : (fuel base_addr dyn_section d_tag : ℕ) → M P ℕ
  unfolding present le_at throw calc_address
  get_dynamic_entry zero base_addr dyn_section d_tag = λ s. out_of_fuel
  get_dynamic_entry (suc fuel) base_addr dyn_section d_tag = read_memory dyn_section 16 >>= λ dyn.
      present (le_at dyn 0 8) >>= λ tag. present (le_at dyn 8 8) >>= λ ptr.
      if tag == d_tag
      then pure (calc_address base_addr ptr)
      else if tag == 0
      then throw MyException.elf_exception
      else get_dynamic_entry fuel base_addr ((dyn_section + 16) % 2 ^ 64) d_tag

  -- `!strcmp(str, function)`, where `str` may be NULL
  unfoldable pub same_name : Option Text → Text → M P Bool
  same_name none function = λ s. fault
  same_name (some str) function = pure (str_eq str function)

  -- The symbols from number `i` on, `left` of them; `fuel` bounds the length of their names.
  unfoldable pub dyn_loop : (fuel left i symtab strtab : ℕ) → Text → M P ℕ
  unfolding present sym_at is_func same_name
  dyn_loop fuel zero i symtab strtab function = pure 0
  dyn_loop fuel (suc left) i symtab strtab function =
      read_memory ((symtab + 24 * i) % 2 ^ 64) 24 >>= λ bytes. present (sym_at bytes 0) >>= λ sym.
      if not (is_func sym)
      then dyn_loop fuel left (i + 1) symtab strtab function
      else (read_mem_string fuel ((strtab + sym.st_name) % 2 ^ 64) >>= λ str.
          same_name str function >>= λ same.
          if same then pure sym.st_value else dyn_loop fuel left (i + 1) symtab strtab function)

  -- DT_SYMTAB is 6, and DT_STRTAB 5. The difference of the addresses is made unsigned.
  unfoldable pub get_address_dyn : (fuel : ℕ) → Text → (dyn_section base_addr : ℕ) → M P ℕ
  unfolding get_dynamic_entry dyn_loop
  get_address_dyn fuel function dyn_section base_addr =
      get_dynamic_entry fuel base_addr dyn_section 6 >>= λ symtab.
      get_dynamic_entry fuel base_addr dyn_section 5 >>= λ strtab.
      dyn_loop fuel ((strtab + 2 ^ 64 - symtab) % 2 ^ 64 / 24) 0 symtab strtab function

  -- The base address and the address of the program headers
  unfoldable pub calc_base_address : ⦃files : Files P⦄ → Ehdr → M P (ℕ × ℕ)
  unfolding get_auxiliary_vector extract_program_headers get_base_address
  calc_base_address header = get_auxiliary_vector >>= λ auxv.
      extract_program_headers auxv >>= λ p_headers.
      get_base_address header p_headers >>= λ base_addr. pure (base_addr, p_headers)
