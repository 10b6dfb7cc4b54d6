-- ===== src/Session/Elf.antt =====
-- The addresses of functions.
use my_dbg.Base.{
  ℕ, zero, suc, ◌+◌, ◌*◌, ◌-◌, ◌/◌, ◌%◌, ◌^◌, List, [], ◌∷◌, Option, none, some, Text, ◌==◌, not,
  drop, length,
}
use my_dbg.Debugger.{MyException}
use my_dbg.Memory.{Memory}
use my_dbg.Elf.{Ehdr, le_at, sym_at, is_func}
use my_dbg.Elf.Tracee.{
  Files, Entry, present, auxv_loop, extract_program_headers, close_auxv, get_auxiliary_vector,
  header_loop, get_program_header, get_base_address, get_dynamic_section, get_dynamic_entry,
  same_name, dyn_loop, get_address_dyn, calc_base_address, calc_address,
}
use my_dbg.Session.Rules.{
  IsSafe, safe, from, then_next, branch, choose, if_at, option_at, IsSafe-pure, IsSafe-fault,
  IsSafe-out_of_fuel, IsSafe-throw,
}
use my_dbg.Session.Reads.{IsSafe-read_memory, IsSafe-read_mem_string}

module _ {P : Type 0} where
  pub IsSafe-present : {A : Type 0} (o : Option A) → IsSafe (present {P = P} o)
  unfolding present
  IsSafe-present none = IsSafe-fault
  IsSafe-present (some a) = IsSafe-pure a

  IsSafe-auxv_loop : (fuel : ℕ) (bytes : List ℕ) → IsSafe (auxv_loop {P = P} fuel bytes)
  unfolding auxv_loop
  IsSafe-auxv_loop zero bytes = IsSafe-throw MyException.io_exception
  IsSafe-auxv_loop (suc fuel) bytes =
      choose (le_at bytes 0 8) (IsSafe-throw MyException.io_exception) λ tag.
        choose (le_at bytes 8 8) (IsSafe-throw MyException.io_exception) λ value.
          branch (tag == 0) (IsSafe-pure (record { tag = tag; value = value } ∷ [])) (
            then_next (IsSafe-auxv_loop fuel (drop 16 bytes))
              (λ more. IsSafe-pure (record { tag = tag; value = value } ∷ more)))

  IsSafe-extract_program_headers :
      (auxv : List Entry) → IsSafe (extract_program_headers {P = P} auxv)
  unfolding extract_program_headers
  IsSafe-extract_program_headers [] = IsSafe-fault
  IsSafe-extract_program_headers (entry ∷ auxv) =
      branch _ (IsSafe-throw MyException.elf_exception)
        (branch _ (IsSafe-pure entry.value) (IsSafe-extract_program_headers auxv))

module _ {P : Type 0} ⦃files : Files P⦄ where
  IsSafe-get_auxiliary_vector : IsSafe (get_auxiliary_vector {P = P})
  unfolding get_auxiliary_vector close_auxv
  IsSafe-get_auxiliary_vector = safe λ s.
      option_at (files.auxv s.pid s.process) (from (IsSafe-throw MyException.io_exception) s)
        λ bytes.
          from
            (then_next (IsSafe-auxv_loop (length bytes) bytes) λ entries. safe λ t.
              if_at (files.closes t.pid t.process) (from (IsSafe-pure entries) t)
                (from (IsSafe-throw MyException.io_exception) t))
            s

module _ {P : Type 0} ⦃mem : Memory P⦄ where
  pub IsSafe-same_name :
      (str : Option Text) (function : Text) → IsSafe (same_name {P = P} str function)
  unfolding same_name
  IsSafe-same_name none function = IsSafe-fault
  IsSafe-same_name (some str) function = IsSafe-pure _

  IsSafe-header_loop :
      (left i p_headers p_type : ℕ) → IsSafe (header_loop {P = P} left i p_headers p_type)
  unfolding header_loop
  IsSafe-header_loop zero i p_headers p_type = IsSafe-throw MyException.elf_exception
  IsSafe-header_loop (suc left) i p_headers p_type =
      then_next (IsSafe-read_memory ((p_headers + 56 * i) % 2 ^ 64) 56) λ ph.
        then_next (IsSafe-present (le_at ph 0 4)) λ type_of.
          branch (type_of == p_type) (IsSafe-present (le_at ph 16 8))
            (IsSafe-header_loop left (i + 1) p_headers p_type)

  pub IsSafe-get_dynamic_entry :
      (fuel base_addr dyn_section d_tag : ℕ)
      → IsSafe (get_dynamic_entry {P = P} fuel base_addr dyn_section d_tag)
  unfolding get_dynamic_entry
  IsSafe-get_dynamic_entry zero base_addr dyn_section d_tag = IsSafe-out_of_fuel
  IsSafe-get_dynamic_entry (suc fuel) base_addr dyn_section d_tag =
      then_next (IsSafe-read_memory dyn_section 16) λ dyn.
        then_next (IsSafe-present (le_at dyn 0 8)) λ tag.
          then_next (IsSafe-present (le_at dyn 8 8)) λ ptr.
            branch (tag == d_tag) (IsSafe-pure (calc_address base_addr ptr)) (
              branch (tag == 0) (IsSafe-throw MyException.elf_exception)
                (IsSafe-get_dynamic_entry fuel base_addr ((dyn_section + 16) % 2 ^ 64) d_tag))

  IsSafe-dyn_loop :
      (fuel left i symtab strtab : ℕ) (function : Text)
      → IsSafe (dyn_loop {P = P} fuel left i symtab strtab function)
  unfolding dyn_loop
  IsSafe-dyn_loop fuel zero i symtab strtab function = IsSafe-pure 0
  IsSafe-dyn_loop fuel (suc left) i symtab strtab function =
      let rest = IsSafe-dyn_loop fuel left (i + 1) symtab strtab function in
      then_next (IsSafe-read_memory ((symtab + 24 * i) % 2 ^ 64) 24) λ bytes.
        then_next (IsSafe-present (sym_at bytes 0)) λ sym. branch (not (is_func sym)) rest (
          then_next (IsSafe-read_mem_string fuel ((strtab + sym.st_name) % 2 ^ 64)) λ str.
            then_next (IsSafe-same_name str function)
              λ same. branch same (IsSafe-pure sym.st_value) rest)

  pub IsSafe-get_address_dyn :
      (fuel : ℕ) (function : Text) (dyn_section base_addr : ℕ)
      → IsSafe (get_address_dyn {P = P} fuel function dyn_section base_addr)
  unfolding get_address_dyn
  IsSafe-get_address_dyn fuel function dyn_section base_addr =
      then_next (IsSafe-get_dynamic_entry fuel base_addr dyn_section 6) λ symtab.
        then_next (IsSafe-get_dynamic_entry fuel base_addr dyn_section 5) λ strtab.
          IsSafe-dyn_loop fuel ((strtab + 2 ^ 64 - symtab) % 2 ^ 64 / 24) 0 symtab strtab function

  pub IsSafe-calc_base_address :
      ⦃files : Files P⦄ → (header : Ehdr) → IsSafe (calc_base_address {P = P} header)
  unfolding calc_base_address get_base_address get_program_header
  IsSafe-calc_base_address header = then_next IsSafe-get_auxiliary_vector λ auxv.
      then_next (IsSafe-extract_program_headers auxv) λ p_headers.
        then_next
          (then_next (IsSafe-header_loop header.e_phnum 0 p_headers 6)
            λ p_vaddr. IsSafe-pure ((p_headers + 2 ^ 64 - p_vaddr) % 2 ^ 64))
          λ base_addr. IsSafe-pure (base_addr, p_headers)

  pub IsSafe-get_dynamic_section :
      (header : Ehdr) (p_headers base_addr : ℕ)
      → IsSafe (get_dynamic_section {P = P} header p_headers base_addr)
  unfolding get_dynamic_section get_program_header
  IsSafe-get_dynamic_section header p_headers base_addr =
      then_next (IsSafe-header_loop header.e_phnum 0 p_headers 2)
        λ p_vaddr. IsSafe-pure ((base_addr + p_vaddr) % 2 ^ 64)
