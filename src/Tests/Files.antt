-- ===== src/Tests/Files.antt =====
-- A small executable, and a dynamic section in memory.
use my_dbg.Base.{
  str_eq, ℕ, zero, suc, ◌-◌, ◌/◌, ◌%◌, ◌≡◌, refl, true, false, List, [], ◌∷◌, ◌++◌, none, some,
  Text, codes, arith, take, drop,
}
use my_dbg.Debugger.{MyException, ok, thrown, M, pure}
use my_dbg.Debugger.Exceptions.{throw}
use my_dbg.Debugger.Exceptions.Tries.{enter, leave}
use my_dbg.Memory.{Memory, zeros, read_memory, read_whole, buffer_size}
use my_dbg.Elf.{
  Ehdr, MyElf, le_at, ehdr_at, shdr_at, sym_at, is_func, string_at, elf_string_section,
  elf_symbol_name, symbol_loop, exec_loop, get_address_exec,
}
use my_dbg.Elf.Missing.{Answers, get_address_exec-Answers}
use my_dbg.Elf.Tracee.{Files, present, get_dynamic_entry, calc_address}
use my_dbg.Elf.Tracee.Dynamic.{EntryAt, here, there, get_dynamic_entry-FirstEntry}
use my_dbg.Elf.Lookup.{
  open_elf, elf_size, open_elf_exe, check_header_integrity, get_address_internal, get_address,
}
use my_dbg.Elf.Lookup.Closing.{get_address-thrown}
use my_dbg.Tests.Toy.{Toy, start}

-- `value` in `size` bytes
abbrev pub le : (size value : ℕ) → List ℕ
le zero value = []
le (suc size) value = value % 256 ∷ le size (value / 256)

abbrev section : (sh_type sh_offset sh_size sh_link : ℕ) → List ℕ
section sh_type sh_offset sh_size sh_link =
    le 4 0 ++ le 4 sh_type ++ zeros 16 ++ le 8 sh_offset ++ le 8 sh_size ++ le 4 sh_link ++ zeros 20

-- Two section headers, a symbol table of one symbol and the names "" and "f"
abbrev image : List ℕ
image =
    section 2 128 24 1
    ++ section 3 152 3 0
    ++ (le 4 1 ++ le 1 0x12 ++ zeros 3 ++ le 8 0x1139 ++ zeros 8)
    ++ (0 ∷ b'f' ∷ 0 ∷ [])

abbrev header : Ehdr
header = record { e_type = 3; e_shoff = 0; e_phnum = 0; e_shnum = 2; e_shstrndx = 1 }

finds_f : get_address_exec (codes "f") image header 0 ≡ some 0x1139
unfolding get_address_exec exec_loop shdr_at le_at symbol_loop sym_at is_func elf_symbol_name
    elf_string_section string_at str_eq
finds_f = refl

get_address_exec-Answers_example : Answers image 0 (codes "f") 2 0x1139
get_address_exec-Answers_example =
    get_address_exec-Answers (codes "f") image header 0 0x1139 finds_f

-- A dynamic section at 0x3000 with DT_STRTAB and DT_SYMTAB
abbrev dynamic : List ℕ
dynamic = le 8 5 ++ le 8 0x400 ++ le 8 6 ++ le 8 0x300 ++ zeros 16

abbrev toy_mem : Memory Toy
toy_mem = record {
  opens = λ pid p. true;
  allocates = λ size p. true;
  pread = λ pid addr size p. some (take size (drop (addr - 0x3000) dynamic));
}

strtab : EntryAt ⦃mem = toy_mem⦄ start 0x3000 5 0x400
unfolding read_memory read_whole buffer_size le_at
strtab = record { bytes = _; readable = refl; tag_of = refl; value_of = refl }

symtab : EntryAt ⦃mem = toy_mem⦄ start 0x3010 6 0x300
unfolding read_memory read_whole buffer_size le_at
symtab = record { bytes = _; readable = refl; tag_of = refl; value_of = refl }

get_dynamic_entry-FirstEntry_example :
    get_dynamic_entry ⦃mem = toy_mem⦄ 2 0x55_0000 0x3000 6 start
    ≡ ok (calc_address 0x55_0000 0x300) start
get_dynamic_entry-FirstEntry_example =
    get_dynamic_entry-FirstEntry ⦃mem = toy_mem⦄ start 2 0x55_0000 0x3000 6 0x300 1
      (there 5 0x400 strtab (λ e. omega arith) (λ e. omega arith) (here symtab)) (omega arith)

-- A relocatable file, of which the program finds nothing
abbrev object_file : List ℕ
object_file = 0x7f ∷ b'E' ∷ b'L' ∷ b'F' ∷ (zeros 12 ++ le 2 1 ++ zeros 46)

abbrev pub object_files : Files Toy
object_files = record {
  auxv = λ pid p. none;
  closes = λ pid p. true;
  exe_size = λ pid p. some 64;
  exe_opens = λ pid p. true;
  exe_maps = λ pid size p. some object_file;
  exe_unmaps = λ pid p. false;
}

abbrev object_elf : MyElf
object_elf = record {
  elf = object_file;
  header = record { e_type = 1; e_shoff = 0; e_phnum = 0; e_shnum = 0; e_shstrndx = 0 };
  s_headers = 0;
}

opens : open_elf ⦃files = object_files⦄ ⦃mem = toy_mem⦄ (enter start) ≡ ok object_elf (enter start)
unfolding open_elf elf_size open_elf_exe check_header_integrity present ehdr_at le_at str_eq
opens = refl

-- The search of the hash tables finds nothing.
abbrev no_hash : Text → (l_ld l_addr : ℕ) → M Toy ℕ
no_hash function l_ld l_addr = pure 0

refused :
    get_address_internal ⦃mem = toy_mem⦄
      (no_hash (codes "f"))
      ⦃files = object_files⦄
      1
      1
      (codes "f")
      object_elf
      (enter start)
    ≡ thrown MyException.elf_exception (enter start)
unfolding get_address_internal throw
refused = refl

get_address-thrown_example :
    get_address ⦃files = object_files⦄ ⦃mem = toy_mem⦄ no_hash 1 1 (codes "f") start
    ≡ thrown MyException.elf_exception (leave (enter start))
get_address-thrown_example =
    get_address-thrown ⦃files = object_files⦄ ⦃mem = toy_mem⦄ no_hash 1 1 (codes "f") start
      (enter start) (enter start) object_elf MyException.elf_exception opens refused (omega arith)
