-- ===== src/Elf.antt =====
-- src/infos/my_elf.c and include/infos/my_elf.h, on the bytes of the executable as `mmap` shows them:
-- sections and symbols at their places in the ELF-64 format.
pub mod Exec
pub mod Missing
pub mod Tracee
pub mod Lookup
use my_dbg.Base.{
  ℕ, zero, suc, ◌+◌, ◌*◌, ◌/◌, ◌%◌, ◌^◌, Bool, true, false, not, ◌&&◌, ◌||◌, List, [], ◌∷◌, Option,
  none, some, Text, ◌==◌, if◌then◌else◌, drop, str_eq,
}

-- `size` bytes at an offset, the lowest one first; `none` is a read outside the bytes.
abbrev pub le_front : (size : ℕ) → List ℕ → Option ℕ
le_front zero bytes = some 0
le_front (suc size) [] = none
le_front (suc size) (b ∷ bytes) = elim (le_front size bytes) [
  | none ↦ none
  | some v ↦ some (b + 256 * v)
]

unfoldable pub le_at : List ℕ → (offset size : ℕ) → Option ℕ
le_at bytes offset size = le_front size (drop offset bytes)

-- The bytes in front of the first 0
abbrev pub c_string : List ℕ → Option Text
c_string [] = none
c_string (b ∷ bytes) =
    let rest = c_string bytes in
    if b == 0 then some [] else elim rest [ none ↦ none | some t ↦ some (b ∷ t) ]

unfoldable pub string_at : List ℕ → (offset : ℕ) → Option Text
string_at bytes offset = c_string (drop offset bytes)

infixl 5 ◌>>=?◌
abbrev pub ◌>>=?◌ : {A B : Type 0} → Option A → (A → Option B) → Option B
none >>=? f = none
some a >>=? f = f a

-- The fields of `Elf64_Ehdr` that the program reads
pub record Ehdr : Type 0 where
  pub e_type : ℕ
  pub e_shoff : ℕ
  pub e_phnum : ℕ
  pub e_shnum : ℕ
  pub e_shstrndx : ℕ

-- Those of `Elf64_Shdr`
pub record Shdr : Type 0 where
  pub sh_name : ℕ
  pub sh_type : ℕ
  pub sh_offset : ℕ
  pub sh_size : ℕ
  pub sh_link : ℕ

-- Those of `Elf64_Sym`
pub record Sym : Type 0 where
  pub st_name : ℕ
  pub st_info : ℕ
  pub st_value : ℕ

-- `struct my_elf`: the mapped bytes, the header, and the offset of the section headers in the bytes
pub record MyElf : Type 0 where
  pub elf : List ℕ
  pub header : Ehdr
  pub s_headers : ℕ

-- `struct my_elf_section`, its `addr` as an offset
pub record MyElfSection : Type 0 where
  pub sh : Shdr
  pub addr : ℕ

unfoldable pub ehdr_at : List ℕ → Option Ehdr
unfolding le_at
ehdr_at elf = le_at elf 16 2 >>=? λ e_type. le_at elf 40 8 >>=? λ e_shoff.
    le_at elf 56 2 >>=? λ e_phnum. le_at elf 60 2 >>=? λ e_shnum. le_at elf 62 2 >>=? λ e_shstrndx.
    some (record {
      e_type = e_type;
      e_shoff = e_shoff;
      e_phnum = e_phnum;
      e_shnum = e_shnum;
      e_shstrndx = e_shstrndx;
    })

-- `s_headers + i`: an entry takes 64 bytes.
unfoldable pub shdr_at : List ℕ → (s_headers i : ℕ) → Option Shdr
unfolding le_at
shdr_at elf s_headers i =
    let at = s_headers + 64 * i in
    le_at elf at 4 >>=? λ sh_name. le_at elf (at + 4) 4 >>=? λ sh_type.
    le_at elf (at + 24) 8 >>=? λ sh_offset. le_at elf (at + 32) 8 >>=? λ sh_size.
    le_at elf (at + 40) 4 >>=? λ sh_link. some (record {
      sh_name = sh_name;
      sh_type = sh_type;
      sh_offset = sh_offset;
      sh_size = sh_size;
      sh_link = sh_link;
    })

-- An `Elf64_Sym` of 24 bytes at an offset
unfoldable pub sym_at : List ℕ → (offset : ℕ) → Option Sym
unfolding le_at
sym_at bytes offset = le_at bytes offset 4 >>=? λ st_name.
    le_at bytes (offset + 4) 1 >>=? λ st_info. le_at bytes (offset + 8) 8 >>=? λ st_value.
    some (record { st_name = st_name; st_info = st_info; st_value = st_value })

-- `ELF64_ST_TYPE(sym->st_info) == STT_FUNC`
unfoldable pub is_func : Sym → Bool
is_func sym = sym.st_info % 16 == 2

unfoldable pub elf_string_section : List ℕ → (s_headers index : ℕ) → Option ℕ
unfolding shdr_at
elf_string_section elf s_headers index = shdr_at elf s_headers index >>=? λ sh. some sh.sh_offset

unfoldable pub elf_symbol_name : List ℕ → (s_headers : ℕ) → Shdr → Sym → Option Text
unfolding elf_string_section string_at
elf_symbol_name elf s_headers sym_header sym =
    elf_string_section elf s_headers sym_header.sh_link >>=? λ strings.
    string_at elf (strings + sym.st_name)

unfoldable pub elf_section_name : List ℕ → Ehdr → (s_headers : ℕ) → Shdr → Option Text
unfolding elf_string_section string_at
elf_section_name elf header s_headers sh =
    elf_string_section elf s_headers header.e_shstrndx >>=? λ strings.
    string_at elf (strings + sh.sh_name)

-- The symbols of one section from the one at index `j` on, `left` of them: the value of the first
-- function with the name, if there is one. The outer `none` is a read outside the file.
unfoldable pub symbol_loop :
    (left j : ℕ) → Text → List ℕ → (s_headers : ℕ) → Shdr → Option (Option ℕ)
unfolding sym_at is_func elf_symbol_name
symbol_loop zero j function elf s_headers sh = some none
symbol_loop (suc left) j function elf s_headers sh =
    let rest = symbol_loop left (j + 1) function elf s_headers sh in
    sym_at elf (sh.sh_offset + 24 * j) >>=? λ sym.
    (if not (is_func sym)
      then rest
      else elf_symbol_name elf s_headers sh sym >>=? λ name.
          (if str_eq name function then some (some sym.st_value) else rest))

-- `sh_type` is SHT_SYMTAB or SHT_DYNSYM.
abbrev pub has_symbols : Shdr → Bool
has_symbols sh = sh.sh_type == 2 || sh.sh_type == 11

unfoldable pub exec_loop : (left i : ℕ) → Text → List ℕ → (s_headers : ℕ) → Option ℕ
unfolding shdr_at symbol_loop
exec_loop zero i function elf s_headers = some 0
exec_loop (suc left) i function elf s_headers =
    let rest = exec_loop left (i + 1) function elf s_headers in
    shdr_at elf s_headers i >>=? λ sh.
    (if not (has_symbols sh)
      then rest
      else symbol_loop (sh.sh_size / 24) 0 function elf s_headers sh >>=? λ found. elim found [
        | some value ↦ some value
        | none ↦ rest
      ])

unfoldable pub get_address_exec : Text → List ℕ → Ehdr → (s_headers : ℕ) → Option ℕ
unfolding exec_loop
get_address_exec function elf header s_headers = exec_loop header.e_shnum 0 function elf s_headers
