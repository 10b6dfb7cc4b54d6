-- ===== src/Tests/Tracee.antt =====
-- A library with a GNU hash table in memory.
use my_dbg.Base.{
  ℕ, ◌-◌, ◌≡◌, refl, List, [], ◌∷◌, ◌++◌, some, true, codes, take, drop, arith, str_eq,
}
use my_dbg.Debugger.{ok}
use my_dbg.Memory.{
  Memory, zeros, read_memory, read_whole, buffer_size, read_mem_string, string_loop, add_char,
}
use my_dbg.Elf.{le_at, sym_at}
use my_dbg.Elf.Tracee.{calc_address}
use my_dbg.Elf.Tracee.Dynamic.{EntryAt, here, there}
use my_dbg.GnuHash.{
  hash_loop, dl_new_hash, without_bit_0, chain_loop, search_bucket, get_address_gnu_hash,
}
use my_dbg.GnuHash.Tracee.{
  config_at, array_at, word_address, symbol_address, bloom_address, buckets_address,
  symhash_address, get_address_gnu,
}
use my_dbg.GnuHash.Tracee.Refines.{in_tracee, HoldsSymbol, HoldsTable, get_address_gnu-Answers}
use my_dbg.Tests.Toy.{Toy, start}
use my_dbg.Tests.Files.{le}
use my_dbg.Tests.Hash.{table}

-- The dynamic section, the configuration, the filter, the bucket, the words, the symbols from number
-- 0 on, and their names
abbrev library : List ℕ
library =
    le 8 5
    ++ le 8 172
    ++ le 8 6
    ++ le 8 100
    ++ le 8 0x6ffffef5
    ++ le 8 64
    ++ zeros 16
    ++ (le 4 1 ++ le 4 1 ++ le 4 1 ++ le 4 0 ++ zeros 8 ++ le 4 1)
    ++ (le 4 177670 ++ le 4 177671 ++ zeros 24)
    ++ (le 4 1 ++ le 1 0x12 ++ zeros 3 ++ le 8 0x4000 ++ zeros 8)
    ++ (le 4 3 ++ le 1 0x12 ++ zeros 3 ++ le 8 0x4010 ++ zeros 8)
    ++ (0 ∷ b'a' ∷ 0 ∷ b'b' ∷ 0 ∷ [])

abbrev library_mem : Memory Toy
library_mem = record {
  opens = λ pid p. true;
  allocates = λ size p. true;
  pread = λ pid addr size p. some (take size (drop (addr - 0x3000) library));
}

strtab : EntryAt ⦃mem = library_mem⦄ start 0x3000 5 172
unfolding read_memory read_whole buffer_size le_at
strtab = record { bytes = _; readable = refl; tag_of = refl; value_of = refl }

symtab : EntryAt ⦃mem = library_mem⦄ start 0x3010 6 100
unfolding read_memory read_whole buffer_size le_at
symtab = record { bytes = _; readable = refl; tag_of = refl; value_of = refl }

hash_table : EntryAt ⦃mem = library_mem⦄ start 0x3020 0x6ffffef5 64
unfolding read_memory read_whole buffer_size le_at
hash_table = record { bytes = _; readable = refl; tag_of = refl; value_of = refl }

symbol_a :
    HoldsSymbol ⦃mem = library_mem⦄ start 3
      (in_tracee table 0x305c)
      0x3064
      0x30ac
      1
      (record { word = 177670; name = codes "a"; value = 0x4000 })
unfolding read_memory read_whole buffer_size le_at sym_at word_address symbol_address
    read_mem_string string_loop add_char
symbol_a = record {
  word_bytes = _;
  word_read = refl;
  word_of = refl;
  entry = _;
  entry_read = refl;
  symbol = _;
  symbol_of = refl;
  value_of = refl;
  name_read = refl;
}

symbol_b :
    HoldsSymbol ⦃mem = library_mem⦄ start 3
      (in_tracee table 0x305c)
      0x3064
      0x30ac
      2
      (record { word = 177671; name = codes "b"; value = 0x4010 })
unfolding read_memory read_whole buffer_size le_at sym_at word_address symbol_address
    read_mem_string string_loop add_char
symbol_b = record {
  word_bytes = _;
  word_read = refl;
  word_of = refl;
  entry = _;
  entry_read = refl;
  symbol = _;
  symbol_of = refl;
  value_of = refl;
  name_read = refl;
}

table_in_memory : HoldsTable ⦃mem = library_mem⦄ start 3 0x3000 0x3000 table
unfolding read_memory read_whole buffer_size config_at array_at calc_address le_at bloom_address
    buckets_address symhash_address
table_in_memory = record {
  symtab = 100;
  strtab = 172;
  at = 64;
  before = (1, 0, 2);
  symtab_entry = there 5 172 strtab (λ e. omega arith) (λ e. omega arith) (here symtab);
  strtab_entry = here strtab;
  hash_entry =
      there 5 172 strtab (λ e. omega arith) (λ e. omega arith)
        (there 6 100 symtab (λ e. omega arith) (λ e. omega arith) (here hash_table));
  near = (omega arith, omega arith, omega arith);
  conf_bytes = _;
  conf_read = refl;
  conf_of = refl;
  bloom_bytes = _;
  bloom_read = refl;
  bloom_of = refl;
  bucket_bytes = _;
  bucket_read = refl;
  bucket_of = refl;
  symbols = (symbol_a, (symbol_b, tt));
}

get_address_gnu-Answers_example :
    get_address_gnu ⦃mem = library_mem⦄ 2 3 (codes "a") 0x3000 0x3000 start ≡ ok 0x4000 start
unfolding get_address_gnu_hash search_bucket chain_loop dl_new_hash hash_loop without_bit_0 str_eq
get_address_gnu-Answers_example =
    get_address_gnu-Answers ⦃mem = library_mem⦄ start 2 3 (codes "a") 0x3000 0x3000 table
      table_in_memory (omega arith) (omega arith)
