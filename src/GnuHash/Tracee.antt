-- ===== src/GnuHash/Tracee.antt =====
-- src/infos/gnu_hash_table.c, on the tracee's memory: the tables are read as `get_gnu_hash` reads them,
-- and each round of the loop reads its word, its symbol and the name.
pub mod Refines
use Prim.Native.Nat.{bit_and}
use my_dbg.Base.{
  ℕ, zero, suc, ◌+◌, ◌-◌, ◌*◌, ◌/◌, ◌%◌, ◌^◌, Bool, not, List, [], ◌∷◌, Option, none, some, Text,
  ◌==◌, ltb, if◌then◌else◌, get_elem?, drop,
}
use my_dbg.Debugger.{Dbg, fault, out_of_fuel, M, pure, ◌>>=◌}
use my_dbg.Memory.{Memory, read_memory, read_mem_string}
use my_dbg.Elf.{le_at, sym_at, ◌>>=?◌}
use my_dbg.Elf.Tracee.{present, same_name, get_dynamic_entry}
use my_dbg.GnuHash.{Config, dl_new_hash, without_bit_0, bloom_bits}

-- `struct my_gnu_ht`: the copies, and the address of the words
pub record Ht : Type 0 where
  pub conf : Config
  pub bloom : List ℕ
  pub buckets : List ℕ
  pub symhash : ℕ

-- A copy of `struct my_gnu_ht_config`
unfoldable pub config_at : List ℕ → Option Config
unfolding le_at
config_at bytes = le_at bytes 0 4 >>=? λ nbuckets. le_at bytes 4 4 >>=? λ symndx.
    le_at bytes 8 4 >>=? λ maskwords. le_at bytes 12 4 >>=? λ shift2.
    some (record { nbuckets = nbuckets; symndx = symndx; maskwords = maskwords; shift2 = shift2 })

-- The elements of an array of `count` numbers of `size` bytes
unfoldable pub array_at : (size count : ℕ) → List ℕ → Option (List ℕ)
unfolding le_at
array_at size zero bytes = some []
array_at size (suc count) bytes = le_at bytes 0 size >>=? λ first.
    array_at size count (drop size bytes) >>=? λ more. some (first ∷ more)

-- Where symbol `i` has its word, `ht.symhash + i - ht.conf->symndx`, and its entry, `symtab + i`
unfoldable pub word_address : Ht → (i : ℕ) → ℕ
word_address ht i = (ht.symhash + 4 * i + 2 ^ 64 - 4 * ht.conf.symndx) % 2 ^ 64

unfoldable pub symbol_address : (symtab i : ℕ) → ℕ
symbol_address symtab i = (symtab + 24 * i) % 2 ^ 64

-- The filter stands behind the configuration, the buckets behind the filter, the words behind these.
unfoldable pub bloom_address : (at : ℕ) → ℕ
bloom_address at = (at + 16) % 2 ^ 64

unfoldable pub buckets_address : (at : ℕ) → Config → ℕ
unfolding bloom_address
buckets_address at conf = (bloom_address at + 8 * conf.maskwords) % 2 ^ 64

unfoldable pub symhash_address : (at : ℕ) → Config → ℕ
unfolding buckets_address
symhash_address at conf = (buckets_address at conf + 4 * conf.nbuckets) % 2 ^ 64

module _ {P : Type 0} ⦃mem : Memory P⦄ where
  -- DT_GNU_HASH is 0x6ffffef5.
  unfoldable pub get_gnu_hash : (fuel dyn_section base_addr : ℕ) → M P Ht
  unfolding get_dynamic_entry present config_at array_at symhash_address
  get_gnu_hash fuel dyn_section base_addr =
      get_dynamic_entry fuel base_addr dyn_section 0x6ffffef5 >>= λ at.
      read_memory at 16 >>= λ conf_bytes. present (config_at conf_bytes) >>= λ conf.
      read_memory (bloom_address at) (8 * conf.maskwords) >>= λ bloom_bytes.
      present (array_at 8 conf.maskwords bloom_bytes) >>= λ bloom.
      read_memory (buckets_address at conf) (4 * conf.nbuckets) >>= λ bucket_bytes.
      present (array_at 4 conf.nbuckets bucket_bytes) >>= λ buckets.
      pure (record {
        conf = conf;
        bloom = bloom;
        buckets = buckets;
        symhash = symhash_address at conf;
      })

  -- The loop, from symbol `i` on; `rounds` bounds how many there are, and `fuel` the length of their
  -- names.
  unfoldable pub symbol_rounds : (rounds fuel : ℕ) → Ht → (hash i symtab strtab : ℕ) → Text → M P ℕ
  unfolding present sym_at same_name without_bit_0 word_address symbol_address
  symbol_rounds zero fuel ht hash i symtab strtab function = λ s. out_of_fuel
  symbol_rounds (suc rounds) fuel ht hash i symtab strtab function =
      read_memory (word_address ht i) 4 >>= λ word. present (le_at word 0 4) >>= λ h.
      read_memory (symbol_address symtab i) 24 >>= λ entry. present (sym_at entry 0) >>= λ sym.
      (let rest =
          if h % 2 == 1
          then pure 0
          else symbol_rounds rounds fuel ht hash ((i + 1) % 2 ^ 32) symtab strtab function in
        if hash == without_bit_0 h
        then (read_mem_string fuel ((strtab + sym.st_name) % 2 ^ 64) >>= λ str.
            same_name str function >>= λ same. if same then pure sym.st_value else rest)
        else rest)

  -- From the bucket of the hash on
  unfoldable pub look_in_bucket : (rounds fuel : ℕ) → Ht → (hash symtab strtab : ℕ) → Text → M P ℕ
  unfolding present symbol_rounds
  look_in_bucket rounds fuel ht hash symtab strtab function =
      if ht.conf.nbuckets == 0
      then (λ s. fault)
      else (present (get_elem? ht.buckets (hash % ht.conf.nbuckets)) >>= λ i.
          if ltb i ht.conf.symndx
          then pure 0
          else symbol_rounds rounds fuel ht hash i symtab strtab function)

  -- Behind the test that the filter is in use; a shift of a `uint32_t` by 32 or more is undefined.
  unfoldable pub look_filtered : (rounds fuel : ℕ) → Ht → (hash symtab strtab : ℕ) → Text → M P ℕ
  unfolding present look_in_bucket bloom_bits
  look_filtered rounds fuel ht hash symtab strtab function =
      present (get_elem? ht.bloom (bit_and (hash / 64) ((ht.conf.maskwords + 2 ^ 32 - 1) % 2 ^ 32)))
      >>= λ mask.
          if not (ltb ht.conf.shift2 32)
          then (λ s. fault)
          else if bloom_bits hash ht.conf.shift2 mask
          then look_in_bucket rounds fuel ht hash symtab strtab function
          else pure 0

  unfoldable pub look_in_table : (rounds fuel : ℕ) → Ht → (hash symtab strtab : ℕ) → Text → M P ℕ
  unfolding present look_filtered
  look_in_table rounds fuel ht hash symtab strtab function =
      if not (ht.conf.maskwords == 1)
      then look_filtered rounds fuel ht hash symtab strtab function
      else (present (get_elem? ht.bloom 0) >>= λ first.
          if not (first == 0)
          then look_filtered rounds fuel ht hash symtab strtab function
          else look_in_bucket rounds fuel ht hash symtab strtab function)

  -- `get_address_gnu_hash`; DT_SYMTAB is 6, and DT_STRTAB 5.
  unfoldable pub get_address_gnu : (rounds fuel : ℕ) → Text → (dyn_section base_addr : ℕ) → M P ℕ
  unfolding get_dynamic_entry get_gnu_hash look_in_table dl_new_hash
  get_address_gnu rounds fuel function dyn_section base_addr =
      get_dynamic_entry fuel base_addr dyn_section 6 >>= λ symtab.
      get_dynamic_entry fuel base_addr dyn_section 5 >>= λ strtab.
      get_gnu_hash fuel dyn_section base_addr >>= λ ht.
      look_in_table rounds fuel ht (dl_new_hash function) symtab strtab function
